-- ===== src/Schedule/Fields/Printed.antt =====
-- The stored expression of a schedule is parsed to the same schedule.
use deploygenus.Schedule.Fields.{
  minute_field, hour_field, day_field, month_field, weekday_field, aliases, lookup, field_of,
  schedule_of, unalias, parse,
}
use deploygenus.Schedule.Cron.{CronSchedule}
use deploygenus.Schedule.Fields.Ranges.{lookup-All}
use deploygenus.Text.{
  Text, text_eq, text_eq_iff, is_upper, is_space, to_lower, lower, strip_by_id, strip, Free,
  nonempty, split_by, split_by-Free, split_by-All, join, split_by-join, words, filter-nonempty_id,
  filter-nonempty-All, filter-nonempty, join-All, join-nonempty, join-ClosesOutside,
  join-OpensOutside,
}
use deploygenus.Base.{
  ◌==◌, Bool-cases, Option-cases, length, All, is_empty, ok-injective, >>=-eq-ok, ok, ℕ, ◌≡◌, refl,
  sym, ap, ◌∙◌, inl, inr, Bool, true, false, not, none, List, [], ◌∷◌, arith,
}

abbrev NotUpper : Text → Type 0
NotUpper s = All (λ c. is_upper c ≡ false) s

to_lower-not_upper : (c : ℕ) → is_upper (to_lower c) ≡ false
unfolding to_lower is_upper
to_lower-not_upper c = ground arith

lower-NotUpper : (s : Text) → NotUpper (lower s)
unfolding lower
lower-NotUpper [] = tt
lower-NotUpper (c ∷ s) = (to_lower-not_upper c, lower-NotUpper s)

lower_id : (s : Text) → NotUpper s → lower s ≡ s
unfolding lower
lower_id [] h = refl
lower_id (c ∷ s) h = let same : to_lower c ≡ c = rw (h.0, to_lower) in rw (same, lower_id s h.1)

not-true : (b : Bool) → not b ≡ true → b ≡ false
not-true b h = ground arith

-- The words of an expression: not empty, no white space, no capital.
record IsWords (ws : List Text) : Type 0 where
  full : All (λ w. nonempty w ≡ true) ws
  unspaced : All (Free is_space) ws
  small : All NotUpper ws

words-IsWords : (s : Text) → NotUpper s → IsWords (words s)
unfolding words
words-IsWords s h = record {
  full = filter-nonempty (split_by is_space s);
  unspaced = filter-nonempty-All (Free is_space) (split_by is_space s) (split_by-Free is_space s);
  small =
      filter-nonempty-All NotUpper (split_by is_space s)
        (split_by-All is_space (λ c. is_upper c ≡ false) s h);
}

words-join : (w : Text) (ws : List Text) → IsWords (w ∷ ws) → words (join b' ' (w ∷ ws)) ≡ w ∷ ws
unfolding words is_space
words-join w ws h =
    rw (split_by-join is_space b' ' w ws refl h.unspaced) (filter-nonempty_id (w ∷ ws) h.full)

unalias-NotUpper : (raw : Text) → NotUpper raw → NotUpper (unalias raw)
unfolding unalias is_upper
unalias-NotUpper raw h = elim (Option-cases (lookup raw aliases)) [
  | inl e ↦ rw (e, unalias) h
  | inr (full, e) ↦ rw (e, unalias) (lookup-All NotUpper aliases raw full (ground arith) e)
]

-- A text of five words is no alias.
lookup-none :
    {A : Type 0} (raw : Text) (names : List (Text × A))
    → length (words raw) ≡ 5
    → All (λ e. (length (words e.0) == 5) ≡ false) names
    → lookup raw names ≡ none
unfolding lookup
lookup-none raw [] five h = refl
lookup-none raw ((name, a) ∷ rest) five h = elim (Bool-cases (text_eq name raw)) [
  | inl same ↦
      let five' : length (words name) ≡ 5 =
        ap (λ t. length (words t)) ((text_eq_iff name raw).0 same) ∙ five in
      absurd (ground (arith, h.0, five'))
  | inr other ↦ rw other (lookup-none raw rest five h.1)
]

one_word : All (λ (e : Text × Text). (length (words e.0) == 5) ≡ false) aliases
unfolding words
one_word = ground arith

unalias_id : (raw : Text) → length (words raw) ≡ 5 → unalias raw ≡ raw
unfolding unalias
unalias_id raw five = rw (lookup-none raw aliases five one_word, unalias)

words-five :
    (parts : List Text) (s : CronSchedule)
    → schedule_of parts ≡ ok s
    → (length parts ≡ 5) × (s.expression ≡ join b' ' parts)
unfolding schedule_of
words-five (p0 ∷ p1 ∷ p2 ∷ p3 ∷ p4 ∷ []) s h =
    let (ms, e0, h0) = >>=-eq-ok (field_of p0 minute_field 0 59) _ h in
    let (hs, e1, h1) = >>=-eq-ok (field_of p1 hour_field 0 23) _ h0 in
    let (ds, e2, h2) = >>=-eq-ok (field_of p2 day_field 1 31) _ h1 in
    let (ns, e3, h3) = >>=-eq-ok (field_of p3 month_field 1 12) _ h2 in
    let (ws, e4, h4) = >>=-eq-ok (field_of p4 weekday_field 0 6) _ h3 in
    (refl, sym (ap (λ (t : CronSchedule). t.expression) (ok-injective h4)))
words-five [] s h = cc
words-five (_ ∷ []) s h = cc
words-five (_ ∷ _ ∷ []) s h = cc
words-five (_ ∷ _ ∷ _ ∷ []) s h = cc
words-five (_ ∷ _ ∷ _ ∷ _ ∷ []) s h = cc
words-five (_ ∷ _ ∷ _ ∷ _ ∷ _ ∷ _ ∷ _) s h = cc

-- `parse` of words that stand one space apart.
parse-join :
    (w : Text) (ws : List Text)
    → IsWords (w ∷ ws)
    → length (w ∷ ws) ≡ 5
    → parse (join b' ' (w ∷ ws)) ≡ schedule_of (w ∷ ws)
unfolding parse is_upper strip
parse-join w ws h five =
    let text : Text = join b' ' (w ∷ ws) in
    let plain : lower (strip text) ≡ text =
      ap lower (
        strip_by_id is_space text (join-OpensOutside is_space b' ' w ws h.full.0 h.unspaced.0)
          (join-ClosesOutside is_space b' ' (w ∷ ws) h.full h.unspaced))
      ∙ lower_id text (join-All (λ c. is_upper c ≡ false) b' ' (w ∷ ws) refl h.small) in
    let full : is_empty text ≡ false =
      not-true (is_empty text) (join-nonempty b' ' w ws h.full.0) in
    let parts : words text ≡ w ∷ ws = words-join w ws h in
    rw (plain, full, unalias_id text (ap length parts ∙ five), parts) refl

accepted_parts :
    (parts : List Text) (s : CronSchedule)
    → IsWords parts
    → schedule_of parts ≡ ok s
    → parse s.expression ≡ ok s
accepted_parts [] s w h = absurd (omega (arith, (words-five [] s h).0))
accepted_parts (p ∷ ps) s w h =
    let (five, e) = words-five (p ∷ ps) s h in ap parse e ∙ parse-join p ps w five ∙ h

-- The expression that a parsed schedule stores, one space between its fields and its alias written
-- out, is accepted and gives the same schedule.
pub parse-expression :
    (expression : Text) (s : CronSchedule) → parse expression ≡ ok s → parse s.expression ≡ ok s
unfolding parse
parse-expression expression s = elim (Bool-cases (is_empty (lower (strip expression)))) [
  | inl e ↦ rw e (λ h. cc)
  | inr e ↦ rw e (
      accepted_parts (words (unalias (lower (strip expression)))) s
        (words-IsWords _ (unalias-NotUpper _ (lower-NotUpper (strip expression)))))
]
