-- ===== src/Schedule/Fields/Ranges.antt =====
-- The numbers that a parsed schedule holds.
use deploygenus.Schedule.Cron.{CronSchedule}
use deploygenus.Schedule.Fields.{
  Field, minute_field, hour_field, day_field, month_field, weekday_field, bad_step, backwards,
  matches_nothing, Checked, month_names, weekday_names, lookup, names_of, is_weekday, number_value,
  value_of, match_step, range_by, range_of, bounds_of, chunk_of, chunks_of, field_of, schedule_of,
  parse,
}
use deploygenus.Text.{Text, codes, text_eq, lower, lstrip_by, strip, split_on, partition}
use mathlib.Core.Option.{some-injective}
use deploygenus.Base.{
  ltb, leb, ◌==◌, Bool-cases, Option-cases, All, All-append, any, is_empty, In, guard, ok-injective,
  ◌>>=◌, ◌>>◌, guard_then, >>=-eq-ok, ok, ℕ, zero, suc, ◌+◌, ◌-◌, ◌*◌, ◌≤◌, ◌<◌, ◌≡◌, refl, sym,
  subst, ◌↔◌, inl, inr, true, false, not, Option, none, some, List, [], ◌∷◌, arith,
}

abbrev pub Within : ℕ → ℕ → ℕ → Type 0
Within low high n = (low ≤ n) × (n ≤ high)

-- The names of a field lie in its bounds, and a weekday may be 0.
record Fits (name : Field) (low high : ℕ) : Type 0 where
  named : (token : Text) (n : ℕ) → lookup token (names_of name) ≡ some n → Within low high n
  sunday : is_weekday name ≡ true → low ≡ 0

pub lookup-All :
    {A : Type 0} (P : A → Type 0) (names : List (Text × A)) (token : Text) (a : A)
    → All (λ e. P e.1) names
    → lookup token names ≡ some a
    → P a
unfolding lookup
lookup-All P [] token a h = λ e. cc
lookup-All P ((name, b) ∷ rest) token a h = elim (Bool-cases (text_eq name token)) [
  | inl same ↦ rw same (λ e. subst P (some-injective b a e) h.0)
  | inr other ↦ rw other (λ e. lookup-All P rest token a h.1 e)
]

value_of-Within :
    (text : Text) (name : Field) (low high n : ℕ)
    → Fits name low high
    → value_of text name low high ≡ ok n
    → Within low high n
unfolding value_of number_value
value_of-Within text name low high n fits =
    elim (Option-cases (lookup (strip text) (names_of name))) [
      | inr (m, e) ↦ rw (e, value_of) (λ h. ground (arith, fits.named (strip text) m e))
      | inl e ↦ rw (e, value_of) (λ h. ground (arith, fits.sunday))
    ]

-- `range(start, end + 1, step)` holds the numbers of the progression up to `end`, and no other.
In-range_by :
    (f start end' step k : ℕ)
    → end' + 1 - start ≤ f
    → 0 < step
    → start + k * step ≤ end'
    → In (start + k * step) (range_by f start end' step)
unfolding range_by
In-range_by zero start end' step k fuel pos h = absurd (grind arith)
In-range_by (suc f) start end' step zero fuel pos h =
    let inside : leb start end' ≡ true = ground arith in rw inside (inl (omega arith))
In-range_by (suc f) start end' step (suc k) fuel pos h =
    let inside : leb start end' ≡ true = grind arith in
    let shift : start + suc k * step ≡ start + step + k * step = grind arith in
    rw inside (
      inr (
        subst (λ u. In u (range_by f (start + step) end' step)) (sym shift)
          (In-range_by f (start + step) end' step k (omega arith) pos (rw shift at h))))

range_by-In :
    (f start end' step u : ℕ)
    → In u (range_by f start end' step)
    → (k : ℕ) × (u ≡ start + k * step) × (u ≤ end')
unfolding range_by
range_by-In zero start end' step u = λ h. elim h [ ]
range_by-In (suc f) start end' step u = elim (Bool-cases (leb start end')) [
  | inr e ↦ rw e (λ h. elim h [ ])
  | inl e ↦ rw e (elim [
    | inl p ↦ (0, omega arith, ground arith)
    | inr m ↦
        let (k, q, le) = range_by-In f (start + step) end' step u m in (suc k, grind arith, le)
  ])
]

-- A chunk's `range(start, end + 1, step)`, with a step of at least 1, is the arithmetic progression
-- from `start`: it holds `u` exactly if `u = start + k * step` for some `k` and `u` is at most `end`.
pub range_of_exact :
    (start end' step u : ℕ)
    → 0 < step
    → In u (range_of start end' step) ↔ ((k : ℕ) × (u ≡ start + k * step) × (u ≤ end'))
unfolding range_of
range_of_exact start end' step u pos = (
  range_by-In (end' + 1 - start) start end' step u,
  λ (k, e, le).
      rw e (In-range_by (end' + 1 - start) start end' step k (omega arith) pos (rw e at le)),
)

range_by-Within :
    (low high f start end' step : ℕ)
    → low ≤ start
    → end' ≤ high
    → All (Within low high) (range_by f start end' step)
unfolding range_by
range_by-Within low high zero start end' step l h = tt
range_by-Within low high (suc f) start end' step l h = elim (Bool-cases (leb start end')) [
  | inr e ↦ rw e tt
  | inl e ↦
      rw e ((l, ground arith), range_by-Within low high f (start + step) end' step (omega arith) h)
]

bounds_of-Within :
    (body : Text) (step_text : Option Text) (name : Field) (low high : ℕ) (b : ℕ × ℕ)
    → Fits name low high
    → bounds_of body step_text name low high ≡ ok b
    → (low ≤ b.0) × (b.1 ≤ high)
unfolding bounds_of
bounds_of-Within body step_text name low high b fits =
    elim (Bool-cases (text_eq body (codes "*"))) [
      | inl e ↦ rw e (λ h. ground arith)
      | inr e ↦ rw e (elim (Bool-cases (any (λ c. c == b'-') (lstrip_by (λ c. c == b'-') body))) [
        | inl dash ↦ rw dash (λ h. dashed (>>=-eq-ok (value_of start_text name low high) _ h))
        | inr single ↦ rw single (λ h.
            let (n, e, q) = >>=-eq-ok (value_of body name low high) _ h in
            alone n (value_of-Within body name low high n fits e) q)
      ])
    ]
  where
    start_text : Text
    start_text = (partition b'-' body).0

    end_text : Text
    end_text = (partition b'-' body).2

    pair :
        (n m : ℕ)
        → Within low high n
        → Within low high m
        → (guard (not (ltb m n)) (backwards body name) >> ok (n, m)) ≡ ok b
        → (low ≤ b.0) × (b.1 ≤ high)
    pair n m wn wm h = ground arith

    dashed :
        (n : ℕ) × (value_of start_text name low high ≡ ok n)
          × ((do
            end' ← value_of end_text name low high
            guard (not (ltb end' n)) (backwards body name)
            ok (n, end'))
              ≡ ok b)
        → (low ≤ b.0) × (b.1 ≤ high)
    dashed (n, en, h) =
        let (m, em, q) = >>=-eq-ok (value_of end_text name low high) _ h in
        pair n m (value_of-Within start_text name low high n fits en)
          (value_of-Within end_text name low high m fits em) q

    alone :
        (n : ℕ)
        → Within low high n
        → ◌≡◌ {A = Checked (ℕ × ℕ)} (ok (n, elim step_text [ some _ ↦ high | none ↦ n ])) (ok b)
        → (low ≤ b.0) × (b.1 ≤ high)
    alone n wn h = ground arith

chunk_of-Within :
    (chunk : Text) (name : Field) (low high : ℕ) (ns : List ℕ)
    → Fits name low high
    → chunk_of chunk name low high ≡ ok ns
    → All (Within low high) ns
unfolding chunk_of range_of
chunk_of-Within chunk name low high ns fits = elim (Option-cases (match_step chunk)) [
  | inl e ↦ rw (e, chunk_of) (λ h. cc)
  | inr ((body, step_text), e) ↦
      rw (e, chunk_of)
        (λ h.
          let (_, h') = guard_then _ (bad_step _ name) _ h in
          let (b, eb, q) = >>=-eq-ok (bounds_of body step_text name low high) _ h' in
          let (lo, hi) = bounds_of-Within body step_text name low high b fits eb in
          subst (All (Within low high)) (ok-injective q)
            (range_by-Within low high (b.1 + 1 - b.0) b.0 b.1 _ lo hi))
]

chunks_of-Within :
    (chunks : List Text) (name : Field) (low high : ℕ) (ns : List ℕ)
    → Fits name low high
    → chunks_of chunks name low high ≡ ok ns
    → All (Within low high) ns
unfolding chunks_of
chunks_of-Within [] name low high ns fits h = subst (All (Within low high)) (ok-injective h) tt
chunks_of-Within (chunk ∷ chunks) name low high ns fits h =
    let (vs, ev, h') = >>=-eq-ok (chunk_of chunk name low high) _ h in
    let (ws, ew, q) = >>=-eq-ok (chunks_of chunks name low high) _ h' in
    subst (All (Within low high)) (ok-injective q) (
      All-append (Within low high) vs ws (chunk_of-Within chunk name low high vs fits ev)
        (chunks_of-Within chunks name low high ws fits ew))

-- A set of field values: not empty, and within the field's bounds.
abbrev pub IsField : ℕ → ℕ → List ℕ → Type 0
IsField low high ns = (is_empty ns ≡ false) × All (Within low high) ns

field_of-IsField :
    (part : Text) (name : Field) (low high : ℕ) (ns : List ℕ)
    → Fits name low high
    → field_of part name low high ≡ ok ns
    → IsField low high ns
unfolding field_of
field_of-IsField part name low high ns fits h =
    let (vs, ev, h') = >>=-eq-ok (chunks_of (split_on b',' part) name low high) _ h in
    let (full, q) = guard_then (not (is_empty vs)) (matches_nothing part name) _ h' in
    subst (IsField low high) (ok-injective q)
      (ground arith, chunks_of-Within (split_on b',' part) name low high vs fits ev)

minute-Fits : Fits minute_field 0 59
unfolding names_of is_weekday
minute-Fits = record {
  named = λ token n. lookup-All (Within 0 59) [] token n tt;
  sunday = λ h. refl;
}

hour-Fits : Fits hour_field 0 23
unfolding names_of is_weekday
hour-Fits = record { named = λ token n. lookup-All (Within 0 23) [] token n tt; sunday = λ h. refl }

day-Fits : Fits day_field 1 31
unfolding names_of is_weekday
day-Fits = record { named = λ token n. lookup-All (Within 1 31) [] token n tt; sunday = λ h. cc }

month-Fits : Fits month_field 1 12
unfolding names_of is_weekday
month-Fits = record {
  named = λ token n. lookup-All (Within 1 12) month_names token n (omega arith);
  sunday = λ h. cc;
}

weekday-Fits : Fits weekday_field 0 6
unfolding names_of is_weekday
weekday-Fits = record {
  named = λ token n. lookup-All (Within 0 6) weekday_names token n (omega arith);
  sunday = λ h. refl;
}

-- Every field of a schedule can name something, and names only what a clock can show.
pub record IsValid (s : CronSchedule) : Type 0 where
  pub minutes : IsField 0 59 s.minutes
  pub hours : IsField 0 23 s.hours
  pub days : IsField 1 31 s.days
  pub months : IsField 1 12 s.months
  pub weekdays : IsField 0 6 s.weekdays

schedule_of-IsValid : (parts : List Text) (s : CronSchedule) → schedule_of parts ≡ ok s → IsValid s
unfolding schedule_of
schedule_of-IsValid (p0 ∷ p1 ∷ p2 ∷ p3 ∷ p4 ∷ []) s h =
    let (ms, e0, h0) = >>=-eq-ok (field_of p0 minute_field 0 59) _ h in
    let (hs, e1, h1) = >>=-eq-ok (field_of p1 hour_field 0 23) _ h0 in
    let (ds, e2, h2) = >>=-eq-ok (field_of p2 day_field 1 31) _ h1 in
    let (ns, e3, h3) = >>=-eq-ok (field_of p3 month_field 1 12) _ h2 in
    let (ws, e4, h4) = >>=-eq-ok (field_of p4 weekday_field 0 6) _ h3 in
    subst IsValid (ok-injective h4) (record {
      minutes = field_of-IsField p0 minute_field 0 59 ms minute-Fits e0;
      hours = field_of-IsField p1 hour_field 0 23 hs hour-Fits e1;
      days = field_of-IsField p2 day_field 1 31 ds day-Fits e2;
      months = field_of-IsField p3 month_field 1 12 ns month-Fits e3;
      weekdays = field_of-IsField p4 weekday_field 0 6 ws weekday-Fits e4;
    })
schedule_of-IsValid [] s h = cc
schedule_of-IsValid (_ ∷ []) s h = cc
schedule_of-IsValid (_ ∷ _ ∷ []) s h = cc
schedule_of-IsValid (_ ∷ _ ∷ _ ∷ []) s h = cc
schedule_of-IsValid (_ ∷ _ ∷ _ ∷ _ ∷ []) s h = cc
schedule_of-IsValid (_ ∷ _ ∷ _ ∷ _ ∷ _ ∷ _ ∷ _) s h = cc

-- Whatever text is accepted, each of the five sets of the schedule is not empty and lies in its
-- field's bounds: minutes 0-59, hours 0-23, days 1-31, months 1-12, weekdays 0-6.
pub parse-IsValid : (expression : Text) (s : CronSchedule) → parse expression ≡ ok s → IsValid s
unfolding parse
parse-IsValid expression s = elim (Bool-cases (is_empty (lower (strip expression)))) [
  | inl e ↦ rw e (λ h. cc)
  | inr e ↦ rw e (λ h. schedule_of-IsValid _ s h)
]
