-- ===== src/Environment/Delivery.antt =====
-- What reaches the build and the container.
use mathlib.Core.Option.{some-injective}
use deploygenus.Models.{EnvTarget, production, preview, all_targets, covers}
use deploygenus.Dict.{lookup, put}
use deploygenus.Dict.Laws.{lookup-put}
use deploygenus.Text.{Text, codes, text_eq}
use deploygenus.Environment.{
  EnvVar, Variables, is_general, general_first, assign_secret, after_assign, assign_all, resolve,
  breaks_line, split, escape_quotes, shell_quote,
}
use deploygenus.Base.{
  leb, ◌==◌, if◌then◌else◌, ==_iff, Bool-cases, Option-cases, filter, any, In, In-filter, filter-In,
  ℕ, ◌≡◌, refl, sym, ap, ◌∙◌, ◌↔◌, inl, inr, Bool, true, false, not, ◌&&◌, ◌||◌, Option, none, some,
  List, [], ◌∷◌, ◌++◌, arith,
}

-- How a POSIX shell reads a word: between single quotes every character stands for itself, outside
-- them a backslash makes the next character stand for itself, and of the others only those stand for
-- themselves that no operator, expansion, pattern or blank begins with; the rest is no word.
pub data Reading : Type 0 where
  bare quoted escaped : Reading

with_front : ℕ → Option Text → Option Text
with_front c none = none
with_front c (some s) = some (c ∷ s)

between : ℕ → ℕ → ℕ → Bool
between low high c = leb low c && leb c high

-- Letters, digits and the characters of names, paths and addresses.
is_ordinary : ℕ → Bool
unfolding between
is_ordinary c =
    between b'a' b'z' c
    || between b'A' b'Z' c
    || between b'0' b'9' c
    || any (λ d. d == c) (codes "_-./:@%+,")

pub unquote : Reading → Text → Option Text
unfolding with_front is_ordinary
unquote bare [] = some []
unquote quoted [] = none
unquote escaped [] = none
unquote bare (c ∷ s) =
    let opened = unquote quoted s in
    let next = unquote escaped s in
    let rest = unquote bare s in
    if c == b'\''
    then opened
    else if c == b'\\'
    then next
    else if is_ordinary c
    then with_front c rest
    else none
unquote quoted (c ∷ s) =
    let closed = unquote bare s in
    let rest = unquote quoted s in if c == b'\'' then closed else with_front c rest
unquote escaped (c ∷ s) = let rest = unquote bare s in if c == 10 then none else with_front c rest

escape_quotes-unquote : (s : Text) → unquote quoted (escape_quotes s ++ (b'\'' ∷ [])) ≡ some s
unfolding unquote escape_quotes with_front
escape_quotes-unquote [] = refl
escape_quotes-unquote (c ∷ s) = elim (Bool-cases (c == b'\'')) [
  | inl e ↦
      let same : c ≡ b'\'' = (==_iff c b'\'').0 e in
      rw (e, escape_quotes-unquote s) (ap (λ x. some (x ∷ s)) (sym same))
  | inr e ↦ rw (e, e, escape_quotes-unquote s) refl
]

-- A shell that sources the build's secret file reads a quoted value as one word, the value itself,
-- whatever single quotes, backslashes, line breaks, blanks or operators are in it.
pub unquote-shell_quote : (value : Text) → unquote bare (shell_quote value) ≡ some value
unfolding unquote shell_quote
unquote-shell_quote value = escape_quotes-unquote value

-- A value goes to the file of lines or to the arguments, never to both and never to neither, and no
-- value in the file breaks its line.
pub split_exact :
    (resolved : Variables) (x : Text × Text)
    → (In x (split resolved).file_safe ↔ (In x resolved × (breaks_line x.1 ≡ false)))
      × (In x (split resolved).inline ↔ (In x resolved × (breaks_line x.1 ≡ true)))
unfolding split
split_exact resolved x = (
  (
    λ m.
        let (k, h) = filter-In (λ (y : Text × Text). not (breaks_line y.1)) x resolved m in
        (k, flipped (breaks_line x.1) h),
    λ (k, h). In-filter (λ (y : Text × Text). not (breaks_line y.1)) x resolved k (rw h),
  ),
  (
    λ m. filter-In (λ (y : Text × Text). breaks_line y.1) x resolved m,
    λ (k, h). In-filter (λ (y : Text × Text). breaks_line y.1) x resolved k h,
  ),
)
  where
    flipped : (b : Bool) → not b ≡ true → b ≡ false
    flipped b h = ground arith

-- Stored for the deployment's own target, not for every target.
abbrev pub is_own : EnvTarget → EnvTarget → Bool
is_own production production = true
is_own preview preview = true
is_own _ _ = false

abbrev pub is_for_all : EnvTarget → Bool
is_for_all all_targets = true
is_for_all _ = false

filter-filter :
    (p q r : EnvVar → Bool) (vs : List EnvVar)
    → ((v : EnvVar) → (q v && p v) ≡ r v)
    → filter p (filter q vs) ≡ filter r vs
unfolding filter
filter-filter p q r [] h = refl
filter-filter p q r (v ∷ vs) h = let here = h v in ground (arith, filter-filter p q r vs h)

own_covered :
    (t u : EnvTarget) (v : EnvVar)
    → v.target ≡ u
    → (covers v.target t && not (is_general v)) ≡ is_own t v.target
own_covered production production v e = rw e refl
own_covered production preview v e = rw e refl
own_covered production all_targets v e = rw e refl
own_covered preview production v e = rw e refl
own_covered preview preview v e = rw e refl
own_covered preview all_targets v e = rw e refl
own_covered all_targets production v e = rw e refl
own_covered all_targets preview v e = rw e refl
own_covered all_targets all_targets v e = rw e refl

general_covered :
    (u t : EnvTarget) (v : EnvVar)
    → v.target ≡ u
    → (covers v.target t && is_general v) ≡ is_for_all v.target
general_covered all_targets t v e = rw e refl
general_covered production production v e = rw e refl
general_covered production preview v e = rw e refl
general_covered production all_targets v e = rw e refl
general_covered preview production v e = rw e refl
general_covered preview preview v e = rw e refl
general_covered preview all_targets v e = rw e refl

own_stored :
    (target : EnvTarget) (stored : List EnvVar)
    → filter (λ v. not (is_general v)) (filter (λ v. covers v.target target) stored)
      ≡ filter (λ v. is_own target v.target) stored
own_stored target stored =
    filter-filter (λ v. not (is_general v)) (λ v. covers v.target target)
      (λ v. is_own target v.target) stored (λ v. own_covered target v.target v refl)

general_stored :
    (target : EnvTarget) (stored : List EnvVar)
    → filter is_general (filter (λ v. covers v.target target) stored)
      ≡ filter (λ v. is_for_all v.target) stored
general_stored target stored =
    filter-filter is_general (λ v. covers v.target target) (λ v. is_for_all v.target) stored
      (λ v. general_covered v.target target v refl)

module _ (decrypt : Text → Option Text) (key : Text) where
  -- The value of the last variable with the key, or what there was before.
  pub latest : List EnvVar → Option Text → Option Text
  latest [] before = before
  latest (v ∷ vs) before =
      latest vs (if text_eq v.key key then decrypt v.value_encrypted else before)

  latest-append :
      (us vs : List EnvVar) (before : Option Text)
      → latest (us ++ vs) before ≡ latest vs (latest us before)
  unfolding latest
  latest-append [] vs before = refl
  latest-append (u ∷ us) vs before = latest-append us vs _

  assign_all-latest :
      (vs : List EnvVar) (d e : Variables)
      → assign_all decrypt vs d ≡ some e
      → lookup key e ≡ latest vs (lookup key d)
  unfolding assign_all after_assign assign_secret latest
  assign_all-latest [] d e = λ h. ap (lookup key) (sym (some-injective d e h))
  assign_all-latest (v ∷ vs) d e = elim (Option-cases (decrypt v.value_encrypted)) [
    | inl q ↦ rw q (λ h. cc)
    | inr (value, q) ↦
        rw (q, ← lookup-put v.key key value d) (assign_all-latest vs (put v.key value d) e)
  ]

  -- If every value that is seen can be decrypted, a deployment's variable has the value stored last
  -- for its own target if there is one, else the one stored last for every target, else the
  -- injected one; what is stored for another target is not seen.
  pub resolve-latest :
      (stored : List EnvVar) (target : EnvTarget) (injected resolved : Variables)
      → resolve decrypt stored target injected ≡ some resolved
      → lookup key resolved
        ≡ latest
            (filter (λ v. is_own target v.target) stored)
            (latest (filter (λ v. is_for_all v.target) stored) (lookup key injected))
  unfolding resolve general_first
  resolve-latest stored target injected resolved h =
      let seen = filter (λ (v : EnvVar). covers v.target target) stored in
      assign_all-latest (general_first seen) injected resolved h
      ∙ latest-append (filter is_general seen) (filter (λ v. not (is_general v)) seen)
          (lookup key injected)
      ∙ ap (latest (filter (λ v. not (is_general v)) seen))
          (ap (λ vs. latest vs (lookup key injected)) (general_stored target stored))
      ∙ ap
          (λ vs.
            latest vs (latest (filter (λ v. is_for_all v.target) stored) (lookup key injected)))
          (own_stored target stored)
