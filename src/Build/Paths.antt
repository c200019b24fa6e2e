-- ===== src/Build/Paths.antt =====
-- The path of a project's Dockerfile (`normalise_dockerfile_path` of deploypro/domain/detect.py).
use mathlib.Core.Option.{some-injective}
use deploygenus.Text.{
  Text, codes, text_eq, contains, starts_with, starts_with_split, remove_prefix, is_digit, is_lower,
  is_upper, is_space, OpensOutside, strip_by_id, strip, Free, nonempty, split_by_more, split_on,
  Free-ClosesOutside,
}
use deploygenus.Base.{
  ◌==◌, if◌then◌else◌, Bool-cases, drop, All-map_of, all, all→All, ℕ, ◌≡◌, refl, sym, ap, ◌∙◌,
  subst, ◌⊎◌, inl, inr, Bool, true, false, not, ◌&&◌, ◌||◌, Option, none, some, List, [], ◌∷◌,
  arith,
}

-- `[A-Za-z0-9._@+-]`
is_file_char : ℕ → Bool
unfolding is_lower is_upper is_digit
is_file_char c =
    is_lower c
    || is_upper c
    || is_digit c
    || c == b'.'
    || c == b'_'
    || c == b'@'
    || c == b'+'
    || c == b'-'

-- A character of the class, or a slash.
is_path_char : ℕ → Bool
unfolding is_file_char
is_path_char c = is_file_char c || c == b'/'

-- `_DOCKERFILE_PATH`: parts of the class with a slash between two of them
is_dockerfile_path : Text → List Text → Bool
unfolding is_path_char
is_dockerfile_path path parts = all is_path_char path && all nonempty parts

-- Whether a path that is not empty is accepted, with its parts.
is_accepted : Text → List Text → Bool
unfolding is_dockerfile_path contains starts_with
is_accepted path parts = not (
    starts_with path (codes "/")
    || contains parts (codes "..")
    || contains parts (codes ".")
    || not (is_dockerfile_path path parts))

-- The rules for a path without its prefix; `none` is InvalidRequest.
checked_path : Text → Option Text
unfolding is_accepted split_on
checked_path [] = some []
checked_path (c ∷ s) = if is_accepted (c ∷ s) (split_on b'/' (c ∷ s)) then some (c ∷ s) else none

normalise_dockerfile_path : Text → Option Text
unfolding checked_path remove_prefix strip
normalise_dockerfile_path text = checked_path (remove_prefix (strip text) (codes "./"))

path_char-printed : (c : ℕ) → is_path_char c ≡ true → is_space c ≡ false
unfolding is_path_char is_file_char is_lower is_upper is_digit is_space
path_char-printed c h = ground arith

Free-OpensOutside : (w : Text) → Free is_space w → OpensOutside is_space w
Free-OpensOutside [] h = tt
Free-OpensOutside (c ∷ w) h = h.0

strip-Free : (w : Text) → Free is_space w → strip w ≡ w
unfolding strip
strip-Free w h = strip_by_id is_space w (Free-OpensOutside w h) (Free-ClosesOutside is_space w h)

-- A path that opens with `./` has the part `.`.
dot_first :
    (path : Text)
    → starts_with path (codes "./") ≡ true
    → contains (split_on b'/' path) (codes ".") ≡ true
unfolding split_on contains text_eq
dot_first path h =
    let split : split_on b'/' path ≡ codes "." ∷ split_on b'/' (drop 2 path) =
      ap (split_on b'/') (starts_with_split path (codes "./") h)
      ∙ split_by_more (λ d. d == b'/') (codes ".") b'/' (drop 2 path) (ground arith) refl in
    rw split refl

remove_prefix_none :
    (path : Text)
    → contains (split_on b'/' path) (codes ".") ≡ false
    → remove_prefix path (codes "./") ≡ path
unfolding remove_prefix
remove_prefix_none path h = elim (Bool-cases (starts_with path (codes "./"))) [
  | inl e ↦ let there = dot_first path e in cc
  | inr e ↦ rw e refl
]

-- What an accepted path is made of.
accepted_parts :
    (path : Text)
    → is_accepted path (split_on b'/' path) ≡ true
    → (contains (split_on b'/' path) (codes ".") ≡ false) × (all is_path_char path ≡ true)
unfolding is_accepted is_dockerfile_path
accepted_parts path h = ground arith

accepted-normal :
    (path : Text)
    → is_accepted path (split_on b'/' path) ≡ true
    → normalise_dockerfile_path path ≡ checked_path path
unfolding normalise_dockerfile_path
accepted-normal path h =
    let (no_dot, class) = accepted_parts path h in
    let printed : Free is_space path =
      All-map_of (λ c. is_path_char c ≡ true) (λ c. is_space c ≡ false) path path_char-printed
        (all→All is_path_char path class) in
    ap (λ t. checked_path (remove_prefix t (codes "./"))) (strip-Free path printed)
    ∙ ap checked_path (remove_prefix_none path no_dot)

checked_path-accepted :
    (path p : Text)
    → checked_path path ≡ some p
    → (p ≡ []) ⊎ ((path ≡ p) × (is_accepted p (split_on b'/' p) ≡ true))
unfolding checked_path
checked_path-accepted [] p = λ h. inl (sym (some-injective [] p h))
checked_path-accepted (c ∷ s) p = elim (Bool-cases (is_accepted (c ∷ s) (split_on b'/' (c ∷ s)))) [
  | inl e ↦ rw e (λ h.
      let same : c ∷ s ≡ p = some-injective (c ∷ s) p h in
      inr (same, subst (λ t. is_accepted t (split_on b'/' t) ≡ true) same e))
  | inr e ↦ rw e (λ h. cc)
]

empty_path : normalise_dockerfile_path [] ≡ some []
unfolding normalise_dockerfile_path strip remove_prefix starts_with checked_path
empty_path = refl

-- A path that was accepted is accepted again as it is.
normalise_dockerfile_path_idem :
    (text p : Text) → normalise_dockerfile_path text ≡ some p → normalise_dockerfile_path p ≡ some p
unfolding normalise_dockerfile_path
normalise_dockerfile_path_idem text p h =
    elim (checked_path-accepted (remove_prefix (strip text) (codes "./")) p h) [
      | inl none_given ↦ rw none_given empty_path
      | inr (same, e) ↦ accepted-normal p e ∙ ap checked_path (sym same) ∙ h
    ]
