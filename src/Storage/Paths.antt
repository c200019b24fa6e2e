-- ===== src/Storage/Paths.antt =====
-- Canonical mount paths.
use deploygenus.Storage.{
  relative, bad_character, dot_segment, whole_filesystem, inside_reserved, is_path_char, is_slash,
  is_dots, reserved_paths, path_parts, check_reserved, check_parts, normalise_mount_path,
}
use deploygenus.Text.{
  Text, codes, text_eq, starts_with, is_digit, is_lower, is_upper, is_space, strip_by_id, strip,
  Free, nonempty, split_by, split_by-Free, split_by-All, join, split_by-join, filter-nonempty_id,
  filter-nonempty-All, filter-nonempty, join-All, join-nonempty, ClosesOutside-append,
  join-ClosesOutside,
}
use deploygenus.Base.{
  if◌then◌else◌, All, All-map_of, filter, any, all, is_empty, all→All, All→all, ok-injective,
  guard_then, ok, err, ℕ, ◌≡◌, refl, sym, ap, ◌∙◌, subst, Bool, true, false, not, ◌||◌, List, [],
  ◌∷◌, ◌++◌, arith,
}

abbrev IsSegment : Text → Type 0
IsSegment part =
    (nonempty part ≡ true)
    × Free is_slash part
    × All (λ c. is_path_char c ≡ true) part
    × (is_dots part ≡ false)

abbrev IsOutside : Text → Text → Type 0
IsOutside path reserved =
    (text_eq path reserved ≡ false) × (starts_with path (reserved ++ codes "/") ≡ false)

-- `/a/b`: segments joined by single slashes after a slash, none of them `.` or `..`, outside every
-- reserved directory.
pub record IsCanonical (path : Text) : Type 0 where
  pub segments : List Text
  pub some_segment : is_empty segments ≡ false
  pub joined : path ≡ b'/' ∷ join b'/' segments
  pub allowed : All IsSegment segments
  pub outside : All (IsOutside path) reserved_paths

check_reserved-IsOutside :
    (path : Text) (rs : List Text) (c : Text)
    → check_reserved path rs ≡ ok c
    → (path ≡ c) × All (IsOutside path) rs
unfolding check_reserved
check_reserved-IsOutside path [] c h = (ok-injective h, tt)
check_reserved-IsOutside path (r ∷ rs) c h =
    let (here, rest) = first (text_eq path r) (starts_with path (r ++ codes "/")) h in
    let (same, others) = check_reserved-IsOutside path rs c rest in (same, (here, others))
  where
    first :
        (a b : Bool)
        → (if a || b then err (inside_reserved path r) else check_reserved path rs) ≡ ok c
        → ((a ≡ false) × (b ≡ false)) × (check_reserved path rs ≡ ok c)
    first true b e = cc
    first false true e = cc
    first false false e = ((refl, refl), e)

outside-check_reserved :
    (path : Text) (rs : List Text) → All (IsOutside path) rs → check_reserved path rs ≡ ok path
unfolding check_reserved
outside-check_reserved path [] h = refl
outside-check_reserved path (r ∷ rs) h = rw (h.0.0, h.0.1, outside-check_reserved path rs h.1)

no_dots : (parts : List Text) → any is_dots parts ≡ false → All (λ p. is_dots p ≡ false) parts
no_dots [] h = tt
no_dots (p ∷ ps) h = (ground arith, no_dots ps (ground arith))

any_dots : (parts : List Text) → All (λ p. is_dots p ≡ false) parts → any is_dots parts ≡ false
any_dots [] h = refl
any_dots (p ∷ ps) h = rw (h.0, any_dots ps h.1)

segments_of :
    (parts : List Text)
    → All (λ p. nonempty p ≡ true) parts
    → All (Free is_slash) parts
    → All (All (λ c. is_path_char c ≡ true)) parts
    → All (λ p. is_dots p ≡ false) parts
    → All IsSegment parts
segments_of [] a b c d = tt
segments_of (p ∷ ps) a b c d = ((a.0, b.0, c.0, d.0), segments_of ps a.1 b.1 c.1 d.1)

check_parts-IsCanonical :
    (parts : List Text) (c : Text)
    → All (λ p. nonempty p ≡ true) parts
    → All (Free is_slash) parts
    → All (All (λ d. is_path_char d ≡ true)) parts
    → check_parts parts ≡ ok c
    → IsCanonical c
unfolding check_parts
check_parts-IsCanonical parts c full free chars h =
    let (plain, h1) = guard_then (not (any is_dots parts)) dot_segment _ h in
    let (some_part, h2) = guard_then (not (is_empty parts)) whole_filesystem _ h1 in
    let (same, outside) = check_reserved-IsOutside (b'/' ∷ join b'/' parts) reserved_paths c h2 in
    record {
      segments = parts;
      some_segment = ground arith;
      joined = sym same;
      allowed = segments_of parts full free chars (no_dots parts (ground arith));
      outside = subst (λ p. All (IsOutside p) reserved_paths) same outside;
    }

-- An accepted mount path is canonical: a slash, then at least one segment, joined by single
-- slashes; every segment is of the allowed characters, not empty and neither `.` nor `..`; the path
-- is no reserved directory of the system and lies inside none.
pub normalise_mount_path-IsCanonical :
    (path c : Text) → normalise_mount_path path ≡ ok c → IsCanonical c
unfolding normalise_mount_path path_parts
normalise_mount_path-IsCanonical path c h =
    let (absolute, h1) = guard_then (starts_with (strip path) (codes "/")) relative _ h in
    let (chars, h2) = guard_then (all is_path_char (strip path)) bad_character _ h1 in
    let parts : List Text = split_by is_slash (strip path) in
    check_parts-IsCanonical (filter nonempty parts) c (filter-nonempty parts)
      (filter-nonempty-All (Free is_slash) parts (split_by-Free is_slash (strip path)))
      (filter-nonempty-All (All (λ d. is_path_char d ≡ true)) parts (
        split_by-All is_slash (λ d. is_path_char d ≡ true) (strip path)
          (all→All is_path_char (strip path) chars)))
      h2

path_char-not_space : (c : ℕ) → is_path_char c ≡ true → is_space c ≡ false
unfolding is_path_char is_space is_lower is_upper is_digit
path_char-not_space c h = ground arith

-- A canonical path is made of its segments.
module _ (w : Text) (ws : List Text) (allowed : All IsSegment (w ∷ ws)) where
  full : All (λ p. nonempty p ≡ true) (w ∷ ws)
  full = All-map_of IsSegment (λ p. nonempty p ≡ true) (w ∷ ws) (λ p h. h.0) allowed

  free : All (Free is_slash) (w ∷ ws)
  free = All-map_of IsSegment (Free is_slash) (w ∷ ws) (λ p h. h.1) allowed

  chars : All (All (λ c. is_path_char c ≡ true)) (w ∷ ws)
  chars = All-map_of IsSegment (All (λ c. is_path_char c ≡ true)) (w ∷ ws) (λ p h. h.2) allowed

  unspaced : All (Free is_space) (w ∷ ws)
  unspaced =
      All-map_of (All (λ c. is_path_char c ≡ true)) (Free is_space) (w ∷ ws)
        (λ p h.
          All-map_of (λ c. is_path_char c ≡ true) (λ c. is_space c ≡ false) p path_char-not_space h)
        chars

  dotless : any is_dots (w ∷ ws) ≡ false
  dotless =
      any_dots (w ∷ ws)
        (All-map_of IsSegment (λ p. is_dots p ≡ false) (w ∷ ws) (λ p h. h.3) allowed)

  slash_char : is_path_char b'/' ≡ true
  unfolding is_path_char is_lower is_upper is_digit
  slash_char = refl

  slash_space : is_space b'/' ≡ false
  unfolding is_space
  slash_space = refl

  all_chars : all is_path_char (b'/' ∷ join b'/' (w ∷ ws)) ≡ true
  all_chars =
      All→all is_path_char (b'/' ∷ join b'/' (w ∷ ws))
        (slash_char, join-All (λ c. is_path_char c ≡ true) b'/' (w ∷ ws) slash_char chars)

  unstripped : strip (b'/' ∷ join b'/' (w ∷ ws)) ≡ b'/' ∷ join b'/' (w ∷ ws)
  unfolding strip
  unstripped = strip_by_id is_space (b'/' ∷ join b'/' (w ∷ ws)) slash_space (
      ClosesOutside-append is_space (b'/' ∷ []) (join b'/' (w ∷ ws))
        (join-nonempty b'/' w ws full.0) (join-ClosesOutside is_space b'/' (w ∷ ws) full unspaced))

  resplit : path_parts (b'/' ∷ join b'/' (w ∷ ws)) ≡ w ∷ ws
  unfolding path_parts
  resplit =
      ap (filter nonempty) (split_by-join is_slash b'/' w ws refl free)
      ∙ filter-nonempty_id (w ∷ ws) full

  pub normalise-join :
      All (IsOutside (b'/' ∷ join b'/' (w ∷ ws))) reserved_paths
      → normalise_mount_path (b'/' ∷ join b'/' (w ∷ ws)) ≡ ok (b'/' ∷ join b'/' (w ∷ ws))
  unfolding normalise_mount_path check_parts starts_with
  normalise-join outside = rw (
    unstripped,
    all_chars,
    resplit,
    dotless,
    outside-check_reserved (b'/' ∷ join b'/' (w ∷ ws)) reserved_paths outside,
  )

canonical-normalise : (c : Text) → IsCanonical c → normalise_mount_path c ≡ ok c
canonical-normalise c h = go h.segments h.some_segment h.joined h.allowed h.outside
  where
    go :
        (ps : List Text)
        → is_empty ps ≡ false
        → c ≡ b'/' ∷ join b'/' ps
        → All IsSegment ps
        → All (IsOutside c) reserved_paths
        → normalise_mount_path c ≡ ok c
    go [] e j a o = cc
    go (w ∷ ws) e j a o =
        subst (λ p. normalise_mount_path p ≡ ok p) (sym j)
          (normalise-join w ws a (subst (λ p. All (IsOutside p) reserved_paths) j o))

-- The stored form of a mount path is a fixed point: checking it again accepts it and gives the same
-- path.
pub normalise_mount_path_idem :
    (path c : Text) → normalise_mount_path path ≡ ok c → normalise_mount_path c ≡ ok c
normalise_mount_path_idem path c h =
    canonical-normalise c (normalise_mount_path-IsCanonical path c h)
