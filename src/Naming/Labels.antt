-- ===== src/Naming/Labels.antt =====
-- Slugs and deployment ids are DNS labels.
use native.Mathlib.Nat.{le_trans}
use deploygenus.Naming.{
  max_label, suffix_length, is_plain, is_hyphen, hyphenate, slugify, deployment_short_id,
}
use deploygenus.Text.{
  Text, codes, is_digit, is_lower, lower, lstrip_by, rstrip_by, strip_by, OpensOutside,
  ClosesOutside, strip_by-OpensOutside, strip_by-ClosesOutside, strip_by-All, nonempty,
  ClosesOutside-append, Free-ClosesOutside,
}
use deploygenus.Base.{
  if◌then◌else◌, Bool-cases, length, take, All, length-append, length-take, All-append, All-take,
  All-map_of, is_empty, ℕ, ◌≤◌, ◌≡◌, refl, subst, ◌⊎◌, inl, inr, Bool, true, false, ◌||◌, [], ◌∷◌,
  ◌++◌, arith,
}

abbrev IsLabelChar : ℕ → Type 0
IsLabelChar c = (is_plain c || is_hyphen c) ≡ true

-- A DNS label but for its length: not empty, of `[a-z0-9-]`, with no hyphen at either end.
pub record IsLabel (s : Text) : Type 0 where
  pub full : is_empty s ≡ false
  pub chars : All IsLabelChar s
  pub opens : OpensOutside is_hyphen s
  pub closes : ClosesOutside is_hyphen s

-- What `secrets.token_hex` draws: hexadecimal digits, in lower case, at least one.
pub record IsToken (s : Text) : Type 0 where
  pub full : is_empty s ≡ false
  pub chars : All (λ c. is_plain c ≡ true) s

plain-not_hyphen : (c : ℕ) → is_plain c ≡ true → is_hyphen c ≡ false
unfolding is_plain
plain-not_hyphen c h = ground arith

plain-label : (c : ℕ) → is_plain c ≡ true → IsLabelChar c
plain-label c h = rw h

hyphen_char : IsLabelChar b'-'
unfolding is_plain is_lower is_digit
hyphen_char = refl

hyphenate-All : (in_run : Bool) (s : Text) → All IsLabelChar (hyphenate in_run s)
unfolding hyphenate
hyphenate-All in_run [] = tt
hyphenate-All in_run (c ∷ s) = elim (Bool-cases (is_plain c)) [
  | inl e ↦ rw e (plain-label c e, hyphenate-All false s)
  | inr e ↦ rw e (others in_run (hyphenate-All true s))
]
  where
    others :
        (r : Bool)
        → All IsLabelChar (hyphenate true s)
        → All IsLabelChar (if r then hyphenate true s else b'-' ∷ hyphenate true s)
    others true h = h
    others false h = (hyphen_char, h)

strip_by-length : (p : ℕ → Bool) (s : Text) → length (strip_by p s) ≤ length s
unfolding strip_by
strip_by-length p s = le_trans (right (lstrip_by p s)) (left s)
  where
    left : (t : Text) → length (lstrip_by p t) ≤ length t
    left [] = omega arith
    left (c ∷ t) = ground (arith, left t)

    right : (t : Text) → length (rstrip_by p t) ≤ length t
    right [] = omega arith
    right (c ∷ t) = ground (arith, right t)

IsToken-ClosesOutside : (s : Text) → IsToken s → ClosesOutside is_hyphen s
IsToken-ClosesOutside s h =
    Free-ClosesOutside is_hyphen s
      (All-map_of (λ c. is_plain c ≡ true) (λ c. is_hyphen c ≡ false) s plain-not_hyphen h.chars)

IsToken-nonempty : (s : Text) → IsToken s → nonempty s ≡ true
IsToken-nonempty s h = rw h.full

IsToken-label : (s : Text) → IsToken s → All IsLabelChar s
IsToken-label s h = All-map_of (λ c. is_plain c ≡ true) IsLabelChar s plain-label h.chars

app_token-IsLabel : (token : Text) → IsToken token → IsLabel (codes "app-" ++ token)
unfolding is_plain is_lower is_digit
app_token-IsLabel token h = record {
  full = refl;
  chars =
      All-append IsLabelChar (codes "app-") token (refl, (refl, (refl, (refl, tt))))
        (IsToken-label token h);
  opens = refl;
  closes =
      ClosesOutside-append is_hyphen (codes "app-") token (IsToken-nonempty token h)
        (IsToken-ClosesOutside token h);
}

strip_take-IsLabel :
    (limit : ℕ) (s : Text)
    → All IsLabelChar s
    → is_empty (strip_by is_hyphen (take limit s)) ≡ false
    → IsLabel (strip_by is_hyphen (take limit s))
strip_take-IsLabel limit s h full = record {
  full = full;
  chars = strip_by-All is_hyphen IsLabelChar (take limit s) (All-take IsLabelChar limit s h);
  opens = strip_by-OpensOutside is_hyphen (take limit s);
  closes = strip_by-ClosesOutside is_hyphen (take limit s);
}

-- Whatever the text and however it folds, the slug is a DNS label: not empty, only a-z, 0-9 and
-- hyphens, no hyphen at either end, if the drawn token is of a-z and 0-9 and not empty. It is at
-- most `limit` characters long, or it is the fallback `app-` with the token.
pub slugify-IsLabel :
    (fold : Text → Text) (value : Text) (limit : ℕ) (token : Text)
    → IsToken token
    → IsLabel (slugify fold value limit token)
      × ((length (slugify fold value limit token) ≤ limit)
          ⊎ (slugify fold value limit token ≡ codes "app-" ++ token))
unfolding slugify
slugify-IsLabel fold value limit token h =
    elim (Bool-cases (is_empty (strip_by is_hyphen (take limit slug)))) [
      | inl e ↦ rw e (app_token-IsLabel token h, inr refl)
      | inr e ↦ rw e (
        strip_take-IsLabel limit slug
            (strip_by-All is_hyphen IsLabelChar _ (hyphenate-All false (lower (fold value)))) e,
        inl short,
      )
    ]
  where
    slug : Text
    slug = strip_by is_hyphen (hyphenate false (lower (fold value)))

    short : length (strip_by is_hyphen (take limit slug)) ≤ limit
    short = omega (arith, strip_by-length is_hyphen (take limit slug), length-take limit slug)

strip_by-head :
    (c : ℕ) (s : Text)
    → is_hyphen c ≡ false
    → strip_by is_hyphen (c ∷ s) ≡ c ∷ rstrip_by is_hyphen s
unfolding strip_by
strip_by-head c s h = rw h (rw h)

-- A label with a suffix drawn for it, one hyphen between them.
with_suffix-IsLabel :
    (c : ℕ) (s suffix : Text)
    → is_hyphen c ≡ false
    → All IsLabelChar (c ∷ s)
    → IsToken suffix
    → IsLabel (c ∷ s ++ (b'-' ∷ suffix))
with_suffix-IsLabel c s suffix opens chars t = record {
  full = refl;
  chars =
      All-append IsLabelChar (c ∷ s) (b'-' ∷ suffix) chars (hyphen_char, IsToken-label suffix t);
  opens = opens;
  closes = ClosesOutside-append is_hyphen (c ∷ s) (b'-' ∷ suffix) refl (
      ClosesOutside-append is_hyphen (b'-' ∷ []) suffix (IsToken-nonempty suffix t)
        (IsToken-ClosesOutside suffix t));
}

-- A deployment id is a DNS label of at most 63 characters, if the slug is a label and the suffix
-- is eight characters of a-z and 0-9.
pub deployment_short_id-IsLabel :
    (slug suffix : Text)
    → IsLabel slug
    → IsToken suffix
    → length suffix ≡ suffix_length
    → IsLabel (deployment_short_id slug suffix)
      × (length (deployment_short_id slug suffix) ≤ max_label)
unfolding deployment_short_id
deployment_short_id-IsLabel [] suffix l t n = cc l.full
deployment_short_id-IsLabel (c ∷ slug) suffix l t n =
    let stem : Text = strip_by is_hyphen (take 54 (c ∷ slug)) in
    let head : stem ≡ c ∷ rstrip_by is_hyphen (take 53 slug) =
      strip_by-head c (take 53 slug) l.opens in
    let chars : All IsLabelChar stem =
      strip_by-All is_hyphen IsLabelChar (take 54 (c ∷ slug))
        (All-take IsLabelChar 54 (c ∷ slug) l.chars) in
    (
      rw head (
          with_suffix-IsLabel c (rstrip_by is_hyphen (take 53 slug)) suffix l.opens
            (subst (All IsLabelChar) head chars) t),
      omega (
        arith,
        length-append stem (b'-' ∷ suffix),
        strip_by-length is_hyphen (take 54 (c ∷ slug)),
        length-take 54 (c ∷ slug),
      ),
    )
