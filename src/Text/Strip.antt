-- ===== src/Text/Strip.antt =====
-- `str.strip` and its relatives, for any class of characters to strip.
use deploygenus.Text.Chars.{Text, is_space}
use deploygenus.Base.{
  if◌then◌else◌, Bool-cases, All, is_empty, ℕ, ◌≡◌, refl, inl, inr, Bool, false, ◌&&◌, [], ◌∷◌,
  arith,
}

module _ (p : ℕ → Bool) where
  unfoldable pub lstrip_by : Text → Text
  lstrip_by [] = []
  lstrip_by (c ∷ s) = if p c then lstrip_by s else c ∷ s

  unfoldable pub rstrip_by : Text → Text
  rstrip_by [] = []
  rstrip_by (c ∷ s) = let r = rstrip_by s in if p c && is_empty r then [] else c ∷ r

  unfoldable pub strip_by : Text → Text
  unfolding lstrip_by rstrip_by
  strip_by s = rstrip_by (lstrip_by s)

  -- Neither end is a character to strip.
  abbrev pub OpensOutside : Text → Type 0
  OpensOutside [] = Unit
  OpensOutside (c ∷ s) = p c ≡ false

  abbrev pub ClosesOutside : Text → Type 0
  ClosesOutside [] = Unit
  ClosesOutside (c ∷ []) = p c ≡ false
  ClosesOutside (c ∷ d ∷ s) = ClosesOutside (d ∷ s)

module _ (p : ℕ → Bool) where
  lstrip_by-OpensOutside : (s : Text) → OpensOutside p (lstrip_by p s)
  unfolding lstrip_by
  lstrip_by-OpensOutside [] = tt
  lstrip_by-OpensOutside (c ∷ s) = elim (Bool-cases (p c)) [
    | inl e ↦ rw e (lstrip_by-OpensOutside s)
    | inr e ↦ rw e e
  ]

  close :
      (c : ℕ) (r : Text) → (p c && is_empty r) ≡ false → ClosesOutside p r → ClosesOutside p (c ∷ r)
  close c [] e h = ground arith
  close c (d ∷ r) e h = h

  rstrip_by-ClosesOutside : (s : Text) → ClosesOutside p (rstrip_by p s)
  unfolding rstrip_by
  rstrip_by-ClosesOutside [] = tt
  rstrip_by-ClosesOutside (c ∷ s) = elim (Bool-cases (p c && is_empty (rstrip_by p s))) [
    | inl e ↦ rw e tt
    | inr e ↦ rw e (close c (rstrip_by p s) e (rstrip_by-ClosesOutside s))
  ]

  rstrip_by-OpensOutside : (s : Text) → OpensOutside p s → OpensOutside p (rstrip_by p s)
  unfolding rstrip_by
  rstrip_by-OpensOutside [] h = tt
  rstrip_by-OpensOutside (c ∷ s) h = rw h h

  pub strip_by-OpensOutside : (s : Text) → OpensOutside p (strip_by p s)
  unfolding strip_by
  strip_by-OpensOutside s = rstrip_by-OpensOutside (lstrip_by p s) (lstrip_by-OpensOutside s)

  pub strip_by-ClosesOutside : (s : Text) → ClosesOutside p (strip_by p s)
  unfolding strip_by
  strip_by-ClosesOutside s = rstrip_by-ClosesOutside (lstrip_by p s)

  pub lstrip_by-head : (c : ℕ) (s : Text) → p c ≡ false → lstrip_by p (c ∷ s) ≡ c ∷ s
  unfolding lstrip_by
  lstrip_by-head c s h = rw h

  pub lstrip_by-All {ℓ} : (P : ℕ → Type ℓ) (s : Text) → All P s → All P (lstrip_by p s)
  unfolding lstrip_by
  lstrip_by-All P [] h = tt
  lstrip_by-All P (c ∷ s) h = elim (Bool-cases (p c)) [
    | inl e ↦ rw e (lstrip_by-All P s h.1)
    | inr e ↦ rw e h
  ]

  lstrip_by_id : (s : Text) → OpensOutside p s → lstrip_by p s ≡ s
  unfolding lstrip_by
  lstrip_by_id [] h = refl
  lstrip_by_id (c ∷ s) h = rw h

  rstrip_by_id : (s : Text) → ClosesOutside p s → rstrip_by p s ≡ s
  unfolding rstrip_by
  rstrip_by_id [] h = refl
  rstrip_by_id (c ∷ []) h = rw h
  rstrip_by_id (c ∷ d ∷ s) h = rw (rstrip_by_id (d ∷ s) h) (ground arith)

  -- A text with nothing to strip is left as it is.
  pub strip_by_id : (s : Text) → OpensOutside p s → ClosesOutside p s → strip_by p s ≡ s
  unfolding strip_by
  strip_by_id s o k = rw (lstrip_by_id s o) (rstrip_by_id s k)

  -- What holds of every character survives the strip.
  pub strip_by-All {ℓ} : (P : ℕ → Type ℓ) (s : Text) → All P s → All P (strip_by p s)
  unfolding strip_by
  strip_by-All P s h = right (lstrip_by p s) (left s h)
    where
      left : (t : Text) → All P t → All P (lstrip_by p t)
      left [] k = tt
      left (c ∷ t) k = elim (Bool-cases (p c)) [ inl e ↦ rw e (left t k.1) | inr e ↦ rw e k ]

      right : (t : Text) → All P t → All P (rstrip_by p t)
      right [] k = tt
      right (c ∷ t) k = elim (Bool-cases (p c && is_empty (rstrip_by p t))) [
        | inl e ↦ rw e tt
        | inr e ↦ rw e (k.0, right t k.1)
      ]

-- `s.strip()`
unfoldable pub strip : Text → Text
unfolding strip_by is_space
strip = strip_by is_space
