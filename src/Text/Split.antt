-- ===== src/Text/Split.antt =====
-- `str.split`, `str.join` and `str.partition`.
use deploygenus.Text.Chars.{Text, is_space}
use deploygenus.Base.{
  ◌==◌, if◌then◌else◌, Bool-cases, All, filter, is_empty, ℕ, ◌≡◌, refl, ap, ◌∙◌, inl, inr, Bool,
  true, false, not, List, [], ◌∷◌, ◌++◌, arith,
}

abbrev pub cons_head : ℕ → List Text → List Text
cons_head c [] = (c ∷ []) ∷ []
cons_head c (w ∷ ws) = (c ∷ w) ∷ ws

abbrev pub Free : (ℕ → Bool) → Text → Type 0
Free p s = All (λ c. p c ≡ false) s

abbrev pub nonempty : Text → Bool
nonempty s = not (is_empty s)

module _ (p : ℕ → Bool) where
  -- `s.split(sep)`, for a class of separators
  unfoldable pub split_by : Text → List Text
  split_by [] = [] ∷ []
  split_by (c ∷ s) = let rest = split_by s in if p c then [] ∷ rest else cons_head c rest

  pub split_by_one : (w : Text) → Free p w → split_by w ≡ w ∷ []
  unfolding split_by
  split_by_one [] h = refl
  split_by_one (c ∷ w) h = rw (h.0, split_by_one w h.1)

  pub split_by_more :
      (w : Text) (c : ℕ) (s : Text) → Free p w → p c ≡ true → split_by (w ++ c ∷ s) ≡ w ∷ split_by s
  unfolding split_by
  split_by_more [] c s h e = rw e
  split_by_more (d ∷ w) c s h e = rw (h.0, split_by_more w c s h.1 e)

  cons_head-Free :
      (c : ℕ) (ws : List Text) → p c ≡ false → All (Free p) ws → All (Free p) (cons_head c ws)
  cons_head-Free c [] e h = ((e, tt), tt)
  cons_head-Free c (w ∷ ws) e h = ((e, h.0), h.1)

  pub split_by-Free : (s : Text) → All (Free p) (split_by s)
  unfolding split_by
  split_by-Free [] = (tt, tt)
  split_by-Free (c ∷ s) = elim (Bool-cases (p c)) [
    | inl e ↦ rw e (tt, split_by-Free s)
    | inr e ↦ rw e (cons_head-Free c (split_by s) e (split_by-Free s))
  ]

  cons_head-All {ℓ} :
      (P : ℕ → Type ℓ) (c : ℕ) (ws : List Text)
      → P c
      → All (All P) ws
      → All (All P) (cons_head c ws)
  cons_head-All P c [] e h = ((e, tt), tt)
  cons_head-All P c (w ∷ ws) e h = ((e, h.0), h.1)

  pub split_by-All {ℓ} : (P : ℕ → Type ℓ) (s : Text) → All P s → All (All P) (split_by s)
  unfolding split_by
  split_by-All P [] h = (tt, tt)
  split_by-All P (c ∷ s) h = elim (Bool-cases (p c)) [
    | inl e ↦ rw e (tt, split_by-All P s h.1)
    | inr e ↦ rw e (cons_head-All P c (split_by s) h.0 (split_by-All P s h.1))
  ]

module _ (p : ℕ → Bool) where
  cons_head-append :
      (c : ℕ) (ws us : List Text)
      → is_empty ws ≡ false
      → cons_head c (ws ++ us) ≡ cons_head c ws ++ us
  cons_head-append c [] us h = cc
  cons_head-append c (w ∷ ws) us h = refl

  cons_head-nonempty : (c : ℕ) (ws : List Text) → is_empty (cons_head c ws) ≡ false
  cons_head-nonempty c [] = refl
  cons_head-nonempty c (w ∷ ws) = refl

  split_by-nonempty : (s : Text) → is_empty (split_by p s) ≡ false
  unfolding split_by
  split_by-nonempty [] = refl
  split_by-nonempty (c ∷ s) = elim (Bool-cases (p c)) [
    | inl e ↦ rw e
    | inr e ↦ rw e (cons_head-nonempty c (split_by p s))
  ]

  -- A text around a separator is split on each side.
  pub split_by-append :
      (s : Text) (c : ℕ) (t : Text)
      → p c ≡ true
      → split_by p (s ++ c ∷ t) ≡ split_by p s ++ split_by p t
  unfolding split_by
  split_by-append [] c t e = rw e
  split_by-append (d ∷ s) c t e = elim (Bool-cases (p d)) [
    | inl q ↦ rw (q, split_by-append s c t e)
    | inr q ↦
        rw (q, split_by-append s c t e)
          (cons_head-append d (split_by p s) (split_by p t) (split_by-nonempty s))
  ]

-- `sep.join(parts)` for a separator of one character
unfoldable pub join : ℕ → List Text → Text
join c [] = []
join c (w ∷ []) = w
join c (w ∷ v ∷ ws) = w ++ (c ∷ join c (v ∷ ws))

-- Splitting what was joined gives the parts back.
pub split_by-join :
    (p : ℕ → Bool) (c : ℕ) (w : Text) (ws : List Text)
    → p c ≡ true
    → All (Free p) (w ∷ ws)
    → split_by p (join c (w ∷ ws)) ≡ w ∷ ws
unfolding join
split_by-join p c w [] e h = split_by_one p w h.0
split_by-join p c w (v ∷ ws) e h =
    split_by_more p w c (join c (v ∷ ws)) h.0 e
    ∙ ap (λ (l : List Text). w ∷ l) (split_by-join p c v ws e h.1)

-- `s.split(c)`
unfoldable pub split_on : ℕ → Text → List Text
unfolding split_by
split_on c = split_by (λ d. d == c)

-- `s.split()`: at runs of white space, with no empty part
unfoldable pub words : Text → List Text
unfolding split_by is_space filter
words s = filter nonempty (split_by is_space s)

pub filter-nonempty_id :
    (ws : List Text) → All (λ w. nonempty w ≡ true) ws → filter nonempty ws ≡ ws
unfolding filter
filter-nonempty_id [] h = refl
filter-nonempty_id (w ∷ ws) h = rw (h.0, filter-nonempty_id ws h.1)

pub filter-nonempty-All {ℓ} :
    (P : Text → Type ℓ) (ws : List Text) → All P ws → All P (filter nonempty ws)
unfolding filter
filter-nonempty-All P [] h = tt
filter-nonempty-All P ([] ∷ ws) h = filter-nonempty-All P ws h.1
filter-nonempty-All P ((c ∷ w) ∷ ws) h = (h.0, filter-nonempty-All P ws h.1)

pub filter-nonempty : (ws : List Text) → All (λ w. nonempty w ≡ true) (filter nonempty ws)
unfolding filter
filter-nonempty [] = tt
filter-nonempty ([] ∷ ws) = filter-nonempty ws
filter-nonempty ((c ∷ w) ∷ ws) = (refl, filter-nonempty ws)

-- `s.partition(c)`: what stands before the first `c`, whether it is there, and what follows
unfoldable pub partition : ℕ → Text → Text × Bool × Text
partition c [] = ([], false, [])
partition c (d ∷ s) =
    let (before, found, after) = partition c s in
    if d == c then ([], true, s) else (d ∷ before, found, after)

pub partition_at :
    (c : ℕ) (w s : Text) → Free (λ d. d == c) w → partition c (w ++ c ∷ s) ≡ (w, true, s)
unfolding partition
partition_at c [] s h = ground arith
partition_at c (d ∷ w) s h = rw (h.0, partition_at c w s h.1)
