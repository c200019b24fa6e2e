-- ===== src/Text/Joined.antt =====
-- What holds of a text that was joined from words.
use deploygenus.Text.Chars.{Text}
use deploygenus.Text.Strip.{OpensOutside, ClosesOutside}
use deploygenus.Text.Split.{Free, nonempty, join}
use deploygenus.Base.{All, All-append, ℕ, ◌≡◌, refl, Bool, true, List, [], ◌∷◌, ◌++◌}

pub join-All {ℓ} :
    (P : ℕ → Type ℓ) (c : ℕ) (ws : List Text) → P c → All (All P) ws → All P (join c ws)
unfolding join
join-All P c [] pc h = tt
join-All P c (w ∷ []) pc h = h.0
join-All P c (w ∷ v ∷ ws) pc h =
    All-append P w (c ∷ join c (v ∷ ws)) h.0 (pc, join-All P c (v ∷ ws) pc h.1)

pub join-nonempty :
    (c : ℕ) (w : Text) (ws : List Text) → nonempty w ≡ true → nonempty (join c (w ∷ ws)) ≡ true
unfolding join
join-nonempty c w [] h = h
join-nonempty c [] (v ∷ ws) h = cc
join-nonempty c (d ∷ w) (v ∷ ws) h = refl

module _ (p : ℕ → Bool) where
  pub ClosesOutside-append :
      (s t : Text) → nonempty t ≡ true → ClosesOutside p t → ClosesOutside p (s ++ t)
  ClosesOutside-append [] t n h = h
  ClosesOutside-append (c ∷ []) [] n h = cc
  ClosesOutside-append (c ∷ []) (d ∷ t) n h = h
  ClosesOutside-append (c ∷ d ∷ s) t n h = ClosesOutside-append (d ∷ s) t n h

  pub Free-ClosesOutside : (w : Text) → Free p w → ClosesOutside p w
  Free-ClosesOutside [] h = tt
  Free-ClosesOutside (c ∷ []) h = h.0
  Free-ClosesOutside (c ∷ d ∷ w) h = Free-ClosesOutside (d ∷ w) h.1

  Free-OpensOutside : (w : Text) → Free p w → OpensOutside p w
  Free-OpensOutside [] h = tt
  Free-OpensOutside (c ∷ w) h = h.0

  pub join-ClosesOutside :
      (c : ℕ) (ws : List Text)
      → All (λ w. nonempty w ≡ true) ws
      → All (Free p) ws
      → ClosesOutside p (join c ws)
  unfolding join
  join-ClosesOutside c [] n h = tt
  join-ClosesOutside c (w ∷ []) n h = Free-ClosesOutside w h.0
  join-ClosesOutside c (w ∷ v ∷ ws) n h = ClosesOutside-append w (c ∷ join c (v ∷ ws)) refl (
      ClosesOutside-append (c ∷ []) (join c (v ∷ ws)) (join-nonempty c v ws n.1.0)
        (join-ClosesOutside c (v ∷ ws) n.1 h.1))

  pub join-OpensOutside :
      (c : ℕ) (w : Text) (ws : List Text)
      → nonempty w ≡ true
      → Free p w
      → OpensOutside p (join c (w ∷ ws))
  unfolding join
  join-OpensOutside c w [] n h = Free-OpensOutside w h
  join-OpensOutside c [] (v ∷ ws) n h = cc
  join-OpensOutside c (d ∷ w) (v ∷ ws) n h = h.0
