-- ===== src/Dict/Laws.antt =====
-- What is found after an assignment or a removal.
use deploygenus.Dict.{lookup, removed, put}
use deploygenus.Text.{Text, text_eq, text_eq_iff, text_eq_sym}
use deploygenus.Base.{
  if◌then◌else◌, Bool-cases, ◌≡◌, refl, ◌∙◌, subst, inl, inr, false, none, some, List, [], ◌∷◌,
}

module _ {A : Type 0} where
  pub lookup-put :
      (key k : Text) (a : A) (d : List (Text × A))
      → lookup k (put key a d) ≡ (if text_eq key k then some a else lookup k d)
  unfolding lookup put
  lookup-put key k a [] = refl
  lookup-put key k a ((x, b) ∷ d) = elim (Bool-cases (text_eq x key)) [
    | inl e ↦
        let same : x ≡ key = (text_eq_iff x key).0 e in
        rw (e, same) (elim (Bool-cases (text_eq key k)) [ inl p ↦ rw p refl | inr p ↦ rw p refl ])
    | inr e ↦
        rw (e, lookup-put key k a d)
          (elim (Bool-cases (text_eq x k)) [
            | inl p ↦
                let at : x ≡ k = (text_eq_iff x k).0 p in
                let other : text_eq key k ≡ false =
                  text_eq_sym key k ∙ subst (λ y. text_eq y key ≡ false) at e in
                rw (p, other) refl
            | inr p ↦ rw p refl
          ])
  ]

  pub lookup-removed :
      (key k : Text) (d : List (Text × A))
      → lookup k (removed key d) ≡ (if text_eq key k then none else lookup k d)
  unfolding lookup removed
  lookup-removed key k [] = elim (Bool-cases (text_eq key k)) [
    | inl p ↦ rw p refl
    | inr p ↦ rw p refl
  ]
  lookup-removed key k ((x, b) ∷ d) = elim (Bool-cases (text_eq x key)) [
    | inl e ↦
        let same : x ≡ key = (text_eq_iff x key).0 e in
        rw (e, lookup-removed key k d, same)
          (elim (Bool-cases (text_eq key k)) [ inl p ↦ rw p refl | inr p ↦ rw p refl ])
    | inr e ↦
        rw (e, lookup-removed key k d)
          (elim (Bool-cases (text_eq x k)) [
            | inl p ↦
                let at : x ≡ k = (text_eq_iff x k).0 p in
                let other : text_eq key k ≡ false =
                  text_eq_sym key k ∙ subst (λ y. text_eq y key ≡ false) at e in
                rw (p, other) refl
            | inr p ↦ rw p refl
          ])
  ]
