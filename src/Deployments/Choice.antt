-- ===== src/Deployments/Choice.antt =====
-- The order in which `claim_next` looks at the queue, and the row that it takes.
use deploygenus.Database.{Row}
use deploygenus.Models.{Project}
use deploygenus.Deployments.{production_build, claimable, earlier, precedes, choose, next_claim}
use deploygenus.Base.{
  Bool-cases, In, ℕ, ◌≡◌, refl, sym, ap, ◌∙◌, subst, inl, inr, Bool, true, false, Option, none,
  some, List, [], ◌∷◌, arith,
}

earlier_irrefl : (a : Bool) (s : ℕ) → earlier a s a s ≡ false
earlier_irrefl true s = ground arith
earlier_irrefl false s = ground arith

earlier_asymm : (a b : Bool) (s t : ℕ) → earlier a s b t ≡ true → earlier b t a s ≡ false
earlier_asymm a b s t h = ground arith

earlier_cotrans :
    (a b c : Bool) (s t u : ℕ)
    → earlier a s b t ≡ false
    → earlier b t c u ≡ false
    → earlier a s c u ≡ false
earlier_cotrans a b c s t u h k = ground arith

-- The statement's own choice: a row that it sees, before which no other comes.
pub record IsNext (projects : List Project) (locked : List ℕ) (rs : List Row) (r : Row)
    : Type 0 where
  pub listed : In r rs
  pub may : claimable projects locked r ≡ true
  pub first :
      (c : Row) → In c rs → claimable projects locked c ≡ true → precedes projects c r ≡ false

abbrev pub Chosen : List Project → List ℕ → List Row → Option Row → Type 0
Chosen projects locked rs (some r) = IsNext projects locked rs r
Chosen projects locked rs none = (c : Row) → In c rs → claimable projects locked c ≡ false

IsNext-cons :
    (projects : List Project) (locked : List ℕ) (rs : List Row) (r b : Row)
    → IsNext projects locked rs b
    → (claimable projects locked r ≡ true → precedes projects r b ≡ false)
    → IsNext projects locked (r ∷ rs) b
IsNext-cons projects locked rs r b h k = record {
  listed = inr h.listed;
  may = h.may;
  first = λ c m q. elim m [
    | inl e ↦
        subst (λ x. precedes projects x b ≡ false) (sym e)
          (k (ap (claimable projects locked) (sym e) ∙ q))
    | inr m' ↦ h.first c m' q
  ];
}

module _ (projects : List Project) (locked : List ℕ) (r : Row) where
  alone :
      (rs : List Row)
      → ((c : Row) → In c rs → claimable projects locked c ≡ true → precedes projects c r ≡ false)
      → claimable projects locked r ≡ true
      → IsNext projects locked (r ∷ rs) r
  unfolding precedes
  alone rs h e = record {
    listed = inl refl;
    may = e;
    first = λ c m q. elim m [
      | inl same ↦
          subst (λ x. precedes projects x r ≡ false) (sym same)
            (earlier_irrefl (production_build projects r) r.deployment.created_at)
      | inr m' ↦ h c m' q
    ];
  }

  choose-none :
      (rs : List Row)
      → ((c : Row) → In c rs → claimable projects locked c ≡ false)
      → Chosen projects locked (r ∷ rs) (choose projects locked r none)
  unfolding choose
  choose-none rs h = elim (Bool-cases (claimable projects locked r)) [
    | inl e ↦ rw e (alone rs (λ c m q. cc (h c m)) e)
    | inr e ↦
        rw e
          (λ c m. elim m [ inl same ↦ ap (claimable projects locked) same ∙ e | inr m' ↦ h c m' ])
  ]

  choose-some :
      (rs : List Row) (b : Row)
      → IsNext projects locked rs b
      → Chosen projects locked (r ∷ rs) (choose projects locked r (some b))
  unfolding choose precedes
  choose-some rs b h = elim (Bool-cases (claimable projects locked r)) [
    | inr e ↦ rw e (IsNext-cons projects locked rs r b h (λ q. cc))
    | inl e ↦ rw e (elim (Bool-cases (precedes projects b r)) [
      | inl before ↦ rw before (
          IsNext-cons projects locked rs r b h
            (λ _. earlier_asymm _ _ b.deployment.created_at r.deployment.created_at before))
      | inr after ↦ rw after (
          alone rs
            (λ c m q.
              earlier_cotrans _ _ _ c.deployment.created_at b.deployment.created_at
                r.deployment.created_at (h.first c m q) after)
            e)
    ])
  ]

  choose-Chosen :
      (rs : List Row) (o : Option Row)
      → Chosen projects locked rs o
      → Chosen projects locked (r ∷ rs) (choose projects locked r o)
  choose-Chosen rs none h = choose-none rs h
  choose-Chosen rs (some b) h = choose-some rs b h

pub next_claim-Chosen :
    (projects : List Project) (locked : List ℕ) (rs : List Row)
    → Chosen projects locked rs (next_claim projects locked rs)
unfolding next_claim
next_claim-Chosen projects locked [] = λ c m. elim m [ ]
next_claim-Chosen projects locked (r ∷ rs) =
    choose-Chosen projects locked r rs (next_claim projects locked rs)
      (next_claim-Chosen projects locked rs)
