-- ===== src/Retention/Sorting.antt =====
-- The newest deployments come first, and none is lost.
use native.Mathlib.Nat.{le_trans}
use deploygenus.Models.{Deployment}
use deploygenus.Retention.{insert_newest, newest_first}
use deploygenus.Base.{
  leb, if◌then◌else◌, leb→le, Bool-cases, take, All, All-map_of, In, All-In, ℕ, zero, suc, ◌+◌, ◌≤◌,
  ◌<◌, ◌≡◌, refl, ap, ◌∙◌, ◌⊎◌, inl, inr, List, [], ◌∷◌, arith,
}

-- How many of the deployments have at least this number.
unfoldable pub count_from : ℕ → List Deployment → ℕ
count_from n [] = 0
count_from n (d ∷ ds) = (if leb n d.number then 1 else 0) + count_from n ds

In-insert_newest :
    (a d : Deployment) (ds : List Deployment) → (a ≡ d) ⊎ In a ds → In a (insert_newest d ds)
unfolding insert_newest
In-insert_newest a d [] h = h
In-insert_newest a d (e ∷ es) h = elim (Bool-cases (leb e.number d.number)) [
  | inl le ↦ rw le h
  | inr gt ↦ rw gt (later (λ p. In-insert_newest a d es p) h)
]
  where
    later :
        ((a ≡ d) ⊎ In a es → In a (insert_newest d es))
        → (a ≡ d) ⊎ In a (e ∷ es)
        → In a (e ∷ insert_newest d es)
    later f (inl p) = inr (f (inl p))
    later f (inr (inl p)) = inl p
    later f (inr (inr m)) = inr (f (inr m))

pub In-newest_first : (a : Deployment) (ds : List Deployment) → In a ds → In a (newest_first ds)
unfolding newest_first
In-newest_first a [] h = h
In-newest_first a (d ∷ ds) (inl e) = In-insert_newest a d (newest_first ds) (inl e)
In-newest_first a (d ∷ ds) (inr h) =
    In-insert_newest a d (newest_first ds) (inr (In-newest_first a ds h))

insert_newest-In :
    (a d : Deployment) (ds : List Deployment) → In a (insert_newest d ds) → (a ≡ d) ⊎ In a ds
unfolding insert_newest
insert_newest-In a d [] = λ h. h
insert_newest-In a d (e ∷ es) = elim (Bool-cases (leb e.number d.number)) [
  | inl le ↦ rw le (λ h. h)
  | inr gt ↦ rw gt (elim [
    | inl p ↦ inr (inl p)
    | inr m ↦ elim (insert_newest-In a d es m) [ inl p ↦ inl p | inr k ↦ inr (inr k) ]
  ])
]

pub newest_first-In : (a : Deployment) (ds : List Deployment) → In a (newest_first ds) → In a ds
unfolding newest_first
newest_first-In a [] h = h
newest_first-In a (d ∷ ds) h = elim (insert_newest-In a d (newest_first ds) h) [
  | inl e ↦ inl e
  | inr m ↦ inr (newest_first-In a ds m)
]

count_from-insert_newest :
    (n : ℕ) (d : Deployment) (ds : List Deployment)
    → count_from n (insert_newest d ds) ≡ count_from n (d ∷ ds)
unfolding count_from insert_newest
count_from-insert_newest n d [] = refl
count_from-insert_newest n d (e ∷ es) = elim (Bool-cases (leb e.number d.number)) [
  | inl le ↦ rw le
  | inr gt ↦ rw gt (omega (arith, count_from-insert_newest n d es))
]

pub count_from-newest_first :
    (n : ℕ) (ds : List Deployment) → count_from n (newest_first ds) ≡ count_from n ds
unfolding newest_first count_from
count_from-newest_first n [] = refl
count_from-newest_first n (d ∷ ds) =
    count_from-insert_newest n d (newest_first ds)
    ∙ ap (λ k. (if leb n d.number then 1 else 0) + k) (count_from-newest_first n ds)

-- Every later deployment has a number that is no greater.
abbrev pub Descends : List Deployment → Type 0
Descends [] = Unit
Descends (d ∷ ds) = All (λ e. e.number ≤ d.number) ds × Descends ds

insert_newest-All :
    (n : ℕ) (d : Deployment) (ds : List Deployment)
    → d.number ≤ n
    → All (λ e. e.number ≤ n) ds
    → All (λ e. e.number ≤ n) (insert_newest d ds)
unfolding insert_newest
insert_newest-All n d [] h a = (h, tt)
insert_newest-All n d (e ∷ es) h a = elim (Bool-cases (leb e.number d.number)) [
  | inl le ↦ rw le (h, a)
  | inr gt ↦ rw gt (a.0, insert_newest-All n d es h a.1)
]

insert_newest-Descends :
    (d : Deployment) (ds : List Deployment) → Descends ds → Descends (insert_newest d ds)
unfolding insert_newest
insert_newest-Descends d [] h = (tt, tt)
insert_newest-Descends d (e ∷ es) h = elim (Bool-cases (leb e.number d.number)) [
  | inl le ↦
      let below : e.number ≤ d.number = leb→le _ _ le in
      rw le (
        (
          below,
          All-map_of (λ (x : Deployment). x.number ≤ e.number)
              (λ (x : Deployment). x.number ≤ d.number) es (λ x k. le_trans k below) h.0,
        ),
        h,
      )
  | inr gt ↦
      rw gt (insert_newest-All e.number d es (ground arith) h.0, insert_newest-Descends d es h.1)
]

pub newest_first-Descends : (ds : List Deployment) → Descends (newest_first ds)
unfolding newest_first
newest_first-Descends [] = tt
newest_first-Descends (d ∷ ds) =
    insert_newest-Descends d (newest_first ds) (newest_first-Descends ds)

pub In-number :
    (a : Deployment) (ds : List Deployment) (n : ℕ)
    → All (λ e. e.number ≤ n) ds
    → In a ds
    → a.number ≤ n
In-number a ds n h m = All-In (λ (e : Deployment). e.number ≤ n) ds h a m

pub count_from-pos : (a : Deployment) (ds : List Deployment) → In a ds → 0 < count_from a.number ds
unfolding count_from
count_from-pos a [] h = elim h [ ]
count_from-pos a (d ∷ ds) (inl e) =
    let same : a.number ≡ d.number = ap (λ (x : Deployment). x.number) e in ground arith
count_from-pos a (d ∷ ds) (inr m) = omega (arith, count_from-pos a ds m)

In-take_descending :
    (a : Deployment) (ds : List Deployment) (keep : ℕ)
    → Descends ds
    → In a ds
    → count_from a.number ds ≤ keep
    → In a (take keep ds)
unfolding count_from
In-take_descending a [] keep s h c = elim h [ ]
In-take_descending a (d ∷ ds) zero s h c = absurd (omega (arith, pos))
  where
    pos : 0 < (if leb a.number d.number then 1 else 0) + count_from a.number ds
    pos = count_from-pos a (d ∷ ds) h
In-take_descending a (d ∷ ds) (suc keep) s (inl e) c = inl e
In-take_descending a (d ∷ ds) (suc keep) s (inr m) c =
    let below : a.number ≤ d.number = In-number a ds d.number s.0 m in
    inr (In-take_descending a ds keep s.1 m (ground arith))

-- A deployment that at most `keep` of the list reach in number, itself counted, is among the first
-- `keep` of the sorted list.
pub In-take-newest_first :
    (a : Deployment) (ds : List Deployment) (keep : ℕ)
    → In a ds
    → count_from a.number ds ≤ keep
    → In a (take keep (newest_first ds))
In-take-newest_first a ds keep h c =
    In-take_descending a (newest_first ds) keep (newest_first-Descends ds) (In-newest_first a ds h)
      (rw (count_from-newest_first a.number ds) c)
