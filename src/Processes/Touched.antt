-- ===== src/Processes/Touched.antt =====
-- What a loop over the names of a worker's replicas does to the containers.
use deploygenus.Models.{Deployment, Process}
use deploygenus.Naming
use deploygenus.Processes.Names.{IsReplica}
use deploygenus.Processes.{then_call, WorkerHost, replica_names, start_all, start_missing}
use deploygenus.Processes.Loops.{Laws, then_call-eq-ok, if-some}
use deploygenus.Text.{Text, text_eq, text_eq_iff, contains}
use deploygenus.Base.{
  ◌==◌, if◌then◌else◌, ==_iff, Bool-cases, length, length-append, ok-injective, Result, ok, err, ℕ,
  zero, suc, ◌≡◌, refl, sym, ap, ◌∙◌, subst, ◌↔◌, inl, inr, true, ◌||◌, Option, some, List, [], ◌∷◌,
  ◌++◌, arith,
}

-- The containers after a change that touches only some names, and their number.
abbrev pub Changes :
    {S : Type 0} → (S → Text → Option ℕ) → List Text → Option ℕ → S → S → ℕ → Type 0
Changes {S} runs names after s t n =
    ((m : Text) → runs t m ≡ (if contains names m then after else runs s m)) × (n ≡ length names)

module _ {S : Type 0} (host : WorkerHost S) (runs : S → Text → Option ℕ)
    (laws : Laws host runs) where
  start_all-runs :
      (d : ℕ) (p : Process) (names : List Text) (s t : S) (m : Text)
      → start_all host d p names s ≡ (ok tt, t)
      → runs t m ≡ (if contains names m then some d else runs s m)
  unfolding start_all contains
  start_all-runs d p [] s t m h = ap (λ (x : Result Text (Unit {0}) × S). runs x.1 m) (sym h)
  start_all-runs d p (name ∷ names) s t m h =
      let (u, done, rest) =
        then_call-eq-ok (host.start d name p s) (λ v. start_all host d p names) h in
      let mid = (host.start d name p s).1 in
      start_all-runs d p names mid t m rest ∙ elim (Bool-cases (text_eq name m)) [
        | inl e ↦
            let here : runs mid m ≡ some d =
              subst (λ k. runs mid k ≡ some d) ((text_eq_iff name m).0 e)
                (laws.started d name p s done) in
            rw e (if-some (contains names m) d (runs mid m) here)
        | inr e ↦ rw (e, laws.start_apart d name m p s e) refl
      ]

  nothing-Changes :
      (after : Option ℕ) (n : ℕ) (s t : S)
      → ◌≡◌ {A = Result Text ℕ × S} (ok 0, s) (ok n, t)
      → Changes runs [] after s t n
  unfolding contains
  nothing-Changes after n s t h = (
    λ m. ap (λ (x : Result Text ℕ × S). runs x.1 m) (sym h),
    sym (ok-injective (ap (λ (x : Result Text ℕ × S). x.0) h)),
  )

  -- A call that gives the number of the names, after one that changes them.
  pub counted-Changes :
      (names : List Text) (after : Option ℕ) (x : Result Text (Unit {0}) × S) (s t : S) (n : ℕ)
      → ((m : Text)
          → (u : S) → x ≡ (ok tt, u)
          → runs u m ≡ (if contains names m then after else runs s m))
      → then_call x (λ done u. (ok (length names), u)) ≡ (ok n, t)
      → Changes runs names after s t n
  counted-Changes names after (err e, u) s t n f h = cc
  counted-Changes names after (ok done, u) s t n f h = (
    λ m. ap (λ (x : Result Text ℕ × S). runs x.1 m) (sym h) ∙ f m u refl,
    sym (ok-injective (ap (λ (x : Result Text ℕ × S). x.0) h)),
  )

  pub start_missing-Changes :
      (d : Deployment) (p : Process) (prepared : Result Text (Unit {0})) (names : List Text)
      (s t : S) (n : ℕ)
      → start_missing host d p prepared names s ≡ (ok n, t)
      → Changes runs names (some d.id) s t n
  unfolding start_missing
  start_missing-Changes d p prepared [] s t n h = nothing-Changes (some d.id) n s t h
  start_missing-Changes d p (err raised) (name ∷ names) s t n h = cc
  start_missing-Changes d p (ok done) (name ∷ names) s t n h =
      counted-Changes (name ∷ names) (some d.id) (start_all host d.id p (name ∷ names) s) s t n
        (λ m u e. start_all-runs d.id p (name ∷ names) s u m e) h

contains-append :
    (m : Text) (xs ys : List Text) → contains (xs ++ ys) m ≡ (contains xs m || contains ys m)
unfolding contains
contains-append m [] ys = refl
contains-append m (x ∷ xs) ys = ground (arith, contains-append m xs ys)

pub contains-replica_names :
    (slug : Text) (p : Process) (k : ℕ) (m : Text)
    → (contains (replica_names slug p k) m ≡ true) ↔ IsReplica slug p k m
unfolding replica_names contains
contains-replica_names slug p zero m = (λ h. cc, λ (r, below, e). elim below [ ])
contains-replica_names slug p (suc k) m =
    let (to, from) = contains-replica_names slug p k m in
    let last = Naming.worker_container_name slug p.name k in
    let step = contains-append m (replica_names slug p k) (last ∷ []) in
    (
      λ h. elim (Bool-cases (text_eq last m)) [
        | inl e ↦ (k, omega arith, sym ((text_eq_iff last m).0 e))
        | inr e ↦ let (r, below, at) = to (ground (arith, step)) in (r, omega arith, at)
      ],
      λ (r, below, at). elim (Bool-cases (r == k)) [
        | inl same ↦
            let this : m ≡ last =
              subst (λ n. m ≡ Naming.worker_container_name slug p.name n) ((==_iff r k).0 same)
                at in
            let equal : text_eq last m ≡ true = (text_eq_iff last m).1 (sym this) in
            ground (arith, step)
        | inr other ↦ let kept = from (r, ground arith, at) in ground (arith, step)
      ],
    )

pub length-replica_names : (slug : Text) (p : Process) (k : ℕ) → length (replica_names slug p k) ≡ k
unfolding replica_names
length-replica_names slug p zero = refl
length-replica_names slug p (suc k) = omega (
  arith,
  length-append (replica_names slug p k) (Naming.worker_container_name slug p.name k ∷ []),
  length-replica_names slug p k,
)
