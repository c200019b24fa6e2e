-- ===== src/Processes/Loops.antt =====
-- What the loops of `reconcile_workers` do to the containers, by what `drain` and `start` promise.
use deploygenus.Dict.{lookup}
use deploygenus.Models.{is_some, Process}
use deploygenus.Processes.{
  Call, then_call, WorkerHost, Wanted, is_wanted, drain_each, make_way, start_each,
}
use deploygenus.Text.{Text, text_eq, text_eq_iff, contains}
use deploygenus.Base.{
  if◌then◌else◌, Bool-cases, length, ok-injective, Result, ok, err, ℕ, ◌+◌, ◌≡◌, refl, sym, ap, ◌∙◌,
  subst, inl, inr, Bool, true, false, Option, none, some, List, [], ◌∷◌, arith,
}

-- The deployment whose image the worker container of a name runs, if it is there and not draining.
-- A drain takes the container's name away, and touches no other; a start puts a container of the
-- deployment under its name, and touches no other. What a call did before it raised is as little.
pub record Laws {S : Type 0} (host : WorkerHost S) (runs : S → Text → Option ℕ) : Type 0 where
  pub seen : (s : S) (name : Text) → contains (host.listed s) name ≡ is_some (runs s name)
  pub drained :
      (name : Text) (s : S) → (host.drain name s).0 ≡ ok tt → runs (host.drain name s).1 name ≡ none
  pub drain_apart :
      (name other : Text) (s : S)
      → text_eq name other ≡ false
      → runs (host.drain name s).1 other ≡ runs s other
  pub started :
      (d : ℕ) (name : Text) (p : Process) (s : S)
      → (host.start d name p s).0 ≡ ok tt
      → runs (host.start d name p s).1 name ≡ some d
  pub start_apart :
      (d : ℕ) (name other : Text) (p : Process) (s : S)
      → text_eq name other ≡ false
      → runs (host.start d name p s).1 other ≡ runs s other

-- Inversion of a call and what follows it.
pub then_call-eq-ok :
    {S A B : Type 0} (x : Result Text A × S) (f : A → Call S B) {b : B} {t : S}
    → then_call x f ≡ (ok b, t)
    → (a : A) × (x.0 ≡ ok a) × (f a x.1 ≡ (ok b, t))
then_call-eq-ok (ok a, s) f h = (a, refl, h)
then_call-eq-ok (err e, s) f h = cc

if-none : (b : Bool) (o : Option ℕ) → o ≡ none → (if b then none else o) ≡ none
if-none true o h = refl
if-none false o h = h

pub if-some : (b : Bool) (d : ℕ) (o : Option ℕ) → o ≡ some d → (if b then some d else o) ≡ some d
if-some true d o h = refl
if-some false d o h = h

module _ {S : Type 0} (host : WorkerHost S) (runs : S → Text → Option ℕ)
    (laws : Laws host runs) where
  pub drain_each-runs :
      (names : List Text) (s t : S) (m : Text)
      → drain_each host names s ≡ (ok tt, t)
      → runs t m ≡ (if contains names m then none else runs s m)
  unfolding drain_each contains
  drain_each-runs [] s t m h = ap (λ (x : Result Text (Unit {0}) × S). runs x.1 m) (sym h)
  drain_each-runs (name ∷ names) s t m h =
      let (u, done, rest) = then_call-eq-ok (host.drain name s) (λ d. drain_each host names) h in
      let mid = (host.drain name s).1 in
      drain_each-runs names mid t m rest ∙ elim (Bool-cases (text_eq name m)) [
        | inl e ↦
            let same : name ≡ m = (text_eq_iff name m).0 e in
            let gone : runs mid m ≡ none =
              subst (λ n. runs mid n ≡ none) same (laws.drained name s done) in
            rw e (if-none (contains names m) (runs mid m) gone)
        | inr e ↦ rw (e, laws.drain_apart name m s e) refl
      ]

  make_way-apart :
      (existing : List Text) (name other : Text) (s : S)
      → text_eq name other ≡ false
      → runs (make_way host existing name s).1 other ≡ runs s other
  unfolding make_way
  make_way-apart existing name other s e = elim (Bool-cases (contains existing name)) [
    | inl there ↦ rw there (laws.drain_apart name other s e)
    | inr free ↦ rw free refl
  ]

  pub start_each-runs :
      (d : ℕ) (existing : List Text) (items : Wanted) (k n : ℕ) (s t : S) (m : Text)
      → start_each host d existing items k s ≡ (ok n, t)
      → (runs t m ≡ (if is_wanted items m then some d else runs s m)) × (n ≡ k + length items)
  unfolding start_each is_wanted lookup
  start_each-runs d existing [] k n s t m h = (
    ap (λ (x : Result Text ℕ × S). runs x.1 m) (sym h),
    omega (arith, ok-injective (ap (λ (x : Result Text ℕ × S). x.0) h)),
  )
  start_each-runs d existing ((name, p) ∷ items) k n s t m h =
      let way = make_way host existing name s in
      let (u, made, rest) = then_call-eq-ok way _ h in
      let (v, done, later) = then_call-eq-ok (host.start d name p way.1) _ rest in
      let (ends, count) =
        start_each-runs d existing items (k + 1) n (host.start d name p way.1).1 t m later in
      (
        ends ∙ elim (Bool-cases (text_eq name m)) [
          | inl e ↦
              let here : runs (host.start d name p way.1).1 m ≡ some d =
                subst (λ x. runs (host.start d name p way.1).1 x ≡ some d)
                  ((text_eq_iff name m).0 e) (laws.started d name p way.1 done) in
              rw e (if-some (is_wanted items m) d _ here)
          | inr e ↦
              rw (e, laws.start_apart d name m p way.1 e, make_way-apart existing name m s e) refl
        ],
        omega (arith, count),
      )
