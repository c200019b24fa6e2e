-- ===== src/Processes/Pausing.antt =====
-- What pausing and resuming a worker does (`apply_worker`).
use deploygenus.Database.{Db, Failure}
use deploygenus.Deployments.{get}
use deploygenus.Models.{Project, Deployment, is_some, Process}
use deploygenus.Processes.Names.{IsReplica}
use deploygenus.Processes.Workers.{contains-In}
use deploygenus.Retention.{image_of}
use deploygenus.Retention.Removal.{In-contains}
use deploygenus.Processes.{
  then_call, WorkerHost, replica_names, served_by, production_deployment, drain_each, resume,
  resume_served, apply_worker,
}
use deploygenus.Processes.Loops.{Laws, drain_each-runs}
use deploygenus.Text.{Text, contains}
use deploygenus.Base.{
  if◌then◌else◌, Bool-cases, length, filter, In-filter, filter-In, ok-injective, Result, ok, err, ℕ,
  ◌≡◌, refl, sym, ap, ◌∙◌, subst, ◌↔◌, ◌⊎◌, inl, inr, Bool, true, false, not, Option, none, some,
  List, arith,
}
use deploygenus.Processes.Touched.{
  Changes, counted-Changes, start_missing-Changes, contains-replica_names, length-replica_names,
}

-- No replica of the paused worker runs, and every other container is as before; as many names are
-- counted as the worker has replicas.
pub record Paused {S : Type 0} (runs : S → Text → Option ℕ) (slug : Text) (p : Process) (s t : S)
    (n : ℕ) : Type 0 where
  pub stopped : (m : Text) → IsReplica slug p p.replicas m → runs t m ≡ none
  pub apart : (m : Text) → ¬ IsReplica slug p p.replicas m → runs t m ≡ runs s m
  pub count : n ≡ p.replicas

-- The replicas of the resumed worker that did not run are on the deployment `d`, and every other
-- container is as before.
pub record Resumed {S : Type 0} (host : WorkerHost S) (runs : S → Text → Option ℕ) (slug : Text)
    (p : Process) (d : Deployment) (s t : S) : Type 0 where
  pub started :
      (m : Text)
      → IsReplica slug p p.replicas m
      → host.is_running s m ≡ false
      → runs t m ≡ some d.id
  pub running : (m : Text) → host.is_running s m ≡ true → runs t m ≡ runs s m
  pub apart : (m : Text) → ¬ IsReplica slug p p.replicas m → runs t m ≡ runs s m

-- The project's pointer finds the deployment, and it has an image.
abbrev pub Serves : Project → Db → Deployment → Type 0
Serves project db d =
    (id : ℕ) × (project.production_deployment_id ≡ some id)
    × ((get id db).0 ≡ ok d)
    × (is_some (image_of d) ≡ true)

-- There is no pointer, or what it finds has no image.
abbrev pub ServesNothing : Project → Db → Type 0
ServesNothing project db =
    (project.production_deployment_id ≡ none)
    ⊎ ((id : ℕ) × (d : Deployment) × (project.production_deployment_id ≡ some id)
        × ((get id db).0 ≡ ok d)
        × (is_some (image_of d) ≡ false))

-- How the containers are once `apply_worker` has returned.
abbrev pub Applied :
    {S : Type 0}
    → WorkerHost S
    → (S → Text → Option ℕ)
    → Project
    → Process
    → Db
    → S
    → S
    → ℕ
    → Type 0
Applied host runs project p db s t n =
    ((p.enabled ≡ false) × Paused runs project.slug p s t n)
    ⊎ ((p.enabled ≡ true)
        × (d : Deployment) × Serves project db d
        × Resumed host runs project.slug p d s t)
    ⊎ ((p.enabled ≡ true) × ServesNothing project db × ((m : Text) → runs t m ≡ runs s m) × (n ≡ 0))

served_by-ok :
    (x : Result Failure Deployment) (o : Option Deployment)
    → served_by x ≡ ok o
    → (d : Deployment) × (x ≡ ok d) × (o ≡ (if is_some (image_of d) then some d else none))
unfolding served_by
served_by-ok (ok d) o h = (d, refl, sym (ok-injective h))
served_by-ok (err e) o h = cc

-- The case of a project whose pointer the look-up answered with `o`.
abbrev Found : Project → Db → Option Deployment → Type 0
Found project db none = ServesNothing project db
Found project db (some d) = Serves project db d

production_deployment-Found :
    (project : Project) (db : Db) (pointer : Option ℕ) (o : Option Deployment)
    → project.production_deployment_id ≡ pointer
    → production_deployment pointer db ≡ ok o
    → Found project db o
unfolding production_deployment
production_deployment-Found project db none o e h =
    subst (Found project db) (ok-injective h) (inl e)
production_deployment-Found project db (some id) o e h =
    let (d, found, answer) = served_by-ok (get id db).0 o h in
    subst (Found project db) (sym answer) (elim (Bool-cases (is_some (image_of d))) [
      | inl image ↦ rw image (id, e, found, image)
      | inr bare ↦ rw bare (inr (id, d, e, found, bare))
    ])

chosen : (b : Bool) (A : Type 0) (x y z : A) → b ≡ true → x ≡ (if b then y else z) → x ≡ y
chosen true A x y z h e = e
chosen false A x y z h e = cc

left_alone : (b : Bool) (A : Type 0) (x y z : A) → b ≡ false → x ≡ (if b then y else z) → x ≡ z
left_alone true A x y z h e = cc
left_alone false A x y z h e = e

module _ {S : Type 0} (host : WorkerHost S) (runs : S → Text → Option ℕ) (laws : Laws host runs)
    (project : Project) (p : Process) where
  names : List Text
  unfolding replica_names
  names = replica_names project.slug p p.replicas

  idle : S → List Text
  unfolding names
  idle s = filter (λ name. not (host.is_running s name)) names

  apart_from : (m : Text) → ¬ IsReplica project.slug p p.replicas m → contains names m ≡ false
  unfolding names
  apart_from m h = elim (Bool-cases (contains names m)) [
    | inl e ↦ absurd (h ((contains-replica_names project.slug p p.replicas m).0 e))
    | inr e ↦ e
  ]

  Changes-Paused :
      (s t : S) (n : ℕ) → Changes runs names none s t n → Paused runs project.slug p s t n
  unfolding names
  Changes-Paused s t n (h, count) = record {
    stopped = λ m replica.
        chosen (contains names m) (Option ℕ) (runs t m) none (runs s m)
          ((contains-replica_names project.slug p p.replicas m).1 replica) (h m);
    apart = λ m other.
        left_alone (contains names m) (Option ℕ) (runs t m) none (runs s m) (apart_from m other)
          (h m);
    count = count ∙ length-replica_names project.slug p p.replicas;
  }

  contains-idle :
      (s : S) (m : Text)
      → (contains (idle s) m ≡ true) ↔ ((contains names m ≡ true) × (host.is_running s m ≡ false))
  unfolding idle
  contains-idle s m =
      let test = λ (name : Text). not (host.is_running s name) in
      (
        λ h.
            let (k, e) = filter-In test m names (contains-In m (idle s) h) in
            (In-contains m names k, ground arith),
        λ (h, e).
            In-contains m (idle s) (In-filter test m names (contains-In m names h) (rw e refl)),
      )

  not_idle :
      (s : S) (m : Text)
      → ¬ ((contains names m ≡ true) × (host.is_running s m ≡ false))
      → contains (idle s) m ≡ false
  not_idle s m h = elim (Bool-cases (contains (idle s) m)) [
    | inl e ↦ absurd (h ((contains-idle s m).0 e))
    | inr e ↦ e
  ]

  Changes-Resumed :
      (d : Deployment) (s t : S) (n : ℕ)
      → Changes runs (idle s) (some d.id) s t n
      → Resumed host runs project.slug p d s t
  unfolding names
  Changes-Resumed d s t n (h, count) = record {
    started = λ m replica e.
        chosen (contains (idle s) m) (Option ℕ) (runs t m) (some d.id) (runs s m)
          ((contains-idle s m).1
            ((contains-replica_names project.slug p p.replicas m).1 replica, e))
          (h m);
    running = λ m e.
        left_alone (contains (idle s) m) (Option ℕ) (runs t m) (some d.id) (runs s m)
          (not_idle s m (λ (k, f). cc)) (h m);
    apart = λ m other.
        left_alone (contains (idle s) m) (Option ℕ) (runs t m) (some d.id) (runs s m)
          (not_idle s m (λ (k, f). let no = apart_from m other in cc)) (h m);
  }

  resumed :
      (db : Db) (prepared : Result Text (Unit {0})) (s t : S) (n : ℕ) (o : Option Deployment)
      → p.enabled ≡ true
      → Found project db o
      → resume host o p prepared names s ≡ (ok n, t)
      → Applied host runs project p db s t n
  unfolding resume idle
  resumed db prepared s t n none enabled found h = inr (
      inr (
        enabled,
        found,
        λ m. ap (λ (x : Result Text ℕ × S). runs x.1 m) (sym h),
        sym (ok-injective (ap (λ (x : Result Text ℕ × S). x.0) h)),
      ))
  resumed db prepared s t n (some d) enabled found h = inr (
      inl (
        enabled,
        d,
        found,
        Changes-Resumed d s t n
            (start_missing-Changes host runs laws d p prepared (idle s) s t n h),
      ))

  looked_up :
      (db : Db) (prepared : Result Text (Unit {0})) (s t : S) (n : ℕ)
      (x : Result Text (Option Deployment))
      → p.enabled ≡ true
      → production_deployment project.production_deployment_id db ≡ x
      → resume_served host x p prepared names s ≡ (ok n, t)
      → Applied host runs project p db s t n
  unfolding resume_served
  looked_up db prepared s t n (err e) enabled found h = cc
  looked_up db prepared s t n (ok o) enabled found h =
      resumed db prepared s t n o enabled
        (production_deployment-Found project db project.production_deployment_id o refl found) h

  by_enabled :
      (enabled : Bool) (db : Db) (prepared : Result Text (Unit {0})) (s t : S) (n : ℕ)
      → p.enabled ≡ enabled
      → (if enabled
          then resume_served host
              (production_deployment project.production_deployment_id db)
              p
              prepared
              (replica_names project.slug p p.replicas)
              s
          else then_call
              (drain_each host (replica_names project.slug p p.replicas) s)
              (λ done u. (ok (length (replica_names project.slug p p.replicas)), u)))
        ≡ (ok n, t)
      → Applied host runs project p db s t n
  unfolding names
  by_enabled true db prepared s t n e h =
      looked_up db prepared s t n (production_deployment project.production_deployment_id db) e refl
        h
  by_enabled false db prepared s t n e h = inl (
    e,
    Changes-Paused s t n (
        counted-Changes host runs laws names none (drain_each host names s) s t n
          (λ m u d. drain_each-runs host runs laws names s u m d) h),
  )

-- Where the adapter's drain and start do what Laws says of them: if `apply_worker` returns, then a
-- paused worker runs under none of its replicas' names and its number of replicas is returned. Of a
-- resumed one the replicas that did not run are on the production deployment, if the project's pointer
-- finds one with an image; if there is no pointer or no image, nothing is started and 0 is returned.
-- What runs under any other name is as before.
pub apply_worker-Applied :
    {S : Type 0} (host : WorkerHost S) (runs : S → Text → Option ℕ) (laws : Laws host runs)
    (project : Project) (p : Process) (db : Db) (prepared : Result Text (Unit {0})) (s t : S)
    (n : ℕ)
    → apply_worker host project p db prepared s ≡ (ok n, t)
    → Applied host runs project p db s t n
unfolding apply_worker
apply_worker-Applied host runs laws project p db prepared s t n h =
    by_enabled host runs laws project p p.enabled db prepared s t n refl h
