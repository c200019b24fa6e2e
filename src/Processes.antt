-- ===== src/Processes.antt =====
-- Worker containers (deploypro/engine/processes.py). Docker's containers are a state of any type, and
-- WorkerHost is what deploypro/adapters/containers.py does to them: `listed` is
-- list_process_containers of the project, `is_running` asks for a container's `state`, `drain` and
-- `start` (run_worker) may raise. What `_prepare` answers is an argument; log lines are left out.
pub mod Names
pub mod Loops
pub mod Workers
pub mod Touched
pub mod Pausing
mod Tests
use deploygenus.Database.{Db, Failure}
use deploygenus.Deployments.{get}
use deploygenus.Dict.{lookup, put}
use deploygenus.Models.{ProcessType, worker, Project, Deployment, is_some, Process}
use deploygenus.Naming.{worker_container_name}
use deploygenus.Retention.{image_of, text_le}
use deploygenus.Text.{Text, codes, contains}
use deploygenus.Base.{
  ◌==◌, if◌then◌else◌, length, filter, is_empty, sort_by, ◌>>=◌, Result, ok, err, ℕ, zero, suc, ◌+◌,
  Bool, true, false, not, ◌&&◌, Option, none, some, List, [], ◌∷◌, ◌++◌,
}

-- A call that changes the containers and may raise; what was done before a raise stays done.
abbrev pub Call : Type 0 → Type 0 → Type 0
Call S A = S → Result Text A × S

abbrev pub then_call : {S A B : Type 0} → Result Text A × S → (A → Call S B) → Result Text B × S
then_call (ok a, s) f = f a s
then_call (err e, s) f = (err e, s)

pub record WorkerHost (S : Type 0) : Type 0 where
  pub listed : S → List Text
  pub drain : Text → Call S (Unit {0})
  pub start : ℕ → Text → Process → Call S (Unit {0})
  pub is_running : S → Text → Bool

abbrev pub is_worker : ProcessType → Bool
is_worker ProcessType.worker = true
is_worker _ = false

abbrev pub process_by_name : Process → Process → Bool
process_by_name a b = text_le a.name b.name

-- `list_long_running` of deploypro/repositories/processes.py
unfoldable pub list_long_running : ℕ → List Process → List Process
unfolding filter sort_by
list_long_running project processes =
    sort_by process_by_name
      (filter (λ (p : Process). p.project_id == project && is_worker p.type && p.enabled) processes)

abbrev pub Wanted : Type 0
Wanted = List (Text × Process)

-- `for replica in range(...)`
unfoldable pub want_replicas : Text → Process → ℕ → Wanted → Wanted
unfolding put worker_container_name
want_replicas slug p zero wanted = wanted
want_replicas slug p (suc n) wanted =
    put (worker_container_name slug p.name n) p (want_replicas slug p n wanted)

unfoldable pub want_all : Text → List Process → Wanted → Wanted
unfolding want_replicas
want_all slug [] wanted = wanted
want_all slug (p ∷ ps) wanted = want_all slug ps (want_replicas slug p p.replicas wanted)

unfoldable pub is_wanted : Wanted → Text → Bool
unfolding lookup
is_wanted wanted name = is_some (lookup name wanted)

-- The names of the first replicas of a process.
unfoldable pub replica_names : Text → Process → ℕ → List Text
unfolding worker_container_name
replica_names slug p zero = []
replica_names slug p (suc n) = replica_names slug p n ++ (worker_container_name slug p.name n ∷ [])

-- What the row that the pointer finds serves; NotFound is raised on.
unfoldable pub served_by : Result Failure Deployment → Result Text (Option Deployment)
served_by (ok d) = ok (if is_some (image_of d) then some d else none)
served_by (err e) = err (codes "No such deployment")

-- `_production_deployment`, by the project's pointer
unfoldable pub production_deployment : Option ℕ → Db → Result Text (Option Deployment)
unfolding served_by get
production_deployment none db = ok none
production_deployment (some id) db = served_by (get id db).0

abbrev pub item_by_name : Text × Process → Text × Process → Bool
item_by_name a b = text_le a.0 b.0

module _ {S : Type 0} (host : WorkerHost S) where
  unfoldable pub drain_each : List Text → Call S (Unit {0})
  drain_each [] = λ s. (ok tt, s)
  drain_each (name ∷ names) = λ s. then_call (host.drain name s) (λ done. drain_each names)

  -- `if name in existing: drain`
  unfoldable pub make_way : List Text → Text → Call S (Unit {0})
  unfolding contains
  make_way existing name s = if contains existing name then host.drain name s else (ok tt, s)

  unfoldable pub start_each : ℕ → List Text → Wanted → ℕ → Call S ℕ
  unfolding make_way
  start_each deployment existing [] started = λ s. (ok started, s)
  start_each deployment existing ((name, process) ∷ items) started = λ s.
      then_call (make_way existing name s) (λ done t.
        then_call (host.start deployment name process t)
          (λ done. start_each deployment existing items (started + 1)))

  -- `if not deployment.image_tag: raise`, and what `_prepare` raises
  unfoldable pub start_prepared :
      Deployment → Option Text → Result Text (Unit {0}) → List Text → Wanted → Call S ℕ
  unfolding start_each sort_by
  start_prepared d none prepared existing wanted =
      λ s. (err (codes "This deployment has no image, so its workers cannot start"), s)
  start_prepared d (some image) (err raised) existing wanted = λ s. (err raised, s)
  start_prepared d (some image) (ok done) existing wanted =
      start_each d.id existing (sort_by item_by_name wanted) 0

  unfoldable pub replace_workers :
      Deployment → Result Text (Unit {0}) → List Text → Wanted → Call S ℕ
  unfolding drain_each start_prepared filter is_wanted sort_by
  replace_workers d prepared existing wanted = λ s.
      then_call
        (drain_each (sort_by text_le (filter (λ name. not (is_wanted wanted name)) existing)) s)
        (λ done t.
          if is_empty wanted
          then (ok 0, t)
          else start_prepared d (image_of d) prepared existing wanted t)

  -- `processes` is the table.
  unfoldable pub reconcile_workers :
      Project → Deployment → List Process → Result Text (Unit {0}) → Call S ℕ
  unfolding replace_workers want_all list_long_running
  reconcile_workers project d processes prepared s =
      replace_workers d prepared (host.listed s)
        (want_all project.slug (list_long_running project.id processes) []) s

  unfoldable pub start_all : ℕ → Process → List Text → Call S (Unit {0})
  start_all deployment process [] = λ s. (ok tt, s)
  start_all deployment process (name ∷ names) = λ s.
      then_call (host.start deployment name process s) (λ done. start_all deployment process names)

  -- The replicas that do not run are started, if there is any.
  unfoldable pub start_missing :
      Deployment → Process → Result Text (Unit {0}) → List Text → Call S ℕ
  unfolding start_all
  start_missing d process prepared [] s = (ok 0, s)
  start_missing d process (err raised) (name ∷ names) s = (err raised, s)
  start_missing d process (ok done) (name ∷ names) s =
      then_call (start_all d.id process (name ∷ names) s)
        (λ started t. (ok (length (name ∷ names)), t))

  unfoldable pub resume :
      Option Deployment → Process → Result Text (Unit {0}) → List Text → Call S ℕ
  unfolding start_missing filter
  resume none process prepared names s = (ok 0, s)
  resume (some d) process prepared names s =
      start_missing d process prepared (filter (λ name. not (host.is_running s name)) names) s

  unfoldable pub resume_served :
      Result Text (Option Deployment) → Process → Result Text (Unit {0}) → List Text → Call S ℕ
  unfolding resume
  resume_served (err e) process prepared names s = (err e, s)
  resume_served (ok served) process prepared names s = resume served process prepared names s

  unfoldable pub apply_worker : Project → Process → Db → Result Text (Unit {0}) → Call S ℕ
  unfolding replica_names drain_each resume_served production_deployment
  apply_worker project process db prepared s =
      let names = replica_names project.slug process process.replicas in
      if process.enabled
      then resume_served (production_deployment project.production_deployment_id db) process
          prepared names s
      else then_call (drain_each names s) (λ done t. (ok (length names), t))
