-- ===== src/Jobs.antt =====
-- Scheduled jobs: the slots and runs of deploypro/repositories/processes.py and the sweep of
-- deploypro/engine/scheduler.py. A statement's `now()` and the ids that the database generates are
-- arguments: `id` is the next one. Moments are in microseconds, slots in minutes.
pub mod Runs
pub mod Listed
pub mod Sweeps
mod Tests
use deploygenus.Models.{
  ProcessType, cron, JobStatus, pending, skipped, Project, is_some, Process, JobRun,
}
use deploygenus.Database.{find_project}
use deploygenus.Schedule.Cron.{SearchError, Slot, max_catchup, due_slot}
use deploygenus.Schedule.Fields.{parse}
use deploygenus.Retention.{text_le}
use deploygenus.Text.{Text, codes}
use deploygenus.Base.{
  ltb, ◌==◌, if◌then◌else◌, filter, Result, ok, err, ℕ, ◌+◌, Bool, true, false, ◌&&◌, ◌||◌, Option,
  none, some, List, [], ◌∷◌, ◌++◌,
}

-- A row of `job_runs`, with the lease that `JobRun` does not carry.
pub record RunRow : Type 0 where
  pub run : JobRun
  pub leased_by : Option Text
  pub leased_at : Option ℕ

pub record Jobs : Type 0 where
  pub processes : List Process
  pub projects : List Project
  pub runs : List RunRow

pub data SweepError : Type 0 where
  search_failed : SearchError → SweepError
  no_project : SweepError

-- UNIQUE (process_id, scheduled_for)
pub is_taken : ℕ → ℕ → List RunRow → Bool
is_taken process slot [] = false
is_taken process slot (r ∷ rs) =
    r.run.process_id == process && r.run.scheduled_for == slot || is_taken process slot rs

abbrev is_pending : JobStatus → Bool
is_pending pending = true
is_pending _ = false

new_run : ℕ → ℕ → Option ℕ → JobStatus → Option Text → ℕ → ℕ → RunRow
new_run process slot deployment status detail id now = record {
  run = record {
    id = id;
    process_id = process;
    deployment_id = deployment;
    scheduled_for = slot;
    status = status;
    exit_code = none;
    detail = detail;
    output = none;
    container_id = none;
    created_at = now;
    started_at = none;
    finished_at = if is_pending status then none else some now;
  };
  leased_by = none;
  leased_at = none;
}

-- The inserted run, or None on a conflict, and the table after it.
pub claim_slot :
    ℕ → ℕ → Option ℕ → JobStatus → Option Text → ℕ → ℕ → List RunRow → Option JobRun × List RunRow
unfolding new_run
claim_slot process slot deployment status detail id now rs =
    if is_taken process slot rs then (none, rs) else (
      some (new_run process slot deployment status detail id now).run,
      rs ++ (new_run process slot deployment status detail id now ∷ []),
    )

abbrev is_cron : ProcessType → Bool
is_cron cron = true
is_cron _ = false

-- `ORDER BY project_id, name`
process_le : Process → Process → Bool
process_le p q =
    ltb p.project_id q.project_id || p.project_id == q.project_id && text_le p.name q.name

insert_process : Process → List Process → List Process
unfolding process_le
insert_process p [] = p ∷ []
insert_process p (q ∷ qs) = if process_le p q then p ∷ q ∷ qs else q ∷ insert_process p qs

by_project : List Process → List Process
by_project [] = []
by_project (p ∷ ps) = insert_process p (by_project ps)

pub list_scheduled : List Process → List Process
unfolding by_project
list_scheduled ps = by_project (filter (λ p. is_cron p.type && p.enabled) ps)

-- `process.schedule or ""`
abbrev schedule_text : Process → Text
schedule_text p = elim p.schedule [ none ↦ [] | some s ↦ s ]

-- `_due_slot`: a schedule that does not parse owes nothing.
pub owed_slot : Process → ℕ → Slot
owed_slot p now = elim (parse (schedule_text p)) [
  | ok schedule ↦ due_slot schedule now max_catchup
  | err e ↦ ok none
]

-- What the sweep writes for a slot of a project.
runnable : Project → Bool
runnable project = is_some project.production_deployment_id

slot_status : Project → JobStatus
unfolding runnable
slot_status project = if runnable project then pending else skipped

slot_detail : Project → Option Text
unfolding runnable
slot_detail project =
    if runnable project then none else some (codes "Nothing is serving production yet.")

enqueue : Process → Project → ℕ → ℕ → ℕ → List RunRow → Option JobRun × List RunRow
unfolding slot_status slot_detail
enqueue p project slot id now rs =
    claim_slot p.id slot project.production_deployment_id (slot_status project)
      (slot_detail project) id now rs

-- What a claim answers the sweep: 1 for a slot that is new.
tally : Option JobRun × List RunRow → Result SweepError ℕ × List RunRow
tally (none, rs) = (ok 0, rs)
tally (some run, rs) = (ok 1, rs)

record_slot : Process → Option Project → ℕ → ℕ → ℕ → List RunRow → Result SweepError ℕ × List RunRow
unfolding enqueue tally
record_slot p none slot id now rs = (err no_project, rs)
record_slot p (some project) slot id now rs = tally (enqueue p project slot id now rs)

-- One round of the loop: how many slots were new, and the table after it.
sweep_slot : Process → Slot → List Project → ℕ → ℕ → List RunRow → Result SweepError ℕ × List RunRow
unfolding record_slot
sweep_slot p (err e) projects id now rs = (err (search_failed e), rs)
sweep_slot p (ok none) projects id now rs = (ok 0, rs)
sweep_slot p (ok (some slot)) projects id now rs =
    record_slot p (find_project p.project_id projects) slot id now rs

plus_count : ℕ → Result SweepError ℕ × List RunRow → Result SweepError ℕ × List RunRow
plus_count n (ok m, rs) = (ok (n + m), rs)
plus_count n (err e, rs) = (err e, rs)

-- The rest of the loop after a round, unless the round raised.
after_round :
    Result SweepError ℕ × List RunRow
    → (ℕ → List RunRow → Result SweepError ℕ × List RunRow)
    → Result SweepError ℕ × List RunRow
unfolding plus_count
after_round (ok n, rs) rest = plus_count n (rest n rs)
after_round (err e, rs) rest = (err e, rs)

sweep_each : List Process → List Project → ℕ → ℕ → List RunRow → Result SweepError ℕ × List RunRow
unfolding sweep_slot after_round
sweep_each [] projects id now rs = (ok 0, rs)
sweep_each (p ∷ ps) projects id now rs =
    after_round (sweep_slot p (owed_slot p now) projects id now rs)
      λ n after. sweep_each ps projects (id + n) now after

pub sweep : ℕ → ℕ → Jobs → Result SweepError ℕ × Jobs
unfolding sweep_each
sweep id now jobs =
    let (r, rs) = sweep_each (list_scheduled jobs.processes) jobs.projects id now jobs.runs in
    (r, record jobs { runs = rs })
