-- ===== src/Jobs/Runs.antt =====
-- Runs of the scheduled jobs once their slots are recorded: the statements on `job_runs` of
-- deploypro/repositories/processes.py. `locked` are the rows that other transactions hold locked.
pub mod Claims
use deploygenus.Models.{JobStatus, running, job_failed, JobRun}
use deploygenus.Jobs.{RunRow, is_pending}
use deploygenus.Text.{Text, codes}
use deploygenus.Base.{
  ltb, ◌==◌, if◌then◌else◌, any, ℕ, ◌+◌, ◌*◌, Bool, true, false, not, ◌&&◌, Option, none, some,
  List, [], ◌∷◌,
}

abbrev run_id : RunRow → ℕ
run_id r = r.run.id

-- `UPDATE job_runs SET ... WHERE ...`, and its `RETURNING`
touch_runs : (RunRow → Bool) → (RunRow → RunRow) → List RunRow → List RunRow
touch_runs where_ set_ [] = []
touch_runs where_ set_ (r ∷ rs) = (if where_ r then set_ r else r) ∷ touch_runs where_ set_ rs

returned_runs : (RunRow → Bool) → (RunRow → RunRow) → List RunRow → List JobRun
returned_runs where_ set_ [] = []
returned_runs where_ set_ (r ∷ rs) =
    let rest = returned_runs where_ set_ rs in if where_ r then (set_ r).run ∷ rest else rest

-- `WHERE status = 'pending'`, of the rows that are not locked
run_claimable : List ℕ → RunRow → Bool
run_claimable locked r = is_pending r.run.status && not (any (λ n. n == run_id r) locked)

-- `ORDER BY scheduled_for LIMIT 1`
choose_run : List ℕ → RunRow → Option RunRow → Option RunRow
choose_run locked r none = if run_claimable locked r then some r else none
choose_run locked r (some b) =
    if run_claimable locked r
    then (if ltb b.run.scheduled_for r.run.scheduled_for then some b else some r)
    else some b

next_run : List ℕ → List RunRow → Option RunRow
unfolding choose_run
next_run locked [] = none
next_run locked (r ∷ rs) = choose_run locked r (next_run locked rs)

start_run : Text → ℕ → RunRow → RunRow
start_run worker_id now r = record r {
  run = record (r.run) { status = running; started_at = some now };
  leased_by = some worker_id;
  leased_at = some now;
}

claim_run : Text → ℕ → Option RunRow → List RunRow → Option JobRun × List RunRow
unfolding touch_runs start_run
claim_run worker_id now none rs = (none, rs)
claim_run worker_id now (some r) rs = (
  some (start_run worker_id now r).run,
  touch_runs (λ x. run_id x == run_id r) (start_run worker_id now) rs,
)

pub claim_next_run : Text → List ℕ → ℕ → List RunRow → Option JobRun × List RunRow
unfolding claim_run
claim_next_run worker_id locked now rs = claim_run worker_id now (next_run locked rs) rs

-- What a finished run says of itself.
pub record Report : Type 0 where
  pub status : JobStatus
  pub exit_code : Option ℕ
  pub detail : Option Text
  pub output : Option Text

end_run : Report → ℕ → RunRow → RunRow
end_run report now r = record r {
  run = record (r.run) {
    status = report.status;
    exit_code = report.exit_code;
    detail = report.detail;
    output = report.output;
    finished_at = some now;
    container_id = none;
  };
  leased_by = none;
  leased_at = none;
}

first_run : List JobRun → Option JobRun
first_run [] = none
first_run (r ∷ rs) = some r

-- None stands for NotFound.
pub finish_run : ℕ → Report → ℕ → List RunRow → Option JobRun × List RunRow
unfolding touch_runs returned_runs end_run first_run
finish_run id report now rs = (
  first_run (returned_runs (λ r. run_id r == id) (end_run report now) rs),
  touch_runs (λ r. run_id r == id) (end_run report now) rs,
)

attach_run : Option Text → RunRow → RunRow
attach_run container r = record r { run = record (r.run) { container_id = container } }

pub set_run_container : ℕ → Option Text → List RunRow → List RunRow
unfolding touch_runs attach_run
set_run_container id container rs = touch_runs (λ r. run_id r == id) (attach_run container) rs

abbrev is_running_job : JobStatus → Bool
is_running_job running = true
is_running_job _ = false

-- `status = 'running' AND leased_at < now() - make_interval(secs => n)`
run_abandoned : ℕ → ℕ → RunRow → Bool
run_abandoned seconds now r =
    is_running_job r.run.status
    && elim r.leased_at [ none ↦ false | some t ↦ ltb (t + seconds * 1000000) now ]

fail_run : ℕ → RunRow → RunRow
fail_run now r = record r {
  run = record (r.run) {
    status = job_failed;
    detail = some (codes "The worker running this job stopped responding.");
    finished_at = some now;
  };
  leased_by = none;
  leased_at = none;
}

pub reclaim_abandoned_runs : ℕ → ℕ → List RunRow → List JobRun × List RunRow
unfolding touch_runs returned_runs fail_run
reclaim_abandoned_runs seconds now rs = (
  returned_runs (run_abandoned seconds now) (fail_run now) rs,
  touch_runs (run_abandoned seconds now) (fail_run now) rs,
)
