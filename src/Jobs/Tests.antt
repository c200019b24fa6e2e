-- ===== src/Jobs/Tests.antt =====
-- The sweep at a concrete table of processes.
use deploygenus.Models.Fixtures.{shop}
use deploygenus.Models.{cron, pending, Process}
use deploygenus.Jobs.{RunRow, Jobs, sweep}
use deploygenus.Jobs.Runs.{claim_next_run}
use deploygenus.Jobs.Runs.Claims.{Claims, claim_next_run-Claims}
use deploygenus.Jobs.Sweeps.{Sweeps, sweep-Sweeps}
use deploygenus.Text.{codes}
use deploygenus.Base.{true, none, some, [], ◌∷◌}

abbrev report : Process
report = record {
  id = 1;
  project_id = 1;
  name = codes "report";
  type = cron;
  command = some (codes "python report.py");
  schedule = some (codes "*/15 * * * *");
  memory_mb = 256;
  replicas = 1;
  timeout_seconds = 600;
  enabled = true;
  created_at = 0;
  updated_at = 0;
}

abbrev jobs : Jobs
jobs = record { processes = report ∷ []; projects = shop ∷ []; runs = [] }

sweep-Sweeps_example : Sweeps 63900000000000000 jobs (sweep 1 63900000000000000 jobs)
sweep-Sweeps_example = sweep-Sweeps 1 63900000000000000 jobs

abbrev missed : RunRow
missed = record {
  run = record {
    id = 7;
    process_id = 1;
    deployment_id = some 10;
    scheduled_for = 1065000;
    status = pending;
    exit_code = none;
    detail = none;
    output = none;
    container_id = none;
    created_at = 0;
    started_at = none;
    finished_at = none;
  };
  leased_by = none;
  leased_at = none;
}

abbrev locked_run : RunRow
locked_run = record missed { run = record (missed.run) { id = 8; scheduled_for = 1064000 } }

claim_next_run-Claims_example :
    Claims
      (codes "w")
      (8 ∷ [])
      900
      (locked_run ∷ missed ∷ [])
      (claim_next_run (codes "w") (8 ∷ []) 900 (locked_run ∷ missed ∷ []))
claim_next_run-Claims_example =
    claim_next_run-Claims (codes "w") (8 ∷ []) 900 (locked_run ∷ missed ∷ [])
