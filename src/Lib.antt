-- ===== src/Lib.antt =====
-- DeployPro, a self-hosted deployment platform: a push becomes a row of a queue, a worker builds and
-- starts it, promotion points production at it, and a scheduler, a monitor and hourly housekeeping
-- run beside that. This library models the rules that the engine decides by and the statements with
-- which it writes its tables.
--
-- Parts, and the code they model:
-- - Text: strings as lists of code points, with the methods of `str` that the rules use, in their
--   ASCII form (splitting, stripping, lower case, decimal numbers).
-- - Dict: a dictionary as an association list.
-- - Schedule: deploypro/domain/schedule.py. Calendar has the fields of `datetime` that the schedule
--   reads, Cron is CronSchedule with due_slot and next_slot, Fields is parse.
-- - Naming: deploypro/domain/naming.py, names of containers, images and routers.
-- - Storage: deploypro/domain/storage.py, mount paths, volume names, draining containers.
-- - Models: deploypro/domain/models.py, the records and enumerations.
-- - Retention: deploypro/domain/retention.py, which images stay on the host.
-- - Database and Deployments: deploypro/repositories/deployments.py and set_production of
--   deploypro/repositories/projects.py over the tables of db/migrations/0001_core.sql. Each
--   function is one statement, an Action: tables to a result and tables. An UPDATE that breaks the
--   lease constraint, or the bounds of a port, raises and changes nothing; so does an INSERT that breaks
--   a check of a text, a unique constraint or the foreign key on the project.
-- - Promotion: promote, rollback and reclaim of deploypro/engine/promote.py, launch and ensure_serving
--   of deploypro/engine/launch.py. What Docker, git, the router's files and the health check answer
--   is a record of functions, Host, that every theorem takes as an argument.
-- - Pipeline: run_deployment of deploypro/engine/pipeline.py on the same Host.
-- - Service: queue_deploy, redeploy, delete_project, remove_orphans and reconcile of
--   deploypro/engine/service.py, on the tables and on what git, Docker and the router's files answer, a
--   record Platform.
-- - Housekeeping: sweep_images, sweep_build_dirs and ensure_room of deploypro/engine/housekeeping.py.
-- - Processes: reconcile_workers and apply_worker of deploypro/engine/processes.py, on any state of
--   containers. What the adapter does to it is a record, WorkerHost, with the record Laws.
-- - Jobs: sweep and _due_slot of deploypro/engine/scheduler.py with claim_slot and list_scheduled of
--   deploypro/repositories/processes.py, and in Jobs/Runs that file's statements on `job_runs`.
-- - Environment: collect, _split and _shell_quote of deploypro/engine/environment.py.
-- - Build: deploypro/domain/detect.py, dockerfiles.py and buildplan.py. Dockerfiles has the generators
--   (Stages, Static, Servers), Readers what regular expressions read out of files, Tree a checked-out
--   directory with the settings, Node, Python and Detect the rules, Paths the path of a project's
--   Dockerfile. Stage is a reference reader of
--   Dockerfiles, which the theorems of Decided are about; `json.loads` is an argument.
-- - Alerts: deploypro/engine/alerts.py and Monitor._record of deploypro/engine/monitor.py.
--
-- How they meet: Pipeline calls Promotion, and both call the statements of Deployments, as Service does
-- to queue a deployment; Housekeeping asks Retention about the rows that Deployments lists; Jobs asks
-- Schedule which slot a process owes; Retention and Processes name images and containers by Naming;
-- Deployments orders rows as Retention does, and all of them read the records of Models.
--
-- Conventions: identifiers are numbers in place of UUIDs, moments are numbers (seconds in
-- Deployments, microseconds in Schedule and Jobs, whose slots are minutes since year 1). `now()`, new
-- ids and rows that other transactions hold locked are arguments. A set is a list of which only
-- membership is used.
--
-- Fuel: due_slot scans horizon + 1 minutes, which is the whole window; next_slot is given limit + 2
-- rounds, and each round moves the cursor by at least a minute, so it never runs out. The retries of
-- create are its own argument.
--
-- Not modelled: Docker, git, Traefik, the HTTP layer, the dashboard, the command line, backups and the
-- remote services, which are input and output around these rules; log lines and files of the work
-- directory; jobs' containers, maintenance and the remaining rules of deploypro/domain.
-- Log lines are writes to `deployment_logs` that raise when the database is gone: the theorems on
-- run_deployment, promote, reconcile_workers and apply_worker are about runs in which writing a log
-- line (LogWriter.resume, log.system, flush) raises nothing.
-- In Build a directory has no symbolic links, `scripts` of package.json is an object when it is there,
-- and a port in deploypro.json is no boolean (Python takes `true` for the integer 1 and prints it as
-- `True`).
pub mod Base
pub mod Text
pub mod Dict
pub mod Schedule
pub mod Naming
pub mod Storage
pub mod Models
pub mod Retention
pub mod Database
pub mod Deployments
pub mod Promotion
pub mod Build
pub mod Pipeline
pub mod Service
pub mod Housekeeping
pub mod Processes
pub mod Jobs
pub mod Alerts
pub mod Environment
