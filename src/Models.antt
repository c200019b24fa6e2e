-- ===== src/Models.antt =====
-- The vocabulary of the platform (deploypro/domain/models.py). Identifiers are numbers, moments are
-- numbers of seconds, `cpu_shares` is in hundredths as its column stores it, and ciphertext is a
-- text.
pub mod Fixtures
use deploygenus.Text.{Text}
use deploygenus.Base.{is_empty, ℕ, Bool, true, false, not, ◌&&◌, Option, none, some, List}

pub data DeploymentStatus : Type 0 where
  queued building deploying ready failed cancelled : DeploymentStatus

abbrev pub is_terminal : DeploymentStatus → Bool
is_terminal ready = true
is_terminal failed = true
is_terminal cancelled = true
is_terminal _ = false

abbrev pub is_in_flight : DeploymentStatus → Bool
is_in_flight building = true
is_in_flight deploying = true
is_in_flight _ = false

abbrev pub is_queued : DeploymentStatus → Bool
is_queued queued = true
is_queued _ = false

abbrev pub is_ready : DeploymentStatus → Bool
is_ready ready = true
is_ready _ = false

abbrev pub is_failed : DeploymentStatus → Bool
is_failed failed = true
is_failed _ = false

pub data DeploymentTrigger : Type 0 where
  push manual rollback redeploy : DeploymentTrigger

pub data EnvTarget : Type 0 where
  production preview all_targets : EnvTarget

-- `self is EnvTarget.ALL or self is other`
abbrev pub covers : EnvTarget → EnvTarget → Bool
covers all_targets other = true
covers production production = true
covers preview preview = true
covers _ _ = false

pub data ProcessType : Type 0 where
  web worker cron : ProcessType

abbrev pub is_long_running : ProcessType → Bool
is_long_running web = true
is_long_running worker = true
is_long_running cron = false

pub data JobStatus : Type 0 where
  pending running succeeded job_failed timed_out skipped : JobStatus

abbrev pub job_is_terminal : JobStatus → Bool
job_is_terminal pending = false
job_is_terminal running = false
job_is_terminal _ = true

pub data ProjectKind : Type 0 where
  web_project background : ProjectKind

pub record Project : Type 0 where
  pub id : ℕ
  pub slug : Text
  pub name : Text
  pub repo_url : Text
  pub production_branch : Text
  pub root_directory : Text
  pub framework : Option Text
  pub install_command : Option Text
  pub build_command : Option Text
  pub start_command : Option Text
  pub port : Option ℕ
  pub memory_mb : ℕ
  pub cpu_shares : ℕ
  pub keep_warm : ℕ
  pub stop_timeout_seconds : ℕ
  pub deploy_key_public : Option Text
  pub production_deployment_id : Option ℕ
  pub webhook_secret : Text
  pub created_at : ℕ
  pub updated_at : ℕ
  pub github_installation_id : Option ℕ
  pub github_repo : Option Text
  pub preview_deploys : Bool
  pub build_args : Text
  pub dockerfile_path : Text
  pub kind : ProjectKind

abbrev pub kind_is_background : ProjectKind → Bool
kind_is_background web_project = false
kind_is_background background = true

abbrev pub is_background : Project → Bool
is_background p = kind_is_background p.kind

pub record Deployment : Type 0 where
  pub id : ℕ
  pub project_id : ℕ
  pub short_id : Text
  pub number : ℕ
  pub status : DeploymentStatus
  pub trigger : DeploymentTrigger
  pub git_sha : Text
  pub git_ref : Text
  pub git_message : Option Text
  pub git_author : Option Text
  pub framework : Option Text
  pub image_tag : Option Text
  pub internal_port : Option ℕ
  pub container_id : Option Text
  pub error : Option Text
  pub rolled_back_from : Option ℕ
  pub created_at : ℕ
  pub started_at : Option ℕ
  pub built_at : Option ℕ
  pub ready_at : Option ℕ
  pub finished_at : Option ℕ

abbrev pub is_some {ℓ} : {A : Type ℓ} → Option A → Bool
is_some none = false
is_some (some a) = true

-- Serving right now, as opposed to merely having once succeeded.
abbrev pub is_live : Deployment → Bool
is_live d = is_ready d.status && is_some d.container_id

pub record Domain : Type 0 where
  pub id : ℕ
  pub project_id : ℕ
  pub host : Text
  pub verified_at : Option ℕ
  pub is_primary : Bool
  pub created_at : ℕ
  pub dns_zone_id : Option Text
  pub dns_records : List (Text × Text × Text)

abbrev pub is_verified : Domain → Bool
is_verified d = is_some d.verified_at

abbrev pub dns_managed : Domain → Bool
dns_managed d = not (is_empty d.dns_records)

pub record Process : Type 0 where
  pub id : ℕ
  pub project_id : ℕ
  pub name : Text
  pub type : ProcessType
  pub command : Option Text
  pub schedule : Option Text
  pub memory_mb : ℕ
  pub replicas : ℕ
  pub timeout_seconds : ℕ
  pub enabled : Bool
  pub created_at : ℕ
  pub updated_at : ℕ

pub record JobRun : Type 0 where
  pub id : ℕ
  pub process_id : ℕ
  pub deployment_id : Option ℕ
  pub scheduled_for : ℕ
  pub status : JobStatus
  pub exit_code : Option ℕ
  pub detail : Option Text
  pub output : Option Text
  pub container_id : Option Text
  pub created_at : ℕ
  pub started_at : Option ℕ
  pub finished_at : Option ℕ
