-- ===== src/Models/Fixtures.antt =====
-- A project and its deployments, for the tests.
use deploygenus.Models.{DeploymentStatus, push, web_project, Project, Deployment}
use deploygenus.Text.{Text, codes, decimal}
use deploygenus.Base.{ℕ, true, Option, none, some, []}

abbrev pub shop : Project
shop = record {
  id = 1;
  slug = codes "shop";
  name = codes "Shop";
  repo_url = codes "https://example.org/shop.git";
  production_branch = codes "main";
  root_directory = [];
  framework = none;
  install_command = none;
  build_command = none;
  start_command = none;
  port = none;
  memory_mb = 512;
  cpu_shares = 100;
  keep_warm = 1;
  stop_timeout_seconds = 10;
  deploy_key_public = none;
  production_deployment_id = some 10;
  webhook_secret = [];
  created_at = 0;
  updated_at = 0;
  github_installation_id = none;
  github_repo = none;
  preview_deploys = true;
  build_args = [];
  dockerfile_path = [];
  kind = web_project;
}

abbrev pub deployment : ℕ → ℕ → DeploymentStatus → Text → Option Text → ℕ → Deployment
deployment id number status ref container at = record {
  id = id;
  project_id = 1;
  short_id = decimal id;
  number = number;
  status = status;
  trigger = push;
  git_sha = codes "0123456789abcdef0123456789abcdef01234567";
  git_ref = ref;
  git_message = none;
  git_author = none;
  framework = none;
  image_tag = none;
  internal_port = none;
  container_id = container;
  error = none;
  rolled_back_from = none;
  created_at = at;
  started_at = none;
  built_at = none;
  ready_at = none;
  finished_at = none;
}
