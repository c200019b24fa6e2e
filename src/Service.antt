-- ===== src/Service.antt =====
-- What the API, the webhook and the command line need (deploypro/engine/service.py). What git, Docker
-- and the router's files answer is a record, Platform; `explain` is the explanation of `_unreadable`,
-- `is_running` and `installation_containers` are answers at the time they are asked for. Log lines and
-- `ensure_network` are left out.
pub mod Queueing
pub mod Reconciling
mod Tests
use deploygenus.Database.{Row, Db, Failure, outside, Action, ◌>>>=◌, ◌>>>◌, return, raise}
use deploygenus.Deployments.{
  NewDeployment, create, list_for_project, reclaim_abandoned, builds_head, supersede_queued,
  set_container,
}
use deploygenus.Models.{DeploymentTrigger, redeploy, Project, Deployment}
use deploygenus.Retention.{same_id, text_le}
use deploygenus.Text.{Text, text_eq, contains}
use deploygenus.Base.{
  ◌==◌, if◌then◌else◌, length, filter, is_empty, sort_by, Result, ok, err, ℕ, ◌+◌, Bool, false, not,
  ◌&&◌, Option, none, some, List, [], ◌∷◌, map,
}

-- What `docker rm --force` answers.
pub data Removal : Type 0 where
  removed : Removal
  missing : Removal
  refused : Removal

pub record Platform : Type 0 where
  pub clear_route : Text → Result Failure (Unit {0})
  pub resolve_head : Text → Text → Result Text Text
  pub explain : Project → Text → Text
  pub is_running : Text → Bool
  pub installation_containers : List (Text × Text)
  pub remove : Text → Removal

-- `project_repo.list_all`
abbrev pub by_name : Project → Project → Bool
by_name a b = text_le a.name b.name

unfoldable pub list_all : Db → List Project
unfolding sort_by
list_all db = sort_by by_name db.projects

-- `ref or project.production_branch`
unfoldable pub reference_of : Option Text → Project → Text
reference_of none project = project.production_branch
reference_of (some ref) project = if is_empty ref then project.production_branch else ref

-- What a caller gives besides the project.
pub record Request : Type 0 where
  pub ref : Option Text
  pub sha : Option Text
  pub trigger : DeploymentTrigger
  pub message : Option Text
  pub author : Option Text
  pub rolled_back_from : Option ℕ

-- The replacement of builds that wait, at its own moment.
unfoldable pub replace_older : DeploymentTrigger → Deployment → ℕ → Action Deployment
replace_older trigger d now =
    if builds_head trigger then (supersede_queued d now >>> return d) else return d

unfoldable pub new_deployment : Project → Request → Text → Text → NewDeployment
unfolding reference_of
new_deployment project request short_id commit = record {
  project_id = project.id;
  short_id = short_id;
  git_sha = commit;
  git_ref = reference_of request.ref project;
  trigger = request.trigger;
  git_message = request.message;
  git_author = request.author;
  rolled_back_from = request.rolled_back_from;
}

-- Removes containers one by one; what is missing counts as nothing.
unfoldable pub was_removed : Removal → ℕ
was_removed removed = 1
was_removed missing = 0
was_removed refused = 0

-- `project_repo.delete`: the rows of the project's deployments go with it.
unfoldable pub delete_rows : ℕ → Action Unit
unfolding filter
delete_rows project db = (
  ok tt,
  record {
    rows = filter (λ (r : Row). not (r.deployment.project_id == project)) db.rows;
    projects = filter (λ (p : Project). not (p.id == project)) db.projects;
  },
)

abbrev ask_platform : {A : Type 0} → Result Failure A → Action A
ask_platform r db = (r, db)

module _ (platform : Platform) where
  unfoldable pub resolved : Project → Result Text Text → Result Failure Text
  resolved project (ok commit) = ok commit
  resolved project (err said) = err (outside (platform.explain project said))

  unfoldable pub commit_of : Project → Request → Option Text → Result Failure Text
  unfolding resolved reference_of
  commit_of project request (some sha) = ok sha
  commit_of project request none =
      resolved project (platform.resolve_head project.repo_url (reference_of request.ref project))

  -- What follows once the commit is known.
  queue_commit : Project → Request → Text → ℕ → ℕ → ℕ → Result Failure Text → Action Deployment
  unfolding new_deployment replace_older
  queue_commit project request short_id id now later (err e) = raise e
  queue_commit project request short_id id now later (ok commit) =
      create 3 (new_deployment project request short_id commit) id now >>>= λ d.
      replace_older request.trigger d later

  -- `id`, `short_id` and the moments of the two statements are arguments.
  pub queue_deploy : Project → Request → Text → ℕ → ℕ → ℕ → Action Deployment
  unfolding commit_of queue_commit
  queue_deploy project request short_id id now later =
      queue_commit project request short_id id now later (commit_of project request request.sha)

  -- `redeploy`
  pub redeploy_commit : Project → Deployment → Text → ℕ → ℕ → ℕ → Action Deployment
  unfolding queue_deploy
  redeploy_commit project d = queue_deploy project (record {
    ref = some d.git_ref;
    sha = some d.git_sha;
    trigger = redeploy;
    message = d.git_message;
    author = d.git_author;
    rolled_back_from = none;
  })

  unfoldable pub remove_containers : List Text → ℕ
  unfolding was_removed
  remove_containers [] = 0
  remove_containers (name ∷ names) = was_removed (platform.remove name) + remove_containers names

  -- The names that `remove_orphans` removes.
  unfoldable pub orphans : List (Text × Text) → List Text → List Text
  unfolding contains
  orphans [] slugs = []
  orphans ((name, slug) ∷ found) slugs =
      let rest = orphans found slugs in
      if not (is_empty slug) && not (contains slugs slug) then name ∷ rest else rest

  -- `delete_project`: the route, the rows, and the containers that carry the project's slug
  pub delete_project : Project → Action ℕ
  unfolding remove_containers delete_rows text_eq
  delete_project project =
      ask_platform (platform.clear_route project.slug)
      >>> (delete_rows project.id
          >>> return (
              remove_containers (
                map (λ (c : Text × Text). c.0)
                  (filter (λ (c : Text × Text). text_eq c.1 project.slug)
                    platform.installation_containers))))

  unfoldable pub remove_orphans : Db → ℕ
  unfolding remove_containers orphans list_all
  remove_orphans db =
      remove_containers
        (orphans platform.installation_containers (map (λ (p : Project). p.slug) (list_all db)))

  -- `if deployment.container_id is None`, and whether the container runs
  unfoldable pub is_gone : Option Text → Bool
  is_gone none = false
  is_gone (some container) = not (platform.is_running container)

  -- What `reconcile` counts: detached containers, and those that served production.
  abbrev pub Counts : Type 0
  Counts = ℕ × ℕ

  unfoldable pub counted : Project → Deployment → Counts → Counts
  counted project d (detached, down) =
      (detached + 1, if same_id project.production_deployment_id d.id then down + 1 else down)

  unfoldable pub detach_each : Project → List Deployment → Counts → Action Counts
  unfolding is_gone counted
  detach_each project [] counts = return counts
  detach_each project (d ∷ ds) counts =
      (if is_gone d.container_id then set_container d.id none else return tt)
      >>> detach_each project ds
          (if is_gone d.container_id then counted project d counts else counts)

  unfoldable pub detach_all : List Project → Counts → Action Counts
  unfolding detach_each
  detach_all [] counts = return counts
  detach_all (p ∷ ps) counts =
      λ db. (detach_each p (list_for_project p.id 50 db) counts >>>= detach_all ps) db

  pub record Report : Type 0 where
    pub detached : ℕ
    pub production_down : ℕ
    pub abandoned : ℕ
    pub orphans_removed : ℕ

  pub reconcile : ℕ → ℕ → Action Report
  unfolding detach_all list_all
  reconcile build_timeout_seconds now db =
      (detach_all (list_all db) (0, 0) >>>= λ (detached, down).
      reclaim_abandoned (build_timeout_seconds + 120) now >>>= λ ds after.
      return
        (record {
          detached = detached;
          production_down = down;
          abandoned = length ds;
          orphans_removed = remove_orphans after;
        })
        after)
        db
