-- ===== src/Promotion.antt =====
-- Starting a deployment's container (deploypro/engine/launch.py) and moving production
-- (deploypro/engine/promote.py), as actions on the tables. Git, Docker, the router's files and the
-- health check are a `Host`. Log lines are left out, as in the runs in which writing them raises
-- nothing, and so is `reconcile_workers`, whose errors
-- `promote` catches and which writes none of these tables, and `previews.request`, which never
-- raises.
pub mod Production
use deploygenus.Database.{
  Db, Failure, not_found, already_serving, no_image, Action, ◌>>>=◌, ◌>>>◌, return, raise,
  find_project,
}
use deploygenus.Deployments.{set_container, reclaimable, ensure_promotable, set_production}
use deploygenus.Models.{Project, is_background, Deployment}
use deploygenus.Retention.{image_of, same_id}
use deploygenus.Text.{Text}
use deploygenus.Base.{
  if◌then◌else◌, length, is_empty, Result, ℕ, Bool, not, ◌&&◌, Option, none, some, List, [], ◌∷◌,
}

-- What the engine asks of the machine, and what it answers or raises.
pub record Host : Type 0 where
  pub room : Option Text
  pub checkout : Project → Deployment → Result Failure (Unit {0})
  pub plan : Project → Deployment → Result Failure (Text × ℕ)
  pub build : Project → Deployment → Text → Result Failure (Unit {0})
  pub image_exists : Text → Bool
  pub start : Project → Deployment → Text → Result Failure Text
  pub is_running : Text → Bool
  pub publish : Project → Deployment → Result Failure (Unit {0})
  pub drain : Text → Result Failure (Unit {0})
  pub message : Failure → Text

-- A call of the host, which writes no table.
abbrev pub ask : {A : Type 0} → Result Failure A → Action A
ask r db = (r, db)

-- `project_repo.get`
found_project : Option Project → Action Project
found_project none = raise not_found
found_project (some p) = return p

pub get_project : ℕ → Action Project
unfolding found_project
get_project id db = found_project (find_project id db.projects) db

module _ (host : Host) where
  launch_image : Project → Deployment → Option Text → Action Text
  launch_image project d none = raise no_image
  launch_image project d (some image) =
      if host.image_exists image
      then (ask (host.start project d image) >>>= λ c. set_container d.id (some c) >>> return c)
      else raise no_image

  pub launch : Project → Deployment → Action Text
  unfolding launch_image
  launch project d = launch_image project d (image_of d)

  serve : Project → Deployment → Option Text → Action Text
  serve project d none = launch project d
  serve project d (some c) =
      if not (is_empty c) && host.is_running c then return c else launch project d

  pub ensure_serving : Project → Deployment → Action Text
  unfolding serve
  ensure_serving project d = serve project d d.container_id

  -- `if not deployment.container_id: continue`
  drain_one : Deployment → Option Text → Action Unit
  drain_one d none = return tt
  drain_one d (some c) =
      if is_empty c then return tt else (ask (host.drain c) >>> set_container d.id none)

  drain_each : List Deployment → Action Unit
  unfolding drain_one
  drain_each [] = return tt
  drain_each (d ∷ ds) = drain_one d d.container_id >>> drain_each ds

  protected_ids : Option ℕ → List ℕ → List ℕ
  protected_ids none ids = ids
  protected_ids (some id) ids = id ∷ ids

  stale : Project → List ℕ → Db → List Deployment
  unfolding protected_ids
  stale project protect db =
      reclaimable project.id (if is_background project then 0 else project.keep_warm)
        (protected_ids project.production_deployment_id protect) db

  pub reclaim : Project → List ℕ → Action ℕ
  unfolding drain_each stale
  reclaim project protect db =
      (drain_each (stale project protect db) >>> return (length (stale project protect db))) db

  -- What follows once the routes are written.
  settle : Project → Deployment → Action Deployment
  settle project d =
      set_production project.id (some d.id)
      >>> (get_project project.id >>>= λ p. reclaim p (d.id ∷ []) >>> return d)

  publish_routes : Project → Deployment → Action Unit
  publish_routes project d =
      if is_background project then return tt else ask (host.publish project d)

  pub promote : Project → Deployment → Action Deployment
  unfolding settle publish_routes
  promote project d = ensure_promotable d.id project.id >>>= λ promoted.
      ensure_serving project promoted
      >>> (publish_routes project promoted >>> settle project promoted)

  pub rollback : Project → Deployment → Action Deployment
  rollback project d =
      if same_id project.production_deployment_id d.id
      then raise already_serving
      else promote project d
