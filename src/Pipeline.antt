-- ===== src/Pipeline.antt =====
-- One deployment from a claimed row to a container (deploypro/engine/pipeline.py). `now` stands for
-- every `now()` of the run. Log lines, whose writing can raise (LogWriter.resume, log.system and
-- flush), are left out: the model is of the runs in which they raise nothing.
pub mod Outcomes
mod Tests
use deploygenus.Database.{
  Db, Failure, background_preview, no_room, Action, ◌>>>=◌, ◌>>>◌, return, raise,
}
use deploygenus.Deployments.{heartbeat, mark_built, mark_ready, mark_failed}
use deploygenus.Models.{Project, is_background, Deployment}
use deploygenus.Naming
use deploygenus.Promotion.{Host, ask, get_project, launch, promote}
use deploygenus.Text.{Text, text_eq}
use deploygenus.Base.{if◌then◌else◌, Result, ok, err, ℕ, Bool, not, ◌&&◌, Option, none, some}

-- `except ... as exc`
handled : {A : Type 0} → Result Failure A × Db → (Failure → Action A) → Result Failure A × Db
handled (ok a, db) handler = (ok a, db)
handled (err e, db) handler = handler e db

-- A background service has no previews.
refuse_preview : Project → Bool → Action Unit
refuse_preview project is_production =
    if is_background project && not is_production then raise background_preview else return tt

check_room : Option Text → Action Unit
check_room none = return tt
check_room (some full) = raise no_room

module _ (host : Host) (now : ℕ) where
  finish : Project → Bool → Deployment → Action Deployment
  finish project is_production d =
      if is_production then (promote host project d >>> return d) else return d

  -- The stages from the built image on.
  start_built : Project → Bool → Deployment → Action Deployment
  unfolding finish
  start_built project is_production d = launch host project d >>>= λ c.
      mark_ready d.id c now >>>= λ made. finish project is_production made

  build_planned : Project → Deployment → Bool → Text × ℕ → Action Deployment
  unfolding start_built
  build_planned project d is_production (framework, port) =
      let tag = Naming.image_tag project.slug d.git_sha in
      heartbeat d.id now
      >>> (ask (host.build project d tag)
          >>> (mark_built d.id tag framework port now >>>= λ made.
              start_built project is_production made))

  deploy : Project → Deployment → Bool → Action Deployment
  unfolding build_planned refuse_preview check_room
  deploy project d is_production =
      refuse_preview project is_production
      >>> (check_room host.room
          >>> (ask (host.checkout project d)
              >>> (heartbeat d.id now
                  >>> (ask (host.plan project d) >>>= λ planned.
                      build_planned project d is_production planned))))

  guarded : Project → Deployment → Action Deployment
  unfolding deploy handled
  guarded project d db =
      handled (deploy project d (text_eq d.git_ref project.production_branch) db)
        (λ e. mark_failed d.id (host.message e) now)

  pub run_deployment : Deployment → Action Deployment
  unfolding guarded
  run_deployment d = get_project d.project_id >>>= λ project. guarded project d
