-- ===== src/Service/Queueing.antt =====
-- What queueing a deployment leaves (`queue_deploy`).
use deploygenus.Database.{Row, Db, Failure, then_do}
use deploygenus.Deployments.{create, builds_head}
use deploygenus.Deployments.Numbering.{Numbered, Creates, create-Creates}
use deploygenus.Deployments.Queue.{
  superseded_by-itself, IsReplaced, builds_head_exact, superseded_by_exact, Replaced,
  supersede_queued-Replaced,
}
use deploygenus.Models.{
  is_queued, DeploymentTrigger, push, manual, rollback, redeploy, Project, Deployment,
}
use deploygenus.Service.{
  Platform, Request, replace_older, new_deployment, commit_of, queue_commit, queue_deploy,
}
use deploygenus.Text.{Text}
use deploygenus.Base.{
  Bool-cases, In, In-append_left, In-append_right, Result, ok, err, ℕ, ◌<◌, ◌≡◌, refl, sym, ◌∙◌,
  subst, ◌⊎◌, inl, inr, true, false, List,
}

-- What is true once the deployment `d` is queued.
pub record Enqueued (project : Project) (trigger : DeploymentTrigger) (db : Db) (d : Deployment)
    (after : Db) : Type 0 where
  pub row : Row
  pub is_row : row.deployment ≡ d
  pub stored : In row after.rows
  pub waits : is_queued d.status ≡ true
  pub owner : d.project_id ≡ project.id
  pub newest :
      (r : Row)
      → In r db.rows
      → r.deployment.project_id ≡ project.id
      → r.deployment.number < d.number
  pub cause : d.trigger ≡ trigger
  pub replaces :
      (trigger ≡ push) ⊎ (trigger ≡ manual) → (r : Row) → In r after.rows → ¬ IsReplaced d r
  pub spares : (r : Row) → In r db.rows → ¬ IsReplaced d r → In r after.rows
  pub spares_all :
      (trigger ≡ rollback) ⊎ (trigger ≡ redeploy) → (r : Row) → In r db.rows → In r after.rows

abbrev pub Queues : Project → DeploymentTrigger → Db → Result Failure Deployment × Db → Type 0
Queues project trigger db (ok d, after) = Enqueued project trigger db d after
Queues project trigger db (err e, after) = after ≡ db

not_both : (t : DeploymentTrigger) → (t ≡ push) ⊎ (t ≡ manual) → ¬ ((t ≡ rollback) ⊎ (t ≡ redeploy))
not_both push a = elim [ inl e ↦ cc | inr e ↦ cc ]
not_both manual a = elim [ inl e ↦ cc | inr e ↦ cc ]
not_both rollback (inl a) = λ b. cc
not_both rollback (inr a) = λ b. cc
not_both redeploy (inl a) = λ b. cc
not_both redeploy (inr a) = λ b. cc

module _ (project : Project) (request : Request) (short_id commit : Text) (db : Db) (d : Deployment)
    (mid : Db) (n : Numbered (new_deployment project request short_id commit) db d mid) where
  before-In : (r : Row) → In r db.rows → In r mid.rows
  before-In r m = subst (λ (x : Db). In r x.rows) (sym n.appended) (In-append_left r db.rows _ m)

  row-In : In n.row mid.rows
  row-In =
      subst (λ (x : Db). In n.row x.rows) (sym n.appended)
        (In-append_right n.row db.rows _ (inl refl))

  create-Enqueued :
      (trigger : DeploymentTrigger)
      → request.trigger ≡ trigger
      → builds_head trigger ≡ false
      → Enqueued project trigger db d mid
  unfolding new_deployment
  create-Enqueued trigger same plain = record {
    row = n.row;
    is_row = n.returned;
    stored = row-In;
    waits = n.waits;
    owner = n.owner;
    newest = n.above;
    cause = n.cause ∙ same;
    replaces =
        λ heads. let head : builds_head trigger ≡ true = (builds_head_exact trigger).1 heads in cc;
    spares = λ r m h. before-In r m;
    spares_all = λ other r m. before-In r m;
  }

  supersede_queued-Enqueued :
      (trigger : DeploymentTrigger) (later : ℕ) (ds : List Deployment) (after : Db)
      → request.trigger ≡ trigger
      → builds_head trigger ≡ true
      → Replaced d later mid ds after
      → Enqueued project trigger db d after
  unfolding new_deployment
  supersede_queued-Enqueued trigger later ds after same head h = record {
    row = n.row;
    is_row = n.returned;
    stored = h.spares n.row row-In (λ k.
        let itself = superseded_by-itself d n.row n.returned in
        let held = (superseded_by_exact d n.row).1 k in cc);
    waits = n.waits;
    owner = n.owner;
    newest = n.above;
    cause = n.cause ∙ same;
    replaces = λ heads. h.none_left;
    spares = λ r m k. h.spares r (before-In r m) k;
    spares_all = λ other. absurd (not_both trigger ((builds_head_exact trigger).0 head) other);
  }

  replace_older-Queues :
      (trigger : DeploymentTrigger) (later : ℕ)
      → request.trigger ≡ trigger
      → Queues project trigger db (replace_older trigger d later mid)
  unfolding replace_older
  replace_older-Queues trigger later same = elim (Bool-cases (builds_head trigger)) [
    | inl heads ↦ rw heads (
        let (ds, after, h) = supersede_queued-Replaced d later mid in
        rw h.answer (supersede_queued-Enqueued trigger later ds after same heads h))
    | inr plain ↦ rw plain (create-Enqueued trigger same plain)
  ]

module _ (project : Project) (request : Request) (short_id commit : Text) (db : Db)
    (later : ℕ) where
  then-Queues :
      (x : Result Failure Deployment × Db)
      → Creates (new_deployment project request short_id commit) db x
      → Queues project request.trigger db
          (then_do x.0 (λ d. replace_older request.trigger d later) x.1)
  then-Queues (ok d, mid) n =
      replace_older-Queues project request short_id commit db d mid n request.trigger later refl
  then-Queues (err e, after) h = h.1

queue_commit-Queues :
    (platform : Platform) (project : Project) (request : Request) (short_id : Text)
    (id now later : ℕ) (db : Db) (c : Result Failure Text)
    → Queues project request.trigger db
        (queue_commit platform project request short_id id now later c db)
unfolding queue_commit
queue_commit-Queues platform project request short_id id now later db (err e) = refl
queue_commit-Queues platform project request short_id id now later db (ok commit) =
    then-Queues project request short_id commit db later
      (create 3 (new_deployment project request short_id commit) id now db)
      (create-Creates 2 (new_deployment project request short_id commit) id now db)

-- `queue_deploy` either raises and leaves every table as it was, or returns a queued deployment of the
-- project that is in the table, with the requested trigger and a number above that of every deployment
-- the project had. If its trigger is a push or a person's, no older queued push or manual deploy of its
-- branch is left, and every other row stays as it was; a rollback or a redeploy leaves every row as it
-- was.
pub queue_deploy-Queues :
    (platform : Platform) (project : Project) (request : Request) (short_id : Text)
    (id now later : ℕ) (db : Db)
    → Queues project request.trigger db
        (queue_deploy platform project request short_id id now later db)
unfolding queue_deploy
queue_deploy-Queues platform project request short_id id now later db =
    queue_commit-Queues platform project request short_id id now later db
      (commit_of platform project request request.sha)
