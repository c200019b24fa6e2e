-- ===== src/Pipeline/Outcomes.antt =====
-- How a deployment ends.
use mathlib.Core.Option.{some-injective}
use deploygenus.Models.{is_ready, is_failed, Project, is_background, Deployment}
use deploygenus.Text.{Text, text_eq}
use deploygenus.Naming
use deploygenus.Database.{Db, Failure, Action, then_do, ◌>>>=◌, return, find_project, point}
use deploygenus.Deployments.{heartbeat, mark_built, mark_ready, mark_failed}
use deploygenus.Deployments.Steps.{
  Kept, After, Triple, Anything, Triple-answer, heartbeat-Triple, mark_built-Triple,
  mark_ready-Triple, mark_failed-Records,
}
use deploygenus.Promotion.{Host, ask, launch, promote}
use deploygenus.Promotion.Production.{
  get_project-found, DrainsQuietly, launch-Triple, Moves, promote-Moves,
}
use deploygenus.Pipeline.{
  handled, refuse_preview, check_room, finish, start_built, build_planned, deploy, guarded,
  run_deployment,
}
use deploygenus.Base.{
  ◌==◌, ==_iff, Bool-cases, Result, ok, err, ℕ, ◌≡◌, refl, sym, ap, ◌∙◌, ◌⊎◌, inl, inr, Bool, true,
  false, not, ◌&&◌, Option, none, some, List, [], ◌∷◌,
}

find_project-id :
    (id : ℕ) (ps : List Project) (p : Project) → find_project id ps ≡ some p → p.id ≡ id
unfolding find_project
find_project-id id [] p = λ h. cc
find_project-id id (x ∷ xs) p = elim (Bool-cases (x.id == id)) [
  | inl e ↦ rw e (λ h.
      let same : x ≡ p = some-injective x p h in
      ap (λ (y : Project). y.id) (sym same) ∙ (==_iff x.id id).0 e)
  | inr e ↦ rw e (λ h. find_project-id id xs p h)
]

-- The projects once a deployment of the project has become ready.
abbrev pub pointed : Bool → Project → ℕ → List Project → List Project
pointed false project id projects = projects
pointed true project id projects = point project.id (some id) projects

-- A ready deployment, at which production points if it is one of production; or a raise that left
-- production where it was.
abbrev Ends : ℕ → List Project → Project → Bool → Result Failure Deployment × Db → Type 0
Ends id projects project is_production (ok x, after) =
    (x.id ≡ id)
    × (is_ready x.status ≡ true)
    × (after.projects ≡ pointed is_production project id projects)
Ends id projects project is_production (err e, after) = Kept id projects after

finish-Ends :
    (host : Host) (now id : ℕ) (projects : List Project) (project : Project)
    → DrainsQuietly host
    → find_project project.id projects ≡ some project
    → (d : Deployment) → d.id ≡ id
    → is_ready d.status ≡ true
    → (is_production : Bool) (db : Db) → Kept id projects db
    → Ends id projects project is_production (finish host now project is_production d db)
unfolding finish
finish-Ends host now id projects project quiet there d named r false db i = (named, r, i.same)
finish-Ends host now id projects project quiet there d named r true db i =
    go (promote host project d db)
      (promote-Moves host id projects quiet project d project db there i)
  where
    go :
        (x : Result Failure Deployment × Db)
        → Moves id projects project d.id x
        → Ends id projects project true (then_do x.0 (λ _. return d) x.1)
    go (ok y, after) (s, same, k) =
        (named, r, k.same ∙ ap (λ n. point project.id (some n) projects) named)
    go (err e, after) k = k

module _ (host : Host) (now id : ℕ) (projects : List Project) (project : Project)
    (is_production : Bool) where
  Ends-bind :
      {A : Type 0} (Q : A → Type 0) (m : Action A) (k : A → Action Deployment)
      → Triple id projects Q m
      → ((a : A)
          → Q a
          → (db : Db) → Kept id projects db
          → Ends id projects project is_production (k a db))
      → (db : Db) → Kept id projects db
      → Ends id projects project is_production ((m >>>= k) db)
  Ends-bind {A = A} Q m k t s db i = go (m db) (t db i)
    where
      go :
          (x : Result Failure A × Db)
          → After id projects Q x
          → Ends id projects project is_production (then_do x.0 k x.1)
      go (ok a, after) (j, q) = s a q after j
      go (err e, after) j = j

  refuse_preview-Triple : Triple id projects Anything (refuse_preview project is_production)
  unfolding refuse_preview
  refuse_preview-Triple db i = elim (Bool-cases (is_background project && not is_production)) [
    | inl e ↦ rw e i
    | inr e ↦ rw e (i, tt)
  ]

  check_room-Triple : (room : Option Text) → Triple id projects Anything (check_room room)
  unfolding check_room
  check_room-Triple none db i = (i, tt)
  check_room-Triple (some full) db i = i

  module _ (quiet : DrainsQuietly host)
      (there : find_project project.id projects ≡ some project) where
    start_built-Ends :
        (d : Deployment)
        → d.id ≡ id
        → (db : Db) → Kept id projects db
        → Ends id projects project is_production (start_built host now project is_production d db)
    unfolding start_built
    start_built-Ends d named =
        Ends-bind Anything (launch host project d) _ (launch-Triple host id projects project d)
          (λ c _.
            Ends-bind (λ (x : Deployment). (is_ready x.status ≡ true) × (x.id ≡ d.id))
              (mark_ready d.id c now) (finish host now project is_production)
              (mark_ready-Triple id projects d.id c now)
              (λ x (r, e) db i.
                finish-Ends host now id projects project quiet there x (e ∙ named) r is_production
                  db i))

    build_planned-Ends :
        (d : Deployment) (plan : Text × ℕ)
        → d.id ≡ id
        → (db : Db) → Kept id projects db
        → Ends id projects project is_production
            (build_planned host now project d is_production plan db)
    unfolding build_planned
    build_planned-Ends d (framework, port) named =
        let tag = Naming.image_tag project.slug d.git_sha in
        Ends-bind Anything (heartbeat d.id now) _ (heartbeat-Triple id projects d.id now) (λ _ _.
          Ends-bind Anything (ask (host.build project d tag)) _
            (Triple-answer id projects (host.build project d tag))
            (λ _ _.
              Ends-bind (λ (x : Deployment). x.id ≡ d.id) (mark_built d.id tag framework port now)
                (start_built host now project is_production)
                (mark_built-Triple id projects d.id tag framework port now)
                (λ x e. start_built-Ends x (e ∙ named))))

    deploy-Ends :
        (d : Deployment)
        → d.id ≡ id
        → (db : Db) → Kept id projects db
        → Ends id projects project is_production (deploy host now project d is_production db)
    unfolding deploy
    deploy-Ends d named =
        Ends-bind Anything (refuse_preview project is_production) _ refuse_preview-Triple (λ _ _.
          Ends-bind Anything (check_room host.room) _ (check_room-Triple host.room) (λ _ _.
            Ends-bind Anything (ask (host.checkout project d)) _
              (Triple-answer id projects (host.checkout project d))
              (λ _ _.
                Ends-bind Anything (heartbeat d.id now) _ (heartbeat-Triple id projects d.id now)
                  (λ _ _.
                    Ends-bind Anything (ask (host.plan project d))
                      (build_planned host now project d is_production)
                      (Triple-answer id projects (host.plan project d))
                      (λ plan _. build_planned-Ends d plan named)))))

-- How a run ends: the deployment is ready, and production points at it if it is of the production
-- branch; or it is failed, and every project points where it did.
abbrev pub Concludes : ℕ → List Project → Project → Bool → Result Failure Deployment × Db → Type 0
Concludes id projects project is_production (err e, after) = ⊥
Concludes id projects project is_production (ok x, after) =
    (x.id ≡ id)
    × (((is_ready x.status ≡ true) × (after.projects ≡ pointed is_production project id projects))
        ⊎ ((is_failed x.status ≡ true) × (after.projects ≡ projects)))

handled-Concludes :
    (projects : List Project) (project : Project) (is_production : Bool) (id now : ℕ)
    (message : Failure → Text) (x : Result Failure Deployment × Db)
    → Ends id projects project is_production x
    → Concludes id projects project is_production (handled x (λ e. mark_failed id (message e) now))
unfolding handled
handled-Concludes projects project is_production id now message (ok x, after) (named, r, e) =
    (named, inl (r, e))
handled-Concludes projects project is_production id now message (err e, after) k =
    let (d, last, done, f, named, same) = mark_failed-Records id projects (message e) now after k in
    rw done (named, inr (f, same))

-- If draining a container never raises, as writing a log line is taken not to, the deployment has its
-- row, its project is there and the tables satisfy their constraints, `run_deployment` never raises. It
-- returns this very deployment either ready, and then if it is of the production branch production
-- points at it and otherwise production is left alone, or failed, and then every project points where
-- it did.
pub run_deployment-Concludes :
    (host : Host) (now : ℕ) (d : Deployment) (project : Project) (db : Db)
    → DrainsQuietly host
    → find_project d.project_id db.projects ≡ some project
    → Kept d.id db.projects db
    → Concludes d.id db.projects project
        (text_eq d.git_ref project.production_branch)
        (run_deployment host now d db)
unfolding run_deployment guarded
run_deployment-Concludes host now d project db quiet there i =
    let same : project.id ≡ d.project_id = find_project-id d.project_id db.projects project there in
    let found : find_project project.id db.projects ≡ some project =
      ap (λ n. find_project n db.projects) same ∙ there in
    rw (run_deployment, get_project-found d.project_id db project there)
      (handled-Concludes db.projects project (text_eq d.git_ref project.production_branch) d.id now
        host.message (deploy host now project d (text_eq d.git_ref project.production_branch) db)
        (deploy-Ends host now d.id db.projects project (text_eq d.git_ref project.production_branch)
          quiet found d refl db i))
