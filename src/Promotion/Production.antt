-- ===== src/Promotion/Production.antt =====
-- Where production points after a promotion.
use deploygenus.Models.{is_ready, Project, is_background, Deployment}
use deploygenus.Text.{Text}
use deploygenus.Retention.{image_of}
use deploygenus.Database.{Db, Failure, Action, then_do, ◌>>>=◌, ◌>>>◌, return, find_project, point}
use deploygenus.Deployments.{set_container, ensure_promotable, set_production}
use deploygenus.Deployments.Steps.{
  Kept, After, Triple, Anything, Triple-bind, Triple-answer, set_container-Triple,
  ensure_promotable-Triple, set_container-Succeeds,
}
use deploygenus.Promotion.{
  Host, ask, found_project, get_project, launch_image, launch, serve, ensure_serving, drain_one,
  drain_each, stale, reclaim, settle, publish_routes, promote,
}
use deploygenus.Base.{
  ◌==◌, Bool-cases, length, is_empty, Result, ok, err, ℕ, ◌≡◌, refl, subst, inl, inr, true, not,
  ◌&&◌, Option, none, some, List, [], ◌∷◌,
}

pub find_project-point :
    (id : ℕ) (target : Option ℕ) (ps : List Project) {p : Project}
    → find_project id ps ≡ some p
    → (q : Project) × (find_project id (point id target ps) ≡ some q)
unfolding find_project point
find_project-point id target [] = λ h. cc
find_project-point id target (x ∷ xs) = elim (Bool-cases (x.id == id)) [
  | inl e ↦ rw (e, e) (λ h. (record x { production_deployment_id = target }, refl))
  | inr e ↦ rw (e, e) (λ h. find_project-point id target xs h)
]

pub get_project-found :
    (id : ℕ) (db : Db) (p : Project)
    → find_project id db.projects ≡ some p
    → get_project id db ≡ (ok p, db)
unfolding get_project found_project
get_project-found id db p h = rw h refl

-- A container that is drained stops without an error.
abbrev pub DrainsQuietly : Host → Type 0
DrainsQuietly host = (c : Text) → host.drain c ≡ ok tt

module _ (host : Host) (id : ℕ) (projects : List Project) where
  launch_image-Triple :
      (project : Project) (d : Deployment) (image : Option Text)
      → Triple id projects Anything (launch_image host project d image)
  unfolding launch_image
  launch_image-Triple project d none db i = i
  launch_image-Triple project d (some image) db i = elim (Bool-cases (host.image_exists image)) [
    | inr e ↦ rw e i
    | inl e ↦ rw e (
        Triple-bind id projects Anything Anything (ask (host.start project d image))
          (λ c. set_container d.id (some c) >>> return c)
          (Triple-answer id projects (host.start project d image))
          (λ c _.
            Triple-bind id projects Anything Anything (set_container d.id (some c)) (λ _. return c)
              (set_container-Triple id projects d.id (some c)) (λ _ _ after j. (j, tt)))
          db i)
  ]

  pub launch-Triple :
      (project : Project) (d : Deployment) → Triple id projects Anything (launch host project d)
  unfolding launch
  launch-Triple project d = launch_image-Triple project d (image_of d)

  serve-Triple :
      (project : Project) (d : Deployment) (container : Option Text)
      → Triple id projects Anything (serve host project d container)
  unfolding serve
  serve-Triple project d none db i = launch-Triple project d db i
  serve-Triple project d (some c) db i = elim (Bool-cases (not (is_empty c) && host.is_running c)) [
    | inl e ↦ rw e (i, tt)
    | inr e ↦ rw e (launch-Triple project d db i)
  ]

  publish_routes-Triple :
      (project : Project) (d : Deployment)
      → Triple id projects Anything (publish_routes host project d)
  unfolding publish_routes
  publish_routes-Triple project d db i = elim (Bool-cases (is_background project)) [
    | inl e ↦ rw e (i, tt)
    | inr e ↦ rw e (Triple-answer id projects (host.publish project d) db i)
  ]

  module _ (quiet : DrainsQuietly host) where
    drain_one-Drains :
        (d : Deployment) (container : Option Text) (db : Db)
        → Kept id projects db
        → (after : Db) × (drain_one host d container db ≡ (ok tt, after)) × Kept id projects after
    unfolding drain_one
    drain_one-Drains d none db i = (db, refl, i)
    drain_one-Drains d (some c) db i = elim (Bool-cases (is_empty c)) [
      | inl e ↦ rw e (db, refl, i)
      | inr e ↦ rw (e, quiet c) (set_container-Succeeds id projects d.id none db i)
    ]

    drain_each-Drains :
        (ds : List Deployment) (db : Db)
        → Kept id projects db
        → (after : Db) × (drain_each host ds db ≡ (ok tt, after)) × Kept id projects after
    unfolding drain_each
    drain_each-Drains [] db i = (db, refl, i)
    drain_each-Drains (d ∷ ds) db i =
        let (mid, e, j) = drain_one-Drains d d.container_id db i in
        let (after, f, k) = drain_each-Drains ds mid j in (after, rw (e, f) refl, k)

    reclaim-Succeeds :
        (project : Project) (protect : List ℕ) (db : Db)
        → Kept id projects db
        → (n : ℕ) × (after : Db) × (reclaim host project protect db ≡ (ok n, after))
          × Kept id projects after
    unfolding reclaim
    reclaim-Succeeds project protect db i =
        let (after, e, j) = drain_each-Drains (stale host project protect db) db i in
        (length (stale host project protect db), after, rw (reclaim, e) refl, j)

-- What a promotion leaves: production at the deployment that was promoted, or where it was.
abbrev pub Moves : ℕ → List Project → Project → ℕ → Result Failure Deployment × Db → Type 0
Moves id projects project target (ok d, after) =
    (is_ready d.status ≡ true)
    × (d.id ≡ target)
    × Kept id (point project.id (some target) projects) after
Moves id projects project target (err e, after) = Kept id projects after

module _ (host : Host) (id : ℕ) (projects : List Project) (quiet : DrainsQuietly host)
    (project : Project) where
  settle-Moves :
      (d : Deployment) (p : Project) (db : Db)
      → is_ready d.status ≡ true
      → find_project project.id projects ≡ some p
      → Kept id projects db
      → Moves id projects project d.id (settle host project d db)
  unfolding settle set_production get_project found_project
  settle-Moves d p db r f i =
      let moved : List Project = point project.id (some d.id) projects in
      let j : Kept id moved (record db { projects = moved }) = record {
        sound = record { unique = i.sound.unique; leased = i.sound.leased };
        row = i.row;
        listed = i.listed;
        named = i.named;
        same = refl;
      } in
      let (q, g) = find_project-point project.id (some d.id) projects f in
      let (n, after, e, k) =
        reclaim-Succeeds host id moved quiet q (d.id ∷ []) (record db { projects = moved }) j in
      rw (i.same, g, e) (r, refl, k)

  Moves-bind :
      {A : Type 0} (Q : A → Type 0) (m : Action A) (k : A → Action Deployment) (db : Db)
      (target : ℕ)
      → Triple id projects Q m
      → Kept id projects db
      → ((a : A) (after : Db)
          → Q a
          → Kept id projects after
          → Moves id projects project target (k a after))
      → Moves id projects project target ((m >>>= k) db)
  Moves-bind {A = A} Q m k db target t i s = go (m db) (t db i)
    where
      go :
          (x : Result Failure A × Db)
          → After id projects Q x
          → Moves id projects project target (then_do x.0 k x.1)
      go (ok a, after) (j, q) = s a after q j
      go (err e, after) j = j

  -- If draining a container never raises and the project is there, `promote` either raises and every
  -- project points where it did, or returns the deployment, which is ready, and the project's
  -- production points at it, the other projects being unchanged.
  pub promote-Moves :
      (d : Deployment) (p : Project) (db : Db)
      → find_project project.id projects ≡ some p
      → Kept id projects db
      → Moves id projects project d.id (promote host project d db)
  unfolding promote ensure_serving
  promote-Moves d p db f i =
      Moves-bind (λ (x : Deployment). (is_ready x.status ≡ true) × (x.id ≡ d.id))
        (ensure_promotable d.id project.id) _ db d.id
        (ensure_promotable-Triple id projects d.id project.id) i
        (λ x one (r, same) j.
          subst
            (λ n. Moves id projects project n (
              (ensure_serving host project x
                  >>> (publish_routes host project x >>> settle host project x))
                one))
            same (serving x one r j))
    where
      serving :
          (x : Deployment) (db : Db)
          → is_ready x.status ≡ true
          → Kept id projects db
          → Moves id projects project x.id (
              (ensure_serving host project x
                  >>> (publish_routes host project x >>> settle host project x))
                db)
      serving x db r i =
          Moves-bind Anything (ensure_serving host project x)
            (λ _. publish_routes host project x >>> settle host project x) db x.id
            (serve-Triple host id projects project x x.container_id) i
            (λ _ two _ k.
              Moves-bind Anything (publish_routes host project x) (λ _. settle host project x) two
                x.id (publish_routes-Triple host id projects project x) k
                (λ _ three _ l. settle-Moves x p three r f l))
