-- ===== src/Deployments/Stoppable.antt =====
-- Which containers `reclaimable` gives up.
use deploygenus.Models.{
  DeploymentStatus, queued, building, deploying, ready, failed, cancelled, is_ready, Deployment,
  is_some,
}
use deploygenus.Text.{Text}
use deploygenus.Database.{Db, deployments_of}
use deploygenus.Retention.{newest_first}
use deploygenus.Retention.Sorting.{
  count_from, newest_first-In, count_from-newest_first, Descends, newest_first-Descends, In-number,
  count_from-pos,
}
use deploygenus.Deployments.{reclaim_candidate, reclaimable}
use deploygenus.Base.{
  ◌==◌, ==_iff, Bool-cases, same_test, drop, filter, any, In, filter-In, ℕ, zero, suc, ◌≤◌, ◌<◌,
  ◌≡◌, refl, ap, subst, ◌↔◌, inl, inr, Bool, true, Option, none, some, List, [], ◌∷◌, arith,
}
use deploygenus.Deployments.Queue.{In-any, any-In}

In-drop : (a : Deployment) (n : ℕ) (ds : List Deployment) → In a (drop n ds) → In a ds
In-drop a zero ds m = m
In-drop a (suc n) [] m = elim m [ ]
In-drop a (suc n) (d ∷ ds) m = inr (In-drop a n ds m)

count_from-drop :
    (a : Deployment) (ds : List Deployment) (keep : ℕ)
    → Descends ds
    → In a (drop keep ds)
    → keep < count_from a.number ds
unfolding count_from
count_from-drop a [] zero s m = elim m [ ]
count_from-drop a [] (suc keep) s m = elim m [ ]
count_from-drop a (d ∷ ds) zero s m = count_from-pos a (d ∷ ds) m
count_from-drop a (d ∷ ds) (suc keep) s m =
    let below : a.number ≤ d.number = In-number a ds d.number s.0 (In-drop a keep ds m) in
    let rest : keep < count_from a.number ds = count_from-drop a ds keep s.1 m in ground arith

-- A ready deployment of the project with a container, which is not protected.
pub record IsStoppable (project : ℕ) (protected : List ℕ) (d : Deployment) : Type 0 where
  pub owner : d.project_id ≡ project
  pub status : d.status ≡ ready
  pub container : (c : Text) × (d.container_id ≡ some c)
  pub unprotected : ¬ In d.id protected

is_ready_exact : (s : DeploymentStatus) → is_ready s ≡ true → s ≡ ready
is_ready_exact queued h = cc
is_ready_exact building h = cc
is_ready_exact deploying h = cc
is_ready_exact ready h = refl
is_ready_exact failed h = cc
is_ready_exact cancelled h = cc

some_of : (o : Option Text) → is_some o ≡ true → (c : Text) × (o ≡ some c)
some_of none h = cc
some_of (some c) h = (c, refl)

pub reclaim_candidate_exact :
    (project : ℕ) (protected : List ℕ) (d : Deployment)
    → (reclaim_candidate project protected d ≡ true) ↔ IsStoppable project protected d
unfolding reclaim_candidate
reclaim_candidate_exact project protected d = (
  λ h. record {
    owner = (==_iff d.project_id project).0 (ground arith);
    status = is_ready_exact d.status (ground arith);
    container = some_of d.container_id (ground arith);
    unprotected = λ m. let there = In-any d.id protected m in ground arith;
  },
  λ k.
      let owner = (==_iff d.project_id project).1 k.owner in
      let status : is_ready d.status ≡ true = ap is_ready k.status in
      let container : is_some d.container_id ≡ true = ap is_some k.container.1 in
      elim (Bool-cases (any (λ n. n == d.id) protected)) [
        | inl e ↦ absurd (k.unprotected (any-In d.id protected e))
        | inr e ↦ ground arith
      ],
)

filter-same :
    (p q : Deployment → Bool) (ds : List Deployment)
    → ((d : Deployment) → p d ≡ q d)
    → filter p ds ≡ filter q ds
unfolding filter
filter-same p q [] h = refl
filter-same p q (d ∷ ds) h = rw (h d, filter-same p q ds h) refl

-- A deployment whose container may be stopped is a ready one of the project with a container that is
-- not protected, and more than `keep` of such deployments, itself counted, are at least as new: they
-- are counted with any test `p` that holds of exactly them.
pub reclaimable-Spares :
    (project keep : ℕ) (protected : List ℕ) (db : Db) (p : Deployment → Bool)
    → ((c : Deployment) → (p c ≡ true) ↔ IsStoppable project protected c)
    → (d : Deployment) → In d (reclaimable project keep protected db)
    → IsStoppable project protected d
      × In d (deployments_of db.rows)
      × (keep < count_from d.number (filter p (deployments_of db.rows)))
unfolding reclaimable
reclaimable-Spares project keep protected db p exact d m =
    let candidate = reclaim_candidate project protected in
    let all_of = filter candidate (deployments_of db.rows) in
    let (k, h) =
      filter-In candidate d (deployments_of db.rows)
        (newest_first-In d all_of (In-drop d keep (newest_first all_of) m)) in
    let same : filter candidate (deployments_of db.rows) ≡ filter p (deployments_of db.rows) =
      filter-same candidate p (deployments_of db.rows) (λ c.
        same_test (candidate c) (p c)
          (λ e. (exact c).1 ((reclaim_candidate_exact project protected c).0 e))
          (λ e. (reclaim_candidate_exact project protected c).1 ((exact c).0 e))) in
    (
      (reclaim_candidate_exact project protected d).0 h,
      k,
      subst (λ ds. keep < count_from d.number ds) same
          (subst (λ n. keep < n) (count_from-newest_first d.number all_of)
            (count_from-drop d (newest_first all_of) keep (newest_first-Descends all_of) m)),
    )
