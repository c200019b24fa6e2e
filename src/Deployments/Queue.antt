-- ===== src/Deployments/Queue.antt =====
-- Which queued deployments a newer commit replaces.
use deploygenus.Models.{
  DeploymentStatus, queued, building, deploying, ready, failed, cancelled, is_queued,
  DeploymentTrigger, push, manual, rollback, redeploy, Deployment,
}
use deploygenus.Text.{text_eq_iff}
use deploygenus.Database.{Row, Db, touch, returning, deployments_of}
use deploygenus.Database.Statements.{
  update_where-safe, touch-In, touch-any, update_where-none, returning-In, In-deployments_of,
}
use deploygenus.Deployments.{
  builds_head, superseded_by, superseded_error, superseded, supersede_queued,
}
use deploygenus.Base.{
  ◌==◌, ==_iff, Bool-cases, any, In, ok, ℕ, ◌<◌, ◌≡◌, refl, sym, ap, ◌∙◌, ◌↔◌, ◌⊎◌, inl, inr, Bool,
  true, false, some, List, [], ◌∷◌, arith,
}

superseded-cleared :
    (newer : Deployment) (now : ℕ) (r : Row) → superseded_by newer (superseded newer now r) ≡ false
unfolding superseded_by superseded
superseded-cleared newer now r = ground arith

-- A deployment does not replace itself.
pub superseded_by-itself : (d : Deployment) (r : Row) → r.deployment ≡ d → superseded_by d r ≡ false
unfolding superseded_by
superseded_by-itself d r e =
    let number : r.deployment.number ≡ d.number = ap (λ (x : Deployment). x.number) e in
    ground arith

supersede_queued-computes :
    (newer : Deployment) (now : ℕ) (db : Db)
    → supersede_queued newer now db ≡ (
      ok (deployments_of (returning (superseded_by newer) (superseded newer now) db.rows)),
      record db { rows = touch (superseded_by newer) (superseded newer now) db.rows },
    )
unfolding supersede_queued superseded
supersede_queued-computes newer now db =
    rw (update_where-safe (superseded_by newer) (superseded newer now) db (λ r. refl)) refl

supersede_queued-nothing :
    (newer : Deployment) (now : ℕ) (db : Db)
    → any (superseded_by newer) db.rows ≡ false
    → supersede_queued newer now db ≡ (ok [], db)
unfolding supersede_queued superseded
supersede_queued-nothing newer now db h =
    rw (update_where-none (superseded_by newer) (superseded newer now) db h) refl

superseded-status :
    (newer : Deployment) (now : ℕ) (r : Row) (d : Deployment)
    → d ≡ (superseded newer now r).deployment
    → (d.id ≡ r.deployment.id) × (d.status ≡ cancelled) × (d.error ≡ some (superseded_error newer))
unfolding superseded
superseded-status newer now r d e = rw e (refl, refl, refl)

-- A queued push or manual deploy of the newer deployment's branch, with a smaller number.
pub record IsReplaced (newer : Deployment) (r : Row) : Type 0 where
  pub project : r.deployment.project_id ≡ newer.project_id
  pub branch : r.deployment.git_ref ≡ newer.git_ref
  pub waits : r.deployment.status ≡ queued
  pub cause : (r.deployment.trigger ≡ push) ⊎ (r.deployment.trigger ≡ manual)
  pub older : r.deployment.number < newer.number

pub is_queued_exact : (s : DeploymentStatus) → is_queued s ≡ true → s ≡ queued
is_queued_exact queued h = refl
is_queued_exact building h = cc
is_queued_exact deploying h = cc
is_queued_exact ready h = cc
is_queued_exact failed h = cc
is_queued_exact cancelled h = cc

pub builds_head_exact :
    (t : DeploymentTrigger) → (builds_head t ≡ true) ↔ ((t ≡ push) ⊎ (t ≡ manual))
builds_head_exact push = (λ h. inl refl, λ h. refl)
builds_head_exact manual = (λ h. inr refl, λ h. refl)
builds_head_exact rollback = (λ h. cc, elim [ inl e ↦ cc | inr e ↦ cc ])
builds_head_exact redeploy = (λ h. cc, elim [ inl e ↦ cc | inr e ↦ cc ])

pub superseded_by_exact :
    (newer : Deployment) (r : Row) → (superseded_by newer r ≡ true) ↔ IsReplaced newer r
unfolding superseded_by
superseded_by_exact newer r = (
  λ h. record {
    project = (==_iff r.deployment.project_id newer.project_id).0 (ground arith);
    branch = (text_eq_iff r.deployment.git_ref newer.git_ref).0 (ground arith);
    waits = is_queued_exact r.deployment.status (ground arith);
    cause = (builds_head_exact r.deployment.trigger).0 (ground arith);
    older = ground arith;
  },
  λ k.
      let project = (==_iff r.deployment.project_id newer.project_id).1 k.project in
      let branch = (text_eq_iff r.deployment.git_ref newer.git_ref).1 k.branch in
      let waits : is_queued r.deployment.status ≡ true = ap is_queued k.waits in
      let cause = (builds_head_exact r.deployment.trigger).1 k.cause in
      let older = k.older in ground arith,
)

spared : (newer : Deployment) (r : Row) → ¬ IsReplaced newer r → superseded_by newer r ≡ false
spared newer r k = elim (Bool-cases (superseded_by newer r)) [
  | inl e ↦ absurd (k ((superseded_by_exact newer r).0 e))
  | inr e ↦ e
]

any-false : (p : Row → Bool) (rs : List Row) (r : Row) → any p rs ≡ false → In r rs → p r ≡ false
any-false p [] r h m = elim m [ ]
any-false p (x ∷ xs) r h (inl e) = rw e (ground arith)
any-false p (x ∷ xs) r h (inr m) = any-false p xs r (ground arith) m

-- What is true once the builds that `newer` replaces are cancelled.
pub record Replaced (newer : Deployment) (now : ℕ) (db : Db) (ds : List Deployment) (after : Db)
    : Type 0 where
  pub answer : supersede_queued newer now db ≡ (ok ds, after)
  pub cancels :
      (d : Deployment)
      → In d ds
      → (r : Row) × In r db.rows
        × IsReplaced newer r
        × (d.id ≡ r.deployment.id)
        × (d.status ≡ cancelled)
        × (d.error ≡ some (superseded_error newer))
  pub spares : (r : Row) → In r db.rows → ¬ IsReplaced newer r → In r after.rows
  pub none_left : (r : Row) → In r after.rows → ¬ IsReplaced newer r
  pub again : (later : ℕ) → supersede_queued newer later after ≡ (ok [], after)

-- `supersede_queued` never raises. Each deployment it returns is one of the queued pushes or manual
-- deploys of the newer deployment's branch with a smaller number, now cancelled with the reason;
-- every other row stays as it was, no such deployment is left, and a second call changes nothing.
pub supersede_queued-Replaced :
    (newer : Deployment) (now : ℕ) (db : Db)
    → (ds : List Deployment) × (after : Db) × Replaced newer now db ds after
supersede_queued-Replaced newer now db =
    let rows = touch (superseded_by newer) (superseded newer now) db.rows in
    let clear : any (superseded_by newer) rows ≡ false =
      touch-any (superseded_by newer) (superseded newer now) db.rows
        (superseded-cleared newer now) in
    (
      deployments_of (returning (superseded_by newer) (superseded newer now) db.rows),
      record db { rows = rows },
      record {
        answer = supersede_queued-computes newer now db;
        cancels = λ d m.
            let (x, k, e) = In-deployments_of d _ m in
            let (r, j, h, s) =
              returning-In (superseded_by newer) (superseded newer now) db.rows x k in
            let same : d ≡ (superseded newer now r).deployment =
              e ∙ ap (λ (y : Row). y.deployment) s in
            let (i, st, er) = superseded-status newer now r d same in
            (r, j, (superseded_by_exact newer r).0 h, i, st, er);
        spares = λ r m h.
            touch-In (superseded_by newer) (superseded newer now) db.rows r m (spared newer r h);
        none_left = λ r m k.
            let still = any-false (superseded_by newer) rows r clear m in
            let held = (superseded_by_exact newer r).1 k in cc;
        again = λ later. supersede_queued-nothing newer later (record db { rows = rows }) clear;
      },
    )

pub In-any : (n : ℕ) (ns : List ℕ) → In n ns → any (λ m. m == n) ns ≡ true
In-any n [] m = elim m [ ]
In-any n (x ∷ xs) (inl e) = let at : (x == n) ≡ true = (==_iff x n).1 (sym e) in ground arith
In-any n (x ∷ xs) (inr m) = let rest = In-any n xs m in ground arith

pub any-In : (n : ℕ) (ns : List ℕ) → any (λ m. m == n) ns ≡ true → In n ns
any-In n [] h = cc
any-In n (x ∷ xs) h = elim (Bool-cases (x == n)) [
  | inl e ↦ inl (sym ((==_iff x n).0 e))
  | inr e ↦ inr (any-In n xs (ground arith))
]

pub In_exact : (n : ℕ) (ns : List ℕ) → (any (λ m. m == n) ns ≡ true) ↔ In n ns
In_exact n ns = (any-In n ns, In-any n ns)
