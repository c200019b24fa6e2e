-- ===== src/Deployments/Claims.antt =====
-- Which deployment a worker claims.
use deploygenus.Database.{Row, Db, Failure, row_id, touch, find_project}
use mathlib.Core.Option.{some-injective}
use deploygenus.Deployments.Queue.{is_queued_exact, In_exact}
use deploygenus.Models.{queued, building, is_queued, Project, Deployment, is_some}
use deploygenus.Text.{Text, text_eq_iff}
use deploygenus.Database.Statements.{update_where-safe, touch-In, touch-set}
use deploygenus.Deployments.{
  production_build, claimable, earlier, precedes, next_claim, claim_row, claim_next,
}
use deploygenus.Base.{
  ◌==◌, ==_iff, Bool-cases, Option-cases, any, In, Result, ok, err, ℕ, ◌≤◌, ◌≡◌, refl, sym, ap, ◌∙◌,
  ◌↔◌, inl, inr, Bool, true, false, Option, none, some, List, arith,
}
use deploygenus.Deployments.Choice.{IsNext, Chosen, next_claim-Chosen}

-- A queued deployment of a project that is there, whose row no other transaction has locked.
pub record IsFree (projects : List Project) (locked : List ℕ) (r : Row) : Type 0 where
  pub waits : r.deployment.status ≡ queued
  pub owner : (p : Project) × (find_project r.deployment.project_id projects ≡ some p)
  pub unlocked : ¬ In (row_id r) locked

-- It builds its project's production branch.
abbrev pub IsProduction : List Project → Row → Type 0
IsProduction projects r =
    (p : Project) × (find_project r.deployment.project_id projects ≡ some p)
    × (r.deployment.git_ref ≡ p.production_branch)

production_build_exact :
    (projects : List Project) (r : Row)
    → (production_build projects r ≡ true) ↔ IsProduction projects r
unfolding production_build
production_build_exact projects r =
    elim (Option-cases (find_project r.deployment.project_id projects)) [
      | inl e ↦ rw (e, production_build) (λ h. cc, λ (p, f, b). cc)
      | inr (q, e) ↦
          rw (e, production_build)
            (
              λ h. (q, refl, (text_eq_iff r.deployment.git_ref q.production_branch).0 h),
              λ (p, f, b).
                  (text_eq_iff r.deployment.git_ref q.production_branch).1
                    (b ∙ ap (λ (x : Project). x.production_branch) (sym (some-injective q p f))),
            )
    ]

some_project : (o : Option Project) → is_some o ≡ true → (p : Project) × (o ≡ some p)
some_project none h = cc
some_project (some p) h = (p, refl)

claimable_exact :
    (projects : List Project) (locked : List ℕ) (r : Row)
    → (claimable projects locked r ≡ true) ↔ IsFree projects locked r
unfolding claimable
claimable_exact projects locked r = (
  λ h. record {
    waits = is_queued_exact r.deployment.status (ground arith);
    owner = some_project (find_project r.deployment.project_id projects) (ground arith);
    unlocked = λ m. let there = (In_exact (row_id r) locked).1 m in ground arith;
  },
  λ k.
      let waits : is_queued r.deployment.status ≡ true = ap is_queued k.waits in
      let owner : is_some (find_project r.deployment.project_id projects) ≡ true =
        ap is_some k.owner.1 in
      elim (Bool-cases (any (λ n. n == row_id r) locked)) [
        | inl e ↦ absurd (k.unlocked ((In_exact (row_id r) locked).0 e))
        | inr e ↦ ground arith
      ],
)

precedes-IsProduction :
    (projects : List Project) (c r : Row)
    → precedes projects c r ≡ false
    → IsProduction projects c
    → IsProduction projects r
unfolding precedes
precedes-IsProduction projects c r h k =
    let at = (production_build_exact projects c).1 k in
    elim (Bool-cases (production_build projects r)) [
      | inl e ↦ (production_build_exact projects r).0 e
      | inr e ↦ absurd (
          outrun (production_build projects c) (production_build projects r) c.deployment.created_at
            r.deployment.created_at at e h)
    ]
  where
    outrun : (a b : Bool) (s t : ℕ) → a ≡ true → b ≡ false → earlier a s b t ≡ false → ⊥
    outrun a b s t p q k = ground arith

precedes_oldest :
    (projects : List Project) (c r : Row)
    → precedes projects c r ≡ false
    → (IsProduction projects r → IsProduction projects c)
    → r.deployment.created_at ≤ c.deployment.created_at
unfolding precedes
precedes_oldest projects c r h k =
    in_order (production_build projects c) (production_build projects r) c.deployment.created_at
      r.deployment.created_at h
      (λ e. (production_build_exact projects c).1 (k ((production_build_exact projects r).0 e)))
  where
    in_order : (a b : Bool) (s t : ℕ) → earlier a s b t ≡ false → (b ≡ true → a ≡ true) → t ≤ s
    in_order true true s t h k = ground arith
    in_order true false s t h k = ground arith
    in_order false false s t h k = ground arith
    in_order false true s t h k = let same : false ≡ true = k refl in cc

-- What a claim of the deployment `d` is: of a free row that no free row should come before, which is
-- then being built under the worker's lease, every row of another id being as it was.
pub record Claimed (worker_id : Text) (locked : List ℕ) (now : ℕ) (db : Db) (d : Deployment)
    (after : Db) : Type 0 where
  pub row : Row
  pub listed : In row db.rows
  pub free : IsFree db.projects locked row
  pub production_first :
      (c : Row)
      → In c db.rows
      → IsFree db.projects locked c
      → IsProduction db.projects c
      → IsProduction db.projects row
  pub oldest_first :
      (c : Row)
      → In c db.rows
      → IsFree db.projects locked c
      → (IsProduction db.projects row → IsProduction db.projects c)
      → row.deployment.created_at ≤ c.deployment.created_at
  pub same_id : d.id ≡ row.deployment.id
  pub status : d.status ≡ building
  pub started : d.started_at ≡ some now
  pub leased :
      (x : Row) × In x after.rows
      × (x.deployment ≡ d)
      × (x.leased_by ≡ some worker_id)
      × (x.leased_at ≡ some now)
  pub others : (c : Row) → In c db.rows → ¬ (c.deployment.id ≡ row.deployment.id) → In c after.rows
  pub projects : after.projects ≡ db.projects

abbrev pub Claims : Text → List ℕ → ℕ → Db → Result Failure (Option Deployment) × Db → Type 0
Claims worker_id locked now db (ok none, after) =
    ((c : Row) → In c db.rows → ¬ IsFree db.projects locked c) × (after ≡ db)
Claims worker_id locked now db (ok (some d), after) = Claimed worker_id locked now db d after
Claims worker_id locked now db (err e, after) = ⊥

IsNext-Claimed :
    (worker_id : Text) (locked : List ℕ) (now : ℕ) (db : Db) (r : Row)
    → IsNext db.projects locked db.rows r
    → Claimed worker_id locked now db
        (claim_row worker_id now r).deployment
        (record db { rows = touch (λ x. row_id x == row_id r) (claim_row worker_id now) db.rows })
unfolding claim_row
IsNext-Claimed worker_id locked now db r h = record {
  row = r;
  listed = h.listed;
  free = (claimable_exact db.projects locked r).0 h.may;
  production_first = λ c m k.
      precedes-IsProduction db.projects c r
        (h.first c m ((claimable_exact db.projects locked c).1 k));
  oldest_first = λ c m k.
      precedes_oldest db.projects c r (h.first c m ((claimable_exact db.projects locked c).1 k));
  same_id = refl;
  status = refl;
  started = refl;
  leased = (
    claim_row worker_id now r,
    touch-set (λ x. row_id x == row_id r) (claim_row worker_id now) db.rows r h.listed
        ((==_iff (row_id r) (row_id r)).1 refl),
    refl,
    refl,
    refl,
  );
  others = λ c m apart.
      touch-In (λ x. row_id x == row_id r) (claim_row worker_id now) db.rows c m
        (elim (Bool-cases (row_id c == row_id r)) [
          | inl e ↦ absurd (apart ((==_iff (row_id c) (row_id r)).0 e))
          | inr e ↦ e
        ]);
  projects = refl;
}

-- `claim_next` never raises. It returns None exactly if no queued deployment of a project that is
-- there is unlocked, and then nothing changes. Otherwise it claims such a deployment, one of a
-- production branch if there is one, and one created no later than any other of its kind: the row
-- becomes `building` from now on with the worker's lease, and every row of another id stays.
pub claim_next-Claims :
    (worker_id : Text) (locked : List ℕ) (now : ℕ) (db : Db)
    → Claims worker_id locked now db (claim_next worker_id locked now db)
unfolding claim_next claim_row
claim_next-Claims worker_id locked now db =
    go (next_claim db.projects locked db.rows) refl (next_claim-Chosen db.projects locked db.rows)
  where
    go :
        (o : Option Row)
        → next_claim db.projects locked db.rows ≡ o
        → Chosen db.projects locked db.rows o
        → Claims worker_id locked now db (claim_next worker_id locked now db)
    go none e h =
        rw (e, claim_next)
          (
            λ c m k. let no = h c m in let yes = (claimable_exact db.projects locked c).1 k in cc,
            refl,
          )
    go (some r) e h =
        rw
          (
            e,
            claim_next,
            update_where-safe (λ x. row_id x == row_id r) (claim_row worker_id now) db (λ x. refl),
          )
          (IsNext-Claimed worker_id locked now db r h)
