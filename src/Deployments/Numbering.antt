-- ===== src/Deployments/Numbering.antt =====
-- The numbering of deployments (`create`).
use deploygenus.Models.{is_queued, Deployment, is_some}
use deploygenus.Database.{
  Row, Db, Failure, check_violation, unique_violation, foreign_key_violation, Action, find_project,
}
use deploygenus.Deployments.{
  NewDeployment, highest, new_row, clashes, meets_checks, insert_row, is_unique_violation, on_clash,
  create,
}
use deploygenus.Base.{
  ◌==◌, ==_iff, Bool-cases, any, In, Result, ok, err, ℕ, zero, suc, ◌+◌, ◌≤◌, ◌<◌, ◌≡◌, refl, sym,
  ap, ◌∙◌, subst, ◌⊎◌, inl, inr, true, false, not, ◌&&◌, List, [], ◌∷◌, ◌++◌, arith,
}

highest-Above :
    (project : ℕ) (rs : List Row) (r : Row)
    → In r rs
    → r.deployment.project_id ≡ project
    → r.deployment.number ≤ highest project rs
unfolding highest
highest-Above project [] r m e = elim m [ ]
highest-Above project (x ∷ xs) r (inl s) e =
    let same : r.deployment.number ≡ x.deployment.number =
      ap (λ (y : Row). y.deployment.number) s in
    let at : (x.deployment.project_id == project) ≡ true =
      (==_iff _ project).1 (ap (λ (y : Row). y.deployment.project_id) (sym s) ∙ e) in
    rw at (ground arith)
highest-Above project (x ∷ xs) r (inr m) e =
    let below = highest-Above project xs r m e in ground arith

-- What `create` leaves if it returns `d`.
pub record Numbered (new : NewDeployment) (db : Db) (d : Deployment) (after : Db) : Type 0 where
  pub row : Row
  pub returned : row.deployment ≡ d
  pub appended : after ≡ record db { rows = db.rows ++ (row ∷ []) }
  pub waits : is_queued d.status ≡ true
  pub owner : d.project_id ≡ new.project_id
  pub branch : d.git_ref ≡ new.git_ref
  pub commit : d.git_sha ≡ new.git_sha
  pub cause : d.trigger ≡ new.trigger
  pub above :
      (r : Row)
      → In r db.rows
      → r.deployment.project_id ≡ new.project_id
      → r.deployment.number < d.number

abbrev pub Creates : NewDeployment → Db → Result Failure Deployment × Db → Type 0
Creates new db (ok d, after) = Numbered new db d after
Creates new db (err e, after) =
    ((e ≡ check_violation) ⊎ (e ≡ unique_violation) ⊎ (e ≡ foreign_key_violation)) × (after ≡ db)

above :
    (new : NewDeployment) (id now : ℕ) (db : Db) (r : Row)
    → In r db.rows
    → r.deployment.project_id ≡ new.project_id
    → r.deployment.number
      < (new_row new id (highest new.project_id db.rows + 1) now).deployment.number
unfolding new_row
above new id now db r m s = let below = highest-Above new.project_id db.rows r m s in ground arith

insert_row-Creates :
    (new : NewDeployment) (id now : ℕ) (db : Db) → Creates new db (insert_row new id now db)
unfolding insert_row new_row
insert_row-Creates new id now db =
    let row = new_row new id (highest new.project_id db.rows + 1) now in
    elim (Bool-cases (meets_checks new)) [
      | inr c ↦ rw c (inl refl, refl)
      | inl c ↦ rw c (elim (Bool-cases (any (clashes row) db.rows)) [
        | inl e ↦ rw e (inr (inl refl), refl)
        | inr e ↦ rw e (elim (Bool-cases (is_some (find_project new.project_id db.projects))) [
          | inr f ↦ rw f (inr (inr refl), refl)
          | inl f ↦ rw f (record {
            row = row;
            returned = refl;
            appended = refl;
            waits = refl;
            owner = refl;
            branch = refl;
            commit = refl;
            cause = refl;
            above = λ r m s. above new id now db r m s;
          })
        ])
      ])
    ]

on_clash-Creates :
    (new : NewDeployment) (db : Db) (x : Result Failure Deployment × Db) (attempts : ℕ)
    (again : Action Deployment)
    → Creates new db x
    → ((attempts == 0) ≡ false → Creates new db (again db))
    → Creates new db (on_clash x attempts again)
unfolding on_clash
on_clash-Creates new db (ok d, after) attempts again h k = h
on_clash-Creates new db (err e, after) attempts again (f, g) k =
    elim (Bool-cases (is_unique_violation e && not (attempts == 0))) [
      | inr z ↦ rw z (f, g)
      | inl z ↦ rw z (subst (λ x. Creates new db (again x)) (sym g) (k (ground arith)))
    ]

-- With at least one attempt, `create` either returns a queued deployment of the project, appended to
-- the table, with the given branch, commit and trigger and a number above that of every deployment the
-- project had, or raises the violation of a check, of a unique constraint or of the foreign key and
-- changes nothing.
pub create-Creates :
    (attempts : ℕ) (new : NewDeployment) (id now : ℕ) (db : Db)
    → Creates new db (create (suc attempts) new id now db)
unfolding create
create-Creates zero new id now db =
    on_clash-Creates new db (insert_row new id now db) zero (λ after. create zero new id now after)
      (insert_row-Creates new id now db) (λ h. cc)
create-Creates (suc attempts) new id now db =
    on_clash-Creates new db (insert_row new id now db) (suc attempts)
      (λ after. create (suc attempts) new id now after) (insert_row-Creates new id now db)
      (λ h. create-Creates attempts new id now db)
