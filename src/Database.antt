-- ===== src/Database.antt =====
-- The tables that the engine writes: `deployments` and `projects`, with the constraints of
-- db/migrations/0001_core.sql that the engine's statements can break. A statement is one
-- transaction: it returns its rows and the new tables, or raises and changes nothing. Moments are
-- `now()` in seconds.
pub mod Statements
use deploygenus.Models.{is_in_flight, Project, Deployment, is_some}
use deploygenus.Text.{Text}
use deploygenus.Base.{
  ◌==◌, if◌then◌else◌, all, Result, ok, err, ℕ, Bool, not, ◌||◌, Option, none, some, List, [], ◌∷◌,
  map,
}

-- A row of `deployments`, with the lease that `Deployment` does not carry.
pub record Row : Type 0 where
  pub deployment : Deployment
  pub leased_by : Option Text
  pub leased_at : Option ℕ

pub record Db : Type 0 where
  pub rows : List Row
  pub projects : List Project

-- What a call raises.
pub data Failure : Type 0 where
  not_found : Failure
  wrong_project : Failure
  not_promotable : Failure
  already_serving : Failure
  already_finished : Failure
  already_started : Failure
  check_violation : Failure
  unique_violation : Failure
  foreign_key_violation : Failure
  background_preview : Failure
  no_room : Failure
  no_image : Failure
  outside : Text → Failure

-- An action on the tables that may raise; what was written before a raise stays written.
abbrev pub Action : Type 0 → Type 0
Action A = Db → Result Failure A × Db

abbrev pub then_do : {A B : Type 0} → Result Failure A → (A → Action B) → Db → Result Failure B × Db
then_do (ok a) f db = f a db
then_do (err e) f db = (err e, db)

infixl 5 ◌>>>=◌ ◌>>>◌
abbrev pub ◌>>>=◌ : {A B : Type 0} → Action A → (A → Action B) → Action B
◌>>>=◌ m f db = let (r, db') = m db in then_do r f db'

abbrev pub ◌>>>◌ : {A B : Type 0} → Action A → Action B → Action B
m >>> k = m >>>= λ _. k

abbrev pub return : {A : Type 0} → A → Action A
return a db = (ok a, db)

abbrev pub raise : {A : Type 0} → Failure → Action A
raise e db = (err e, db)

abbrev pub row_id : Row → ℕ
row_id r = r.deployment.id

-- The constraint deployments_lease_matches_status.
abbrev pub lease_ok : Row → Bool
lease_ok r = not (is_in_flight r.deployment.status) || is_some r.leased_by

-- `UPDATE deployments SET ... WHERE ...`
unfoldable pub touch : (Row → Bool) → (Row → Row) → List Row → List Row
touch where_ set_ [] = []
touch where_ set_ (r ∷ rs) = (if where_ r then set_ r else r) ∷ touch where_ set_ rs

-- Its `RETURNING`.
unfoldable pub returning : (Row → Bool) → (Row → Row) → List Row → List Row
returning where_ set_ [] = []
returning where_ set_ (r ∷ rs) =
    let rest = returning where_ set_ rs in if where_ r then set_ r ∷ rest else rest

unfoldable pub update_where : (Row → Bool) → (Row → Row) → Action (List Row)
update_where where_ set_ db =
    if all lease_ok (returning where_ set_ db.rows)
    then (ok (returning where_ set_ db.rows), record db { rows = touch where_ set_ db.rows })
    else (err check_violation, db)

abbrev pub deployments_of : List Row → List Deployment
deployments_of = map (λ (r : Row). r.deployment)

unfoldable pub find_row : ℕ → List Row → Option Row
find_row id [] = none
find_row id (r ∷ rs) = if row_id r == id then some r else find_row id rs

unfoldable pub find_project : ℕ → List Project → Option Project
find_project id [] = none
find_project id (p ∷ ps) = if p.id == id then some p else find_project id ps

-- `UPDATE projects SET production_deployment_id = ... WHERE id = ...`
unfoldable pub point : ℕ → Option ℕ → List Project → List Project
point id target [] = []
point id target (p ∷ ps) =
    (if p.id == id then record p { production_deployment_id = target } else p) ∷ point id target ps
