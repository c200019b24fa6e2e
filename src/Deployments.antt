-- ===== src/Deployments.antt =====
-- Deployments and their queue (deploypro/repositories/deployments.py). Each function is one
-- statement of the file; `id`s and `now` are arguments, and `locked` are the rows that other
-- transactions hold locked.
pub mod Choice
pub mod Claims
pub mod Queue
pub mod Stoppable
pub mod Lost
pub mod Steps
mod Tests
pub mod Consistency
pub mod Numbering
pub mod Listing
use deploygenus.Database.{
  Row, Db, Failure, not_found, wrong_project, not_promotable, check_violation, unique_violation,
  foreign_key_violation, outside, Action, ◌>>>=◌, return, raise, row_id, update_where,
  deployments_of, find_row, find_project, point,
}
use deploygenus.Models.{
  queued, building, deploying, ready, failed, cancelled, is_in_flight, is_queued, is_ready,
  DeploymentTrigger, push, manual, Project, Deployment, is_some,
}
use deploygenus.Retention.{newest_first}
use deploygenus.Text.{Text, codes, text_eq, decimal}
use deploygenus.Base.{
  ltb, leb, ◌==◌, if◌then◌else◌, length, take, drop, filter, any, all, Result, ok, err, ℕ, zero,
  suc, ◌+◌, Bool, true, false, not, ◌&&◌, ◌||◌, Option, none, some, List, [], ◌∷◌, ◌++◌,
}

-- What a caller of `create` gives.
pub record NewDeployment : Type 0 where
  pub project_id : ℕ
  pub short_id : Text
  pub git_sha : Text
  pub git_ref : Text
  pub trigger : DeploymentTrigger
  pub git_message : Option Text
  pub git_author : Option Text
  pub rolled_back_from : Option ℕ

-- `COALESCE(MAX(number), 0)` over the project's rows
pub highest : ℕ → List Row → ℕ
highest project [] = 0
highest project (r ∷ rs) =
    let rest = highest project rs in
    if r.deployment.project_id == project
    then (if ltb rest r.deployment.number then r.deployment.number else rest)
    else rest

pub new_row : NewDeployment → ℕ → ℕ → ℕ → Row
new_row new id number now = record {
  deployment = record {
    id = id;
    project_id = new.project_id;
    short_id = new.short_id;
    number = number;
    status = queued;
    trigger = new.trigger;
    git_sha = new.git_sha;
    git_ref = new.git_ref;
    git_message = new.git_message;
    git_author = new.git_author;
    framework = none;
    image_tag = none;
    internal_port = none;
    container_id = none;
    error = none;
    rolled_back_from = new.rolled_back_from;
    created_at = now;
    started_at = none;
    built_at = none;
    ready_at = none;
    finished_at = none;
  };
  leased_by = none;
  leased_at = none;
}

-- UNIQUE of `id`, `short_id` and `(project_id, number)`
unfoldable pub clashes : Row → Row → Bool
clashes a b =
    row_id a == row_id b
    || text_eq a.deployment.short_id b.deployment.short_id
    || a.deployment.project_id == b.deployment.project_id
      && a.deployment.number == b.deployment.number

abbrev within : ℕ → ℕ → ℕ → Bool
within low high c = leb low c && leb c high

abbrev is_hex : ℕ → Bool
is_hex c = within b'0' b'9' c || within b'a' b'f' c

-- `git_sha ~ '^[0-9a-f]{40}$'`
pub is_commit : Text → Bool
is_commit sha = length sha == 40 && all is_hex sha

abbrev is_alphanumeric : ℕ → Bool
is_alphanumeric c = within b'0' b'9' c || within b'a' b'z' c

-- The rest of a label of which `last` is the character before.
label_tail : ℕ → Text → Bool
label_tail last [] = is_alphanumeric last
label_tail last (c ∷ s) =
    let rest = label_tail c s in (is_alphanumeric last || last == b'-') && rest

-- `short_id ~ '^[a-z0-9]([a-z0-9-]{0,61}[a-z0-9])?$'`
pub is_short_id : Text → Bool
unfolding label_tail
is_short_id [] = false
is_short_id (c ∷ s) = is_alphanumeric c && label_tail c s && ltb (length s) 63

-- CHECK of `git_sha` and `short_id`
pub meets_checks : NewDeployment → Bool
unfolding is_commit is_short_id
meets_checks new = is_commit new.git_sha && is_short_id new.short_id

-- The constraints in the order in which an INSERT meets them: CHECK, UNIQUE, and the foreign key.
insert_row : NewDeployment → ℕ → ℕ → Action Deployment
unfolding highest new_row clashes meets_checks
insert_row new id now db =
    let row = new_row new id (highest new.project_id db.rows + 1) now in
    if not (meets_checks new)
    then (err check_violation, db)
    else if any (clashes row) db.rows
    then (err unique_violation, db)
    else if not (is_some (find_project new.project_id db.projects))
    then (err foreign_key_violation, db)
    else (ok row.deployment, record db { rows = db.rows ++ (row ∷ []) })

abbrev pub is_unique_violation : Failure → Bool
is_unique_violation unique_violation = true
is_unique_violation e = false

-- `except UniqueViolation`: the last attempt's is raised, as is any other exception.
on_clash : Result Failure Deployment × Db → ℕ → Action Deployment → Result Failure Deployment × Db
on_clash (ok d, after) attempts again = (ok d, after)
on_clash (err e, after) attempts again =
    if is_unique_violation e && not (attempts == 0) then again after else (err e, after)

-- `create` by the attempts that are left.
pub create : ℕ → NewDeployment → ℕ → ℕ → Action Deployment
unfolding on_clash
create zero new id now db = (err (outside (codes "unreachable")), db)
create (suc attempts) new id now db =
    on_clash (insert_row new id now db) attempts (λ after. create attempts new id now after)

unfoldable pub get : ℕ → Action Deployment
get id db = elim (find_row id db.rows) [
  | some r ↦ (ok r.deployment, db)
  | none ↦ (err not_found, db)
]

pub list_for_project : ℕ → ℕ → Db → List Deployment
list_for_project project limit db =
    take limit
      (newest_first (filter (λ (d : Deployment). d.project_id == project) (deployments_of db.rows)))

-- `d.git_ref = p.production_branch`, for a row whose project is there
pub production_build : List Project → Row → Bool
production_build projects r = elim (find_project r.deployment.project_id projects) [
  | some p ↦ text_eq r.deployment.git_ref p.production_branch
  | none ↦ false
]

-- A row that the inner SELECT of `claim_next` sees.
pub claimable : List Project → List ℕ → Row → Bool
claimable projects locked r =
    is_queued r.deployment.status
    && is_some (find_project r.deployment.project_id projects)
    && not (any (λ n. n == row_id r) locked)

-- `ORDER BY (d.git_ref = p.production_branch) DESC, d.created_at`
abbrev earlier : Bool → ℕ → Bool → ℕ → Bool
earlier true s false t = true
earlier false s true t = false
earlier true s true t = ltb s t
earlier false s false t = ltb s t

pub precedes : List Project → Row → Row → Bool
precedes projects a b =
    earlier (production_build projects a) a.deployment.created_at (production_build projects b)
      b.deployment.created_at

-- The first of a row and the first of the rows behind it.
choose : List Project → List ℕ → Row → Option Row → Option Row
choose projects locked r none = if claimable projects locked r then some r else none
choose projects locked r (some b) =
    if claimable projects locked r
    then (if precedes projects b r then some b else some r)
    else some b

-- `LIMIT 1`
pub next_claim : List Project → List ℕ → List Row → Option Row
unfolding choose
next_claim projects locked [] = none
next_claim projects locked (r ∷ rs) = choose projects locked r (next_claim projects locked rs)

pub claim_row : Text → ℕ → Row → Row
claim_row worker_id now r = record r {
  deployment = record (r.deployment) { status = building; started_at = some now };
  leased_by = some worker_id;
  leased_at = some now;
}

pub claim_next : Text → List ℕ → ℕ → Action (Option Deployment)
unfolding claim_row
claim_next worker_id locked now db = elim (next_claim db.projects locked db.rows) [
  | none ↦ (ok none, db)
  | some r ↦
      ((update_where (λ x. row_id x == row_id r) (claim_row worker_id now) >>>= λ _.
      return (some (claim_row worker_id now r).deployment))
        db)
]

abbrev abandoned_error : Text
abandoned_error =
    codes "The worker building this deployment stopped responding. Nothing was deployed; try again."

-- `leased_at < now() - make_interval(secs => n)`
pub lease_expired : ℕ → ℕ → Row → Bool
lease_expired seconds now r = elim r.leased_at [ none ↦ false | some t ↦ ltb (t + seconds) now ]

-- The rows that `reclaim_abandoned` fails.
pub is_abandoned : ℕ → ℕ → Row → Bool
unfolding lease_expired
is_abandoned seconds now r = is_in_flight r.deployment.status && lease_expired seconds now r

abandon : ℕ → Row → Row
abandon now r = record r {
  deployment = record (r.deployment) {
    status = failed;
    error = some abandoned_error;
    finished_at = some now;
  };
  leased_by = none;
  leased_at = none;
}

pub reclaim_abandoned : ℕ → ℕ → Action (List Deployment)
unfolding abandon
reclaim_abandoned seconds now =
    update_where (is_abandoned seconds now) (abandon now) >>>= λ rs. return (deployments_of rs)

renew : ℕ → Row → Row
renew now r = record r { leased_at = some now }

pub heartbeat : ℕ → ℕ → Action Unit
unfolding renew
heartbeat id now = update_where (λ r. row_id r == id) (renew now) >>>= λ _. return tt

-- `RETURNING` one row, or NotFound
pub only_row : List Row → Action Deployment
only_row [] = raise not_found
only_row (r ∷ rs) = return r.deployment

-- `_update`
update_one : ℕ → (Row → Row) → Action Deployment
unfolding only_row
update_one id set_ = update_where (λ r. row_id r == id) set_ >>>= only_row

set_built : Text → Text → ℕ → ℕ → Row → Row
set_built image framework port now r = record r {
  deployment = record (r.deployment) {
    status = deploying;
    image_tag = some image;
    framework = some framework;
    internal_port = some port;
    built_at = some now;
  };
}

-- CHECK of `internal_port`
abbrev pub is_port : ℕ → Bool
is_port port = ltb 0 port && ltb port 65536

-- A port out of bounds breaks its CHECK in the deployment's row.
pub mark_built : ℕ → Text → Text → ℕ → ℕ → Action Deployment
unfolding update_one set_built
mark_built id image framework port now db =
    if not (is_port port) && any (λ r. row_id r == id) db.rows
    then (err check_violation, db)
    else update_one id (set_built image framework port now) db

set_ready : Text → ℕ → Row → Row
set_ready container now r = record r {
  deployment = record (r.deployment) {
    status = ready;
    container_id = some container;
    error = none;
    ready_at = some now;
    finished_at = some now;
  };
  leased_by = none;
  leased_at = none;
}

pub mark_ready : ℕ → Text → ℕ → Action Deployment
unfolding update_one set_ready
mark_ready id container now = update_one id (set_ready container now)

set_failed : Text → ℕ → Row → Row
set_failed error now r = record r {
  deployment = record (r.deployment) {
    status = failed;
    error = some (take 2000 error);
    finished_at = some now;
  };
  leased_by = none;
  leased_at = none;
}

pub mark_failed : ℕ → Text → ℕ → Action Deployment
unfolding update_one set_failed
mark_failed id error now = update_one id (set_failed error now)

set_cancelled : ℕ → Row → Row
set_cancelled now r = record r {
  deployment = record (r.deployment) { status = cancelled; finished_at = some now };
  leased_by = none;
  leased_at = none;
}

pub mark_cancelled : ℕ → ℕ → Action Deployment
unfolding update_one set_cancelled
mark_cancelled id now = update_one id (set_cancelled now)

abbrev pub builds_head : DeploymentTrigger → Bool
builds_head push = true
builds_head manual = true
builds_head _ = false

pub superseded_by : Deployment → Row → Bool
superseded_by newer r =
    r.deployment.project_id == newer.project_id
    && text_eq r.deployment.git_ref newer.git_ref
    && is_queued r.deployment.status
    && builds_head r.deployment.trigger
    && ltb r.deployment.number newer.number

pub superseded_error : Deployment → Text
superseded_error newer =
    codes "Replaced by #"
    ++ (decimal newer.number
        ++ (codes ", a newer commit on "
            ++ (newer.git_ref ++ codes ", before it started building.")))

superseded : Deployment → ℕ → Row → Row
superseded newer now r = record r {
  deployment = record (r.deployment) {
    status = cancelled;
    finished_at = some now;
    error = some (superseded_error newer);
  };
}

pub supersede_queued : Deployment → ℕ → Action (List Deployment)
unfolding superseded
supersede_queued newer now =
    update_where (superseded_by newer) (superseded newer now) >>>= λ rs. return (deployments_of rs)

attach : Option Text → Row → Row
attach container r = record r { deployment = record (r.deployment) { container_id = container } }

pub set_container : ℕ → Option Text → Action Unit
unfolding attach
set_container id container =
    update_where (λ r. row_id r == id) (attach container) >>>= λ _. return tt

-- The rows that `reclaimable` orders and offsets.
pub reclaim_candidate : ℕ → List ℕ → Deployment → Bool
reclaim_candidate project protected d =
    d.project_id == project
    && is_ready d.status
    && is_some d.container_id
    && not (any (λ n. n == d.id) protected)

pub reclaimable : ℕ → ℕ → List ℕ → Db → List Deployment
unfolding reclaim_candidate
reclaimable project keep protected db =
    drop keep (newest_first (filter (reclaim_candidate project protected) (deployments_of db.rows)))

pub ensure_promotable : ℕ → ℕ → Action Deployment
ensure_promotable id project = get id >>>= λ d.
    if not (d.project_id == project)
    then raise wrong_project
    else if not (is_ready d.status)
    then raise not_promotable
    else return d

-- `set_production` of deploypro/repositories/projects.py
unfoldable pub set_production : ℕ → Option ℕ → Action Unit
set_production project target db =
    (ok tt, record db { projects = point project target db.projects })
