-- ===== src/Deployments/Lost.antt =====
-- What a worker meets whose deployment was taken from it while it worked.
use deploygenus.Models.{is_some}
use deploygenus.Text.{Text}
use deploygenus.Database.{
  Row, Db, Failure, check_violation, Action, ◌>>>◌, row_id, touch, returning, deployments_of,
}
use deploygenus.Database.Statements.{
  update_where-safe, touch-set, update_where-broken, returning-some,
}
use deploygenus.Deployments.{
  within, is_abandoned, abandon, reclaim_abandoned, only_row, update_one, set_built, is_port,
  mark_built, set_cancelled, mark_cancelled,
}
use deploygenus.Base.{
  ◌==◌, ==_iff, Bool-cases, any, In, ok, err, ℕ, ◌≡◌, refl, ap, inl, inr, true, not, ◌&&◌, none,
}

mark_built-unleased :
    (id : ℕ) (image framework : Text) (port now : ℕ) (db : Db) (r : Row)
    → In r db.rows
    → row_id r ≡ id
    → r.leased_by ≡ none
    → mark_built id image framework port now db ≡ (err check_violation, db)
unfolding mark_built update_one set_built
mark_built-unleased id image framework port now db r m e l =
    elim (Bool-cases (not (is_port port) && any (λ x. row_id x == id) db.rows)) [
      | inl out ↦ rw out refl
      | inr within ↦
          rw
            (
              within,
              update_where-broken (λ x. row_id x == id) (set_built image framework port now) db r m
                  ((==_iff (row_id r) id).1 e) (ap is_some l),
            )
            refl
    ]

then-raises :
    {A B : Type 0} (m : Action A) (k : Action B) (db after : Db) (a : A) (e : Failure)
    → m db ≡ (ok a, after)
    → k after ≡ (err e, after)
    → (m >>> k) db ≡ (err e, (m db).1)
then-raises m k db after a e p q = rw p q

-- Once `reclaim_abandoned` has failed a deployment whose worker's lease ran out, that worker's
-- `mark_built` raises the violation of the lease constraint and writes nothing.
pub reclaim_abandoned-mark_built :
    (seconds later id : ℕ) (image framework : Text) (port now : ℕ) (db : Db) (r : Row)
    → In r db.rows
    → row_id r ≡ id
    → is_abandoned seconds later r ≡ true
    → (reclaim_abandoned seconds later >>> mark_built id image framework port now) db
      ≡ (err check_violation, (reclaim_abandoned seconds later db).1)
unfolding reclaim_abandoned abandon
reclaim_abandoned-mark_built seconds later id image framework port now db r m e x =
    let rows = touch (is_abandoned seconds later) (abandon later) db.rows in
    then-raises (reclaim_abandoned seconds later) (mark_built id image framework port now) db
      (record db { rows = rows })
      (deployments_of (returning (is_abandoned seconds later) (abandon later) db.rows))
      check_violation
      (rw
        (
          reclaim_abandoned,
          update_where-safe (is_abandoned seconds later) (abandon later) db (λ _. refl),
        )
        refl)
      (mark_built-unleased id image framework port now (record db { rows = rows }) (abandon later r)
        (touch-set (is_abandoned seconds later) (abandon later) db.rows r m x) e refl)

-- After `mark_cancelled` of a deployment that is there, its worker's `mark_built` raises the
-- violation of the lease constraint and leaves the tables as the cancellation left them.
pub mark_cancelled-mark_built :
    (id later : ℕ) (image framework : Text) (port now : ℕ) (db : Db) (r : Row)
    → In r db.rows
    → row_id r ≡ id
    → (mark_cancelled id later >>> mark_built id image framework port now) db
      ≡ (err check_violation, (mark_cancelled id later db).1)
unfolding mark_cancelled update_one set_cancelled only_row
mark_cancelled-mark_built id later image framework port now db r m e =
    let at : (row_id r == id) ≡ true = (==_iff (row_id r) id).1 e in
    let rows = touch (λ x. row_id x == id) (set_cancelled later) db.rows in
    let (x, xs, found) =
      returning-some (λ x. row_id x == id) (set_cancelled later) db.rows r m at in
    then-raises (mark_cancelled id later) (mark_built id image framework port now) db
      (record db { rows = rows }) x.deployment check_violation
      (rw
        (
          mark_cancelled,
          update_where-safe (λ x. row_id x == id) (set_cancelled later) db (λ _. refl),
          found,
        )
        refl)
      (mark_built-unleased id image framework port now (record db { rows = rows })
        (set_cancelled later r)
        (touch-set (λ x. row_id x == id) (set_cancelled later) db.rows r m at) e refl)
