-- ===== src/Deployments/Consistency.antt =====
-- The constraints of the table, and that an UPDATE keeps them.
use deploygenus.Text.{text_eq_sym}
use deploygenus.Database.{
  Row, Db, Failure, Action, then_do, ◌>>>=◌, row_id, lease_ok, touch, returning, update_where,
}
use deploygenus.Deployments.{clashes, only_row}
use deploygenus.Base.{
  ◌==◌, if◌then◌else◌, Bool-cases, &&-parts, any, all, Result, ok, err, ℕ, ◌≡◌, refl, ◌∙◌, inl, inr,
  Bool, true, false, List, [], ◌∷◌, arith,
}

-- No two rows have the same id, short id, or number within a project.
unfoldable pub Unclashing : List Row → Type 0
Unclashing [] = Unit
Unclashing (r ∷ rs) = (any (clashes r) rs ≡ false) × Unclashing rs

-- The table's constraints hold.
pub record IsSound (db : Db) : Type 0 where
  pub unique : Unclashing db.rows
  pub leased : all lease_ok db.rows ≡ true

==_sym : (a b : ℕ) → (a == b) ≡ (b == a)
==_sym a b = ground arith

pub clashes_sym : (a b : Row) → clashes a b ≡ clashes b a
unfolding clashes
clashes_sym a b =
    rw
      (
        ==_sym (row_id a) (row_id b),
        text_eq_sym a.deployment.short_id b.deployment.short_id,
        ==_sym a.deployment.project_id b.deployment.project_id,
        ==_sym a.deployment.number b.deployment.number,
      )
      refl

-- The statement's assignments leave alone what the unique constraints read.
abbrev pub KeepsIdentity : (Row → Row) → Type 0
KeepsIdentity f =
    (r : Row)
    → (row_id (f r) ≡ row_id r)
      × ((f r).deployment.short_id ≡ r.deployment.short_id)
      × ((f r).deployment.project_id ≡ r.deployment.project_id)
      × ((f r).deployment.number ≡ r.deployment.number)

module _ (p : Row → Bool) (f : Row → Row) (keeps : KeepsIdentity f) where
  set_one : Row → Row
  set_one r = if p r then f r else r

  set_one-Keeps : KeepsIdentity set_one
  unfolding set_one
  set_one-Keeps r = elim (Bool-cases (p r)) [
    | inl e ↦ rw e (keeps r)
    | inr e ↦ rw e (refl, refl, refl, refl)
  ]

  clashes-set_one : (a b : Row) → clashes (set_one a) (set_one b) ≡ clashes a b
  unfolding clashes
  clashes-set_one a b =
      let (i, s, q, n) = set_one-Keeps a in
      let (j, t, r, m) = set_one-Keeps b in rw (i, s, q, n, j, t, r, m) refl

  any-touch :
      (r : Row) (rs : List Row) → any (clashes (set_one r)) (touch p f rs) ≡ any (clashes r) rs
  unfolding touch set_one
  any-touch r [] = refl
  any-touch r (x ∷ xs) = rw (clashes-set_one r x, any-touch r xs) refl

  Unclashing-touch : (rs : List Row) → Unclashing rs → Unclashing (touch p f rs)
  unfolding touch set_one Unclashing
  Unclashing-touch [] h = tt
  Unclashing-touch (r ∷ rs) h = (any-touch r rs ∙ h.0, Unclashing-touch rs h.1)

  leased-touch :
      (rs : List Row)
      → all lease_ok rs ≡ true
      → all lease_ok (returning p f rs) ≡ true
      → all lease_ok (touch p f rs) ≡ true
  unfolding touch returning
  leased-touch [] h = λ k. refl
  leased-touch (r ∷ rs) h =
      let (a, b) = &&-parts (lease_ok r) (all lease_ok rs) h in
      elim (Bool-cases (p r)) [
        | inl e ↦ rw e (λ k.
            let (c, d) = &&-parts (lease_ok (f r)) (all lease_ok (returning p f rs)) k in
            rw (c, leased-touch rs b d) refl)
        | inr e ↦ rw e (λ k. rw (a, leased-touch rs b k) refl)
      ]

  pub update_where-IsSound : (db : Db) → IsSound db → IsSound (update_where p f db).1
  unfolding update_where
  update_where-IsSound db h = elim (Bool-cases (all lease_ok (returning p f db.rows))) [
    | inr e ↦ rw e h
    | inl e ↦ rw e (record {
      unique = Unclashing-touch db.rows h.unique;
      leased = leased-touch db.rows h.leased e;
    })
  ]

pub then-db :
    {A B : Type 0} (m : Action A) (k : A → Action B) (db : Db)
    → ((a : A) (after : Db) → (k a after).1 ≡ after)
    → ((m >>>= k) db).1 ≡ (m db).1
then-db {A = A} {B = B} m k db h = go (m db)
  where
    go : (x : Result Failure A × Db) → (then_do x.0 k x.1).1 ≡ x.1
    go (ok a, after) = h a after
    go (err e, after) = refl

pub only_row-db : (rs : List Row) (after : Db) → (only_row rs after).1 ≡ after
unfolding only_row
only_row-db [] after = refl
only_row-db (r ∷ rs) after = refl
