-- ===== src/Deployments/Steps.antt =====
-- What one statement on deployments leaves true while a deployment is being worked on.
use mathlib.Core.Option.{some-injective}
use deploygenus.Models.{is_ready, is_failed, Project, Deployment}
use deploygenus.Text.{Text}
use deploygenus.Database.{
  Row, Db, Failure, Action, then_do, ◌>>>=◌, return, row_id, lease_ok, touch, returning,
  update_where, find_row,
}
use deploygenus.Database.Statements.{
  update_where-ok, update_where-safe, touch-In, returning-In, touch-set, returning-some,
  update_where-fails, returning-leased,
}
use deploygenus.Deployments.{
  within, get, renew, heartbeat, only_row, update_one, set_built, is_port, mark_built, set_ready,
  mark_ready, set_failed, mark_failed, attach, set_container, ensure_promotable,
}
use deploygenus.Deployments.Consistency.{IsSound, KeepsIdentity, update_where-IsSound}
use deploygenus.Base.{
  ◌==◌, ==_iff, Bool-cases, Option-cases, any, all, In, Result, ok, err, ℕ, ◌≡◌, refl, sym, ap, ◌∙◌,
  subst, inl, inr, Bool, true, not, ◌&&◌, Option, some, List, [], ◌∷◌,
}

-- The constraints hold, the deployment has its row, and the projects are `projects`.
pub record Kept (id : ℕ) (projects : List Project) (db : Db) : Type 0 where
  pub sound : IsSound db
  pub row : Row
  pub listed : In row db.rows
  pub named : row_id row ≡ id
  pub same : db.projects ≡ projects

-- That, after an action, with `Q` of what it returned.
abbrev pub After : {A : Type 0} → ℕ → List Project → (A → Type 0) → Result Failure A × Db → Type 0
After id projects Q (ok a, after) = Kept id projects after × Q a
After id projects Q (err e, after) = Kept id projects after

abbrev pub Triple : {A : Type 0} → ℕ → List Project → (A → Type 0) → Action A → Type 0
Triple id projects Q m = (db : Db) → Kept id projects db → After id projects Q (m db)

-- A row that an UPDATE returns: one that its condition holds of, as it is then written.
abbrev Updated : (Row → Bool) → (Row → Row) → Row → Type 0
Updated p f x = (r : Row) × (p r ≡ true) × (x ≡ f r)

abbrev pub Anything : {A : Type 0} → A → Type 0
Anything a = Unit

find_row-id : (n : ℕ) (rs : List Row) (r : Row) → find_row n rs ≡ some r → r.deployment.id ≡ n
unfolding find_row
find_row-id n [] r = λ h. cc
find_row-id n (x ∷ xs) r = elim (Bool-cases (row_id x == n)) [
  | inl e ↦ rw e (λ h.
      let same : x ≡ r = some-injective x r h in
      ap (λ (y : Row). y.deployment.id) (sym same) ∙ (==_iff (row_id x) n).0 e)
  | inr e ↦ rw e (λ h. find_row-id n xs r h)
]

attach-leased : (container : Option Text) (r : Row) → lease_ok (attach container r) ≡ lease_ok r
unfolding attach
attach-leased container r = refl

module _ (id : ℕ) (projects : List Project) where
  pub Triple-bind :
      {A B : Type 0} (Q : A → Type 0) (R : B → Type 0) (m : Action A) (k : A → Action B)
      → Triple id projects Q m
      → ((a : A) → Q a → Triple id projects R (k a))
      → Triple id projects R (m >>>= k)
  Triple-bind {A = A} Q R m k t s db i = go (m db) (t db i)
    where
      go :
          (x : Result Failure A × Db)
          → After id projects Q x
          → After id projects R (then_do x.0 k x.1)
      go (ok a, after) (j, q) = s a q after j
      go (err e, after) j = j

  pub Triple-answer :
      {A : Type 0} (r : Result Failure A) → Triple id projects Anything (λ db. (r, db))
  Triple-answer (ok a) db i = (i, tt)
  Triple-answer (err e) db i = i

  -- The deployment's row is still there after an UPDATE, whether or not it is among the updated.
  pub touched :
      (p : Row → Bool) (f : Row → Row)
      → KeepsIdentity f
      → (r : Row) (rs : List Row) → In r rs
      → row_id r ≡ id
      → (x : Row) × In x (touch p f rs) × (row_id x ≡ id)
  touched p f keeps r rs m e = elim (Bool-cases (p r)) [
    | inl h ↦ (f r, touch-set p f rs r m h, (keeps r).0 ∙ e)
    | inr h ↦ (r, touch-In p f rs r m h, e)
  ]

  pub update_where-Triple :
      (p : Row → Bool) (f : Row → Row)
      → KeepsIdentity f
      → Triple id projects (λ rs. (x : Row) → In x rs → Updated p f x) (update_where p f)
  update_where-Triple p f keeps db i = elim (Bool-cases (all lease_ok (returning p f db.rows))) [
    | inr e ↦ rw (update_where-fails p f db e) i
    | inl e ↦
        let (moved, there, called) = touched p f keeps i.row db.rows i.listed i.named in
        rw (update_where-ok p f db e) (
          record {
            sound =
                subst (λ (x : Result Failure (List Row) × Db). IsSound x.1)
                  (update_where-ok p f db e) (update_where-IsSound p f keeps db i.sound);
            row = moved;
            listed = there;
            named = called;
            same = i.same;
          },
          λ x m. let (r, k, h, s) = returning-In p f db.rows x m in (r, h, s),
        )
  ]

  statement-Triple :
      {B : Type 0} (Q : B → Type 0) (p : Row → Bool) (f : Row → Row) (k : List Row → Action B)
      → KeepsIdentity f
      → ((rs : List Row) → ((x : Row) → In x rs → Updated p f x) → Triple id projects Q (k rs))
      → Triple id projects Q (update_where p f >>>= k)
  statement-Triple Q p f k keeps h =
      Triple-bind (λ rs. (x : Row) → In x rs → Updated p f x) Q (update_where p f) k
        (update_where-Triple p f keeps) h

  only_row-Triple :
      (Q : Deployment → Type 0) (p : Row → Bool) (f : Row → Row) (rs : List Row)
      → ((r : Row) → p r ≡ true → Q (f r).deployment)
      → ((x : Row) → In x rs → Updated p f x)
      → Triple id projects Q (only_row rs)
  unfolding only_row
  only_row-Triple Q p f [] h g db i = i
  only_row-Triple Q p f (x ∷ xs) h g db i =
      let (r, k, e) = g x (inl refl) in (i, subst (λ (y : Row). Q y.deployment) (sym e) (h r k))

  update_one-Triple :
      (Q : Deployment → Type 0) (n : ℕ) (f : Row → Row)
      → KeepsIdentity f
      → ((r : Row) → r.deployment.id ≡ n → Q (f r).deployment)
      → Triple id projects Q (update_one n f)
  unfolding update_one
  update_one-Triple Q n f keeps h =
      statement-Triple Q (λ r. row_id r == n) f only_row keeps
        (λ rs g.
          only_row-Triple Q (λ r. row_id r == n) f rs (λ r k. h r ((==_iff (row_id r) n).0 k)) g)

  pub heartbeat-Triple : (n now : ℕ) → Triple id projects Anything (heartbeat n now)
  unfolding heartbeat renew
  heartbeat-Triple n now =
      statement-Triple Anything (λ r. row_id r == n) (renew now) (λ _. return tt)
        (λ _. (refl, refl, refl, refl)) (λ _ _ db i. (i, tt))

  pub set_container-Triple :
      (n : ℕ) (container : Option Text) → Triple id projects Anything (set_container n container)
  unfolding set_container attach
  set_container-Triple n container =
      statement-Triple Anything (λ r. row_id r == n) (attach container) (λ _. return tt)
        (λ _. (refl, refl, refl, refl)) (λ _ _ db i. (i, tt))

  set_built-Triple :
      (n : ℕ) (image framework : Text) (port now : ℕ)
      → Triple id projects
          (λ (d : Deployment). d.id ≡ n)
          (update_one n (set_built image framework port now))
  unfolding set_built
  set_built-Triple n image framework port now =
      update_one-Triple (λ (d : Deployment). d.id ≡ n) n (set_built image framework port now)
        (λ _. (refl, refl, refl, refl)) (λ r k. k)

  pub mark_built-Triple :
      (n : ℕ) (image framework : Text) (port now : ℕ)
      → Triple id projects (λ (d : Deployment). d.id ≡ n) (mark_built n image framework port now)
  unfolding mark_built
  mark_built-Triple n image framework port now db i =
      elim (Bool-cases (not (is_port port) && any (λ r. row_id r == n) db.rows)) [
        | inl out ↦ rw out i
        | inr within ↦ rw within (set_built-Triple n image framework port now db i)
      ]

  pub mark_ready-Triple :
      (n : ℕ) (container : Text) (now : ℕ)
      → Triple id projects
          (λ (d : Deployment). (is_ready d.status ≡ true) × (d.id ≡ n))
          (mark_ready n container now)
  unfolding mark_ready set_ready
  mark_ready-Triple n container now =
      update_one-Triple (λ (d : Deployment). (is_ready d.status ≡ true) × (d.id ≡ n)) n
        (set_ready container now) (λ _. (refl, refl, refl, refl)) (λ r k. (refl, k))

  get-Triple : (n : ℕ) → Triple id projects (λ (d : Deployment). d.id ≡ n) (get n)
  unfolding get
  get-Triple n db i = elim (Option-cases (find_row n db.rows)) [
    | inl e ↦ rw (e, get) i
    | inr (r, e) ↦ rw (e, get) (i, find_row-id n db.rows r e)
  ]

  pub ensure_promotable-Triple :
      (n project : ℕ)
      → Triple id projects
          (λ (d : Deployment). (is_ready d.status ≡ true) × (d.id ≡ n))
          (ensure_promotable n project)
  unfolding ensure_promotable
  ensure_promotable-Triple n project =
      Triple-bind (λ (d : Deployment). d.id ≡ n)
        (λ (d : Deployment). (is_ready d.status ≡ true) × (d.id ≡ n)) (get n) _ (get-Triple n)
        (λ d q db i. elim (Bool-cases (d.project_id == project)) [
          | inr e ↦ rw e i
          | inl e ↦
              rw e (elim (Bool-cases (is_ready d.status)) [
                | inr f ↦ rw f i
                | inl f ↦ rw f (i, (f, q))
              ])
        ])

  -- Where the constraints hold, recording a container never fails.
  pub set_container-Succeeds :
      (n : ℕ) (container : Option Text) (db : Db)
      → Kept id projects db
      → (after : Db) × (set_container n container db ≡ (ok tt, after)) × Kept id projects after
  unfolding set_container
  set_container-Succeeds n container db i =
      let done : set_container n container db
          ≡ (ok tt, record db { rows = touch (λ r. row_id r == n) (attach container) db.rows }) =
        rw
          (
            set_container,
            update_where-ok (λ r. row_id r == n) (attach container) db
                (returning-leased (λ r. row_id r == n) (attach container) db.rows
                  (attach-leased container) i.sound.leased),
          )
          refl in
      (
        record db { rows = touch (λ r. row_id r == n) (attach container) db.rows },
        done,
        (subst (After id projects Anything) done (set_container-Triple n container db i)).0,
      )

  -- The deployment's own failure is always recorded.
  pub mark_failed-Records :
      (error : Text) (now : ℕ) (db : Db)
      → Kept id projects db
      → (d : Deployment) × (after : Db) × (mark_failed id error now db ≡ (ok d, after))
        × (is_failed d.status ≡ true)
        × (d.id ≡ id)
        × (after.projects ≡ projects)
  unfolding mark_failed update_one only_row set_failed
  mark_failed-Records error now db i =
      let at : (row_id i.row == id) ≡ true = (==_iff (row_id i.row) id).1 i.named in
      let (x, xs, found) =
        returning-some (λ r. row_id r == id) (set_failed error now) db.rows i.row i.listed at in
      let (r, k, h, s) =
        returning-In (λ r. row_id r == id) (set_failed error now) db.rows x (rw found (inl refl)) in
      (
        x.deployment,
        record db { rows = touch (λ r. row_id r == id) (set_failed error now) db.rows },
        rw
            (
              mark_failed,
              update_where-safe (λ r. row_id r == id) (set_failed error now) db (λ _. refl),
              found,
            )
            refl,
        ap (λ (y : Row). is_failed y.deployment.status) s,
        ap (λ (y : Row). y.deployment.id) s ∙ (==_iff (row_id r) id).0 h,
        i.same,
      )
