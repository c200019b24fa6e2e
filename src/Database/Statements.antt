-- ===== src/Database/Statements.antt =====
-- What a statement does to the tables.
use deploygenus.Models.{Deployment}
use deploygenus.Database.{
  Row, Db, check_violation, lease_ok, touch, returning, update_where, deployments_of,
}
use deploygenus.Base.{
  Bool-cases, &&-parts, any, all, In, ok, err, ◌≡◌, refl, sym, ap, ◌∙◌, inl, inr, Bool, true, false,
  List, [], ◌∷◌, arith,
}

pub returning-All :
    (q : Row → Bool) (p : Row → Bool) (f : Row → Row) (rs : List Row)
    → ((r : Row) → q (f r) ≡ true)
    → all q (returning p f rs) ≡ true
unfolding returning
returning-All q p f [] h = refl
returning-All q p f (r ∷ rs) h = elim (Bool-cases (p r)) [
  | inl e ↦ rw (e, h r) (returning-All q p f rs h)
  | inr e ↦ rw e (returning-All q p f rs h)
]

-- A statement whose rows keep the lease constraint succeeds.
pub update_where-ok :
    (p : Row → Bool) (f : Row → Row) (db : Db)
    → all lease_ok (returning p f db.rows) ≡ true
    → update_where p f db ≡ (ok (returning p f db.rows), record db { rows = touch p f db.rows })
unfolding update_where
update_where-ok p f db h = rw h refl

pub update_where-safe :
    (p : Row → Bool) (f : Row → Row) (db : Db)
    → ((r : Row) → lease_ok (f r) ≡ true)
    → update_where p f db ≡ (ok (returning p f db.rows), record db { rows = touch p f db.rows })
update_where-safe p f db h = update_where-ok p f db (returning-All lease_ok p f db.rows h)

pub touch-In :
    (p : Row → Bool) (f : Row → Row) (rs : List Row) (r : Row)
    → In r rs
    → p r ≡ false
    → In r (touch p f rs)
unfolding touch
touch-In p f [] r m h = m
touch-In p f (x ∷ xs) r (inl e) h = let px : p x ≡ false = ap p (sym e) ∙ h in rw px (inl e)
touch-In p f (x ∷ xs) r (inr m) h = inr (touch-In p f xs r m h)

pub touch-any :
    (p : Row → Bool) (f : Row → Row) (rs : List Row)
    → ((r : Row) → p (f r) ≡ false)
    → any p (touch p f rs) ≡ false
unfolding touch
touch-any p f [] h = refl
touch-any p f (x ∷ xs) h = elim (Bool-cases (p x)) [
  | inl e ↦ rw (e, h x) (touch-any p f xs h)
  | inr e ↦ rw (e, e) (touch-any p f xs h)
]

-- A statement that finds no row changes nothing.
pub touch-none :
    (p : Row → Bool) (f : Row → Row) (rs : List Row)
    → any p rs ≡ false
    → (touch p f rs ≡ rs) × (returning p f rs ≡ [])
unfolding touch returning
touch-none p f [] h = (refl, refl)
touch-none p f (x ∷ xs) h =
    let px : p x ≡ false = ground arith in
    let rest : any p xs ≡ false = ground arith in
    let (t, r) = touch-none p f xs rest in (rw px (ap (λ l. x ∷ l) t), rw px r)

pub update_where-none :
    (p : Row → Bool) (f : Row → Row) (db : Db)
    → any p db.rows ≡ false
    → update_where p f db ≡ (ok [], db)
unfolding update_where
update_where-none p f db h = let (t, r) = touch-none p f db.rows h in rw (r, t) refl

pub returning-In :
    (p : Row → Bool) (f : Row → Row) (rs : List Row) (x : Row)
    → In x (returning p f rs)
    → (r : Row) × In r rs × (p r ≡ true) × (x ≡ f r)
unfolding returning
returning-In p f [] x = λ m. elim m [ ]
returning-In p f (r ∷ rs) x = elim (Bool-cases (p r)) [
  | inr e ↦ rw e (λ m. let (y, k, h, q) = returning-In p f rs x m in (y, inr k, h, q))
  | inl e ↦ rw e (elim [
    | inl s ↦ (r, inl refl, e, s)
    | inr m ↦ let (y, k, h, q) = returning-In p f rs x m in (y, inr k, h, q)
  ])
]

pub In-deployments_of :
    (d : Deployment) (rs : List Row)
    → In d (deployments_of rs)
    → (r : Row) × In r rs × (d ≡ r.deployment)
In-deployments_of d [] m = elim m [ ]
In-deployments_of d (r ∷ rs) (inl e) = (r, inl refl, e)
In-deployments_of d (r ∷ rs) (inr m) = let (y, k, h) = In-deployments_of d rs m in (y, inr k, h)

pub touch-set :
    (p : Row → Bool) (f : Row → Row) (rs : List Row) (r : Row)
    → In r rs
    → p r ≡ true
    → In (f r) (touch p f rs)
unfolding touch
touch-set p f [] r m h = m
touch-set p f (x ∷ xs) r (inl e) h = let px : p x ≡ true = ap p (sym e) ∙ h in rw px (inl (ap f e))
touch-set p f (x ∷ xs) r (inr m) h = inr (touch-set p f xs r m h)

-- A row that the statement would leave without the lease it needs makes it fail.
pub returning-broken :
    (p : Row → Bool) (f : Row → Row) (rs : List Row) (r : Row)
    → In r rs
    → p r ≡ true
    → lease_ok (f r) ≡ false
    → all lease_ok (returning p f rs) ≡ false
unfolding returning
returning-broken p f [] r m h k = elim m [ ]
returning-broken p f (x ∷ xs) r (inl e) h k =
    let px : p x ≡ true = ap p (sym e) ∙ h in
    let fx : lease_ok (f x) ≡ false = ap (λ y. lease_ok (f y)) (sym e) ∙ k in rw (px, fx)
returning-broken p f (x ∷ xs) r (inr m) h k =
    let rest : all lease_ok (returning p f xs) ≡ false = returning-broken p f xs r m h k in
    elim (Bool-cases (p x)) [ inl e ↦ rw (e, rest) (ground arith) | inr e ↦ rw (e, rest) refl ]

pub update_where-broken :
    (p : Row → Bool) (f : Row → Row) (db : Db) (r : Row)
    → In r db.rows
    → p r ≡ true
    → lease_ok (f r) ≡ false
    → update_where p f db ≡ (err check_violation, db)
unfolding update_where
update_where-broken p f db r m h k = rw (returning-broken p f db.rows r m h k) refl

-- The first row that a statement returns comes from a row of the table.
pub returning-some :
    (p : Row → Bool) (f : Row → Row) (rs : List Row) (r : Row)
    → In r rs
    → p r ≡ true
    → (x : Row) × (xs : List Row) × (returning p f rs ≡ x ∷ xs)
unfolding returning
returning-some p f [] r m h = elim m [ ]
returning-some p f (x ∷ xs) r (inl e) h =
    let px : p x ≡ true = ap p (sym e) ∙ h in rw px (f x, returning p f xs, refl)
returning-some p f (x ∷ xs) r (inr m) h = elim (Bool-cases (p x)) [
  | inl e ↦ rw e (f x, returning p f xs, refl)
  | inr e ↦ rw e (returning-some p f xs r m h)
]

pub update_where-fails :
    (p : Row → Bool) (f : Row → Row) (db : Db)
    → all lease_ok (returning p f db.rows) ≡ false
    → update_where p f db ≡ (err check_violation, db)
unfolding update_where
update_where-fails p f db h = rw h refl

pub returning-leased :
    (p : Row → Bool) (f : Row → Row) (rs : List Row)
    → ((r : Row) → lease_ok (f r) ≡ lease_ok r)
    → all lease_ok rs ≡ true
    → all lease_ok (returning p f rs) ≡ true
unfolding returning
returning-leased p f [] h k = refl
returning-leased p f (r ∷ rs) h k =
    let (a, b) = &&-parts (lease_ok r) (all lease_ok rs) k in
    elim (Bool-cases (p r)) [
      | inl e ↦ rw (e, h r, a) (returning-leased p f rs h b)
      | inr e ↦ rw e (returning-leased p f rs h b)
    ]
