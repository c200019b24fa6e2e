-- ===== src/Alerts/Strikes.antt =====
-- When a condition is reported.
use deploygenus.Dict.{lookup, removed, put}
use deploygenus.Dict.Laws.{lookup-put, lookup-removed}
use deploygenus.Text.{Text, text_eq, text_eq_refl, text_eq_iff}
use deploygenus.Alerts.{
  Level, critical, resolved, Notice, Watch, holds, is_firing, fire, resolve, needed_strikes,
  Observation, or_zero, strikes_of, struck, cleared, react, observe, observe_all,
}
use deploygenus.Base.{
  leb, ◌==◌, if◌then◌else◌, Bool-cases, ℕ, suc, ◌+◌, ◌≡◌, refl, ap, ◌∙◌, subst, inl, inr, Bool,
  true, false, Option, none, some, List, [], ◌∷◌, ◌++◌, arith,
}

counted : Option Text → ℕ → ℕ
counted none n = 0
counted (some p) n = suc n

-- How many of the latest observations of `key` in a row were problems.
pub trailing : Text → List Observation → ℕ
unfolding counted
trailing key [] = 0
trailing key (o ∷ os) =
    let before = trailing key os in if text_eq o.key key then counted o.problem before else before

message : Text → Text → Level → List (Text × Text) → Notice
message title detail level fields = record {
  title = title;
  detail = detail;
  level = level;
  fields = fields;
}

announced : Option Text → Observation → ℕ → List Notice → List Notice
unfolding message
announced none o n before =
    if leb needed_strikes n
    then before ++ (message o.up_title [] resolved o.fields ∷ [])
    else before
announced (some p) o n before =
    if suc n == needed_strikes
    then before ++ (message o.down_title o.down_detail critical o.fields ∷ [])
    else before

-- The notices that the observations call for: one when the second problem in a row is seen, and one
-- when a condition that had two or more is fine again.
pub expected : List Observation → List Notice
unfolding announced
expected [] = []
expected (o ∷ os) = announced o.problem o (trailing o.key os) (expected os)

firing_same :
    (key k : Text) (w : Watch) (b : Bool)
    → is_firing key w ≡ b
    → is_firing k w ≡ (if text_eq key k then b else is_firing k w)
firing_same key k w b e = elim (Bool-cases (text_eq key k)) [
  | inl p ↦
      let same : key ≡ k = (text_eq_iff key k).0 p in rw p (subst (λ x. is_firing x w ≡ b) same e)
  | inr p ↦ rw p refl
]

holds-choice :
    {A : Type 0} (b : Bool) (o p : Option A)
    → holds (if b then o else p) ≡ (if b then holds o else holds p)
holds-choice true o p = refl
holds-choice false o p = refl

firing-put :
    (key title k : Text) (d : List (Text × Text))
    → holds (lookup k (put key title d)) ≡ (if text_eq key k then true else holds (lookup k d))
firing-put key title k d =
    ap holds (lookup-put key k title d) ∙ holds-choice (text_eq key k) (some title) (lookup k d)

firing-removed :
    (key k : Text) (d : List (Text × Text))
    → holds (lookup k (removed key d)) ≡ (if text_eq key k then false else holds (lookup k d))
firing-removed key k d =
    ap holds (lookup-removed key k d) ∙ holds-choice (text_eq key k) none (lookup k d)

module _ (key : Text) (title detail : Text) (fields : List (Text × Text)) (w : Watch) where
  fire-strikes : (k : Text) → strikes_of k (fire key title detail fields w).1 ≡ strikes_of k w
  unfolding strikes_of fire
  fire-strikes k = elim (Bool-cases (is_firing key w)) [ inl e ↦ rw e refl | inr e ↦ rw e refl ]

  resolve-strikes : (k : Text) → strikes_of k (resolve key title detail fields w).1 ≡ strikes_of k w
  unfolding strikes_of resolve
  resolve-strikes k = elim (Bool-cases (is_firing key w)) [ inl e ↦ rw e refl | inr e ↦ rw e refl ]

  fire-firing :
      (k : Text)
      → is_firing k (fire key title detail fields w).1
        ≡ (if text_eq key k then true else is_firing k w)
  unfolding fire is_firing
  fire-firing k = elim (Bool-cases (is_firing key w)) [
    | inl e ↦ rw (e, fire) (firing_same key k w true e)
    | inr e ↦ rw (e, fire) (firing-put key title k w.firing)
  ]

  resolve-firing :
      (k : Text)
      → is_firing k (resolve key title detail fields w).1
        ≡ (if text_eq key k then false else is_firing k w)
  unfolding resolve is_firing
  resolve-firing k = elim (Bool-cases (is_firing key w)) [
    | inl e ↦ rw (e, resolve) (firing-removed key k w.firing)
    | inr e ↦ rw (e, resolve) (firing_same key k w false e)
  ]

  fire-sent :
      (fire key title detail fields w).1.sent
      ≡ (if is_firing key w then w.sent else w.sent ++ (message title detail critical fields ∷ []))
  unfolding fire message
  fire-sent = elim (Bool-cases (is_firing key w)) [ inl e ↦ rw e refl | inr e ↦ rw e refl ]

  resolve-sent :
      (resolve key title detail fields w).1.sent
      ≡ (if is_firing key w then w.sent ++ (message title detail resolved fields ∷ []) else w.sent)
  unfolding resolve message
  resolve-sent = elim (Bool-cases (is_firing key w)) [ inl e ↦ rw e refl | inr e ↦ rw e refl ]

or_zero-choice :
    (b : Bool) (o p : Option ℕ)
    → or_zero (if b then o else p) ≡ (if b then or_zero o else or_zero p)
or_zero-choice true o p = refl
or_zero-choice false o p = refl

strikes_of-struck :
    (key k : Text) (w : Watch)
    → strikes_of k (struck key w) ≡ (if text_eq key k then strikes_of key w + 1 else strikes_of k w)
unfolding strikes_of struck
strikes_of-struck key k w =
    ap or_zero (lookup-put key k (strikes_of key w + 1) w.strikes)
    ∙ or_zero-choice (text_eq key k) (some (strikes_of key w + 1)) (lookup k w.strikes)

strikes_of-cleared :
    (key k : Text) (w : Watch)
    → strikes_of k (cleared key w) ≡ (if text_eq key k then 0 else strikes_of k w)
unfolding strikes_of cleared
strikes_of-cleared key k w =
    ap or_zero (lookup-removed key k w.strikes)
    ∙ or_zero-choice (text_eq key k) none (lookup k w.strikes)

-- The state that the observations of `key` call for.
abbrev pub Counts : Text → ℕ → Watch → Type 0
Counts key n w = (strikes_of key w ≡ n) × (is_firing key w ≡ leb needed_strikes n)

is_firing-struck : (key k : Text) (w : Watch) → is_firing k (struck key w) ≡ is_firing k w
unfolding is_firing struck
is_firing-struck key k w = refl

is_firing-cleared : (key k : Text) (w : Watch) → is_firing k (cleared key w) ≡ is_firing k w
unfolding is_firing cleared
is_firing-cleared key k w = refl

module _ (o : Observation) (w : Watch) where
  resolve-other :
      (key : Text) (n : ℕ)
      → text_eq o.key key ≡ false
      → Counts key n w
      → Counts key n (resolve o.key o.up_title [] o.fields (cleared o.key w)).1
  resolve-other key n e (h, k) = (
    resolve-strikes o.key o.up_title [] o.fields (cleared o.key w) key
        ∙ (strikes_of-cleared o.key key w ∙ rw e h),
    resolve-firing o.key o.up_title [] o.fields (cleared o.key w) key
        ∙ rw (e, is_firing-cleared o.key key w) k,
  )

  resolve-own : Counts o.key 0 (resolve o.key o.up_title [] o.fields (cleared o.key w)).1
  resolve-own =
      let e = text_eq_refl o.key in
      (
        resolve-strikes o.key o.up_title [] o.fields (cleared o.key w) o.key
            ∙ (strikes_of-cleared o.key o.key w ∙ rw e refl),
        resolve-firing o.key o.up_title [] o.fields (cleared o.key w) o.key ∙ rw e refl,
      )

  struck-other :
      (key : Text) (n : ℕ)
      → text_eq o.key key ≡ false
      → Counts key n w
      → Counts key n (struck o.key w)
  struck-other key n e (h, k) =
      (strikes_of-struck o.key key w ∙ rw e h, is_firing-struck o.key key w ∙ k)

  struck-own : (n : ℕ) → Counts o.key n w → strikes_of o.key (struck o.key w) ≡ suc n
  struck-own n (h, k) = strikes_of-struck o.key o.key w ∙ rw (text_eq_refl o.key, h) (omega arith)

module _ (o : Observation) (w : Watch) (n : ℕ) where
  fire-struck :
      (key : Text)
      → text_eq o.key key ≡ false
      → Counts key n (struck o.key w)
      → Counts key n (fire o.key o.down_title o.down_detail o.fields (struck o.key w)).1
  fire-struck key e (h, k) = (
    fire-strikes o.key o.down_title o.down_detail o.fields (struck o.key w) key ∙ h,
    fire-firing o.key o.down_title o.down_detail o.fields (struck o.key w) key ∙ rw e k,
  )

  react-other :
      (p : Option Text) (key : Text)
      → text_eq o.key key ≡ false
      → Counts key n w
      → Counts key n (react p o w).1
  unfolding react
  react-other none key e h = resolve-other o w key n e h
  react-other (some p) key e h =
      elim (Bool-cases (leb needed_strikes (strikes_of o.key (struck o.key w)))) [
        | inl enough ↦ rw enough (fire-struck key e (struck-other o w key n e h))
        | inr few ↦ rw few (struck-other o w key n e h)
      ]

  below : leb needed_strikes (suc n) ≡ false → leb needed_strikes n ≡ leb needed_strikes (suc n)
  below few = ground arith

  react-own : (p : Option Text) → Counts o.key n w → Counts o.key (counted p n) (react p o w).1
  unfolding react counted
  react-own none h = resolve-own o w
  react-own (some p) h =
      let one = struck-own o w n h in
      elim (Bool-cases (leb needed_strikes (suc n))) [
        | inl enough ↦
            rw (one, enough)
              (
                fire-strikes o.key o.down_title o.down_detail o.fields (struck o.key w) o.key ∙ one,
                fire-firing o.key o.down_title o.down_detail o.fields (struck o.key w) o.key
                    ∙ rw (text_eq_refl o.key) refl,
              )
        | inr few ↦ rw (one, few) (one, is_firing-struck o.key o.key w ∙ (h.1 ∙ (below few ∙ few)))
      ]

-- After any observations, the condition `key` is firing exactly if at least two of the latest
-- observations of it in a row were problems, and its strikes are how many were.
pub observe_all-Counts :
    (os : List Observation) (key : Text) → Counts key (trailing key os) (observe_all os)
unfolding trailing observe is_firing strikes_of lookup
observe_all-Counts [] key = (refl, refl)
observe_all-Counts (o ∷ os) key = elim (Bool-cases (text_eq o.key key)) [
  | inr e ↦
      rw e (
        react-other o (observe_all os) (trailing key os) o.problem key e
          (observe_all-Counts os key))
  | inl e ↦
      let same : o.key ≡ key = (text_eq_iff o.key key).0 e in
      rw e (
        subst
          (λ k. Counts k (counted o.problem (trailing k os)) (react o.problem o (observe_all os)).1)
          same
          (react-own o (observe_all os) (trailing o.key os) o.problem
            (observe_all-Counts os o.key)))
]

cleared-sent : (key : Text) (w : Watch) → (cleared key w).sent ≡ w.sent
unfolding cleared
cleared-sent key w = refl

struck-sent : (key : Text) (w : Watch) → (struck key w).sent ≡ w.sent
unfolding struck
struck-sent key w = refl

once :
    (n : ℕ)
    → leb needed_strikes (suc n) ≡ true
    → (a b : List Notice)
    → (if leb needed_strikes n then a else b) ≡ (if suc n == needed_strikes then b else a)
once n enough a b = ground arith

never : (n : ℕ) → leb needed_strikes (suc n) ≡ false → (suc n == needed_strikes) ≡ false
never n few = ground arith

react-sent :
    (p : Option Text) (o : Observation) (w : Watch) (n : ℕ)
    → Counts o.key n w
    → (react p o w).1.sent ≡ announced p o n w.sent
unfolding react announced
react-sent none o w n h =
    resolve-sent o.key o.up_title [] o.fields (cleared o.key w)
    ∙ rw (is_firing-cleared o.key o.key w, h.1, cleared-sent o.key w) refl
react-sent (some p) o w n h =
    let one = struck-own o w n h in
    elim (Bool-cases (leb needed_strikes (suc n))) [
      | inl enough ↦
          rw (one, enough)
            (fire-sent o.key o.down_title o.down_detail o.fields (struck o.key w)
              ∙ rw (is_firing-struck o.key o.key w, h.1, struck-sent o.key w)
                  (once n enough w.sent (w.sent ++ _)))
      | inr few ↦ rw (one, few, never n few) (struck-sent o.key w)
    ]

-- What a sequence of checks sends through `_record` is, in order, one critical notice each time a
-- condition has its second problem in a row, and one resolved notice each time a condition that had
-- at least two is fine again; `_record` sends nothing else. The checks that send without it are not
-- in the sequence.
pub observe_all-Sends : (os : List Observation) → (observe_all os).sent ≡ expected os
unfolding expected observe
observe_all-Sends [] = refl
observe_all-Sends (o ∷ os) =
    react-sent o.problem o (observe_all os) (trailing o.key os) (observe_all-Counts os o.key)
    ∙ ap (announced o.problem o (trailing o.key os)) (observe_all-Sends os)
