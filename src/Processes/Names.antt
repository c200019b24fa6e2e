-- ===== src/Processes/Names.antt =====
-- Which container names a project's workers have.
use deploygenus.Dict.{put}
use deploygenus.Dict.Laws.{lookup-put}
use deploygenus.Models.{is_some, Process}
use deploygenus.Naming
use deploygenus.Processes.{Wanted, want_replicas, want_all, is_wanted}
use deploygenus.Text.{Text, text_eq, text_eq_iff}
use deploygenus.Base.{
  ◌==◌, ==_iff, Bool-cases, In, ℕ, zero, suc, ◌<◌, ◌≡◌, refl, sym, ap, ◌∙◌, subst, ◌↔◌, ◌⊎◌, inl,
  inr, true, ◌||◌, List, [], ◌∷◌, arith,
}

-- A replica of the first `n` of a process has the name.
abbrev pub IsReplica : Text → Process → ℕ → Text → Type 0
IsReplica slug p n name = (r : ℕ) × (r < n) × (name ≡ Naming.worker_container_name slug p.name r)

-- A replica of one of the processes has the name.
abbrev pub IsWorker : Text → List Process → Text → Type 0
IsWorker slug ps name = (p : Process) × In p ps × IsReplica slug p p.replicas name

is_wanted-put :
    (key name : Text) (p : Process) (w : Wanted)
    → is_wanted (put key p w) name ≡ (text_eq key name || is_wanted w name)
unfolding is_wanted
is_wanted-put key name p w =
    ap is_some (lookup-put key name p w)
    ∙ elim (Bool-cases (text_eq key name)) [ inl e ↦ rw e refl | inr e ↦ rw e refl ]

is_wanted-replicas :
    (slug : Text) (p : Process) (n : ℕ) (w : Wanted) (name : Text)
    → (is_wanted (want_replicas slug p n w) name ≡ true)
      ↔ (IsReplica slug p n name ⊎ (is_wanted w name ≡ true))
unfolding want_replicas
is_wanted-replicas slug p zero w name =
    (λ h. inr h, elim [ inl (r, below, e) ↦ elim below [ ] | inr h ↦ h ])
is_wanted-replicas slug p (suc n) w name =
    let key = Naming.worker_container_name slug p.name n in
    let (to, from) = is_wanted-replicas slug p n w name in
    let step = is_wanted-put key name p (want_replicas slug p n w) in
    (
      λ h. elim (Bool-cases (text_eq key name)) [
        | inl e ↦ inl (n, omega arith, sym ((text_eq_iff key name).0 e))
        | inr e ↦ elim (to (ground arith)) [
          | inl (r, below, at) ↦ inl (r, omega arith, at)
          | inr k ↦ inr k
        ]
      ],
      elim [
        | inl (r, below, at) ↦ elim (Bool-cases (r == n)) [
          | inl same ↦
              let this : name ≡ key =
                subst (λ k. name ≡ Naming.worker_container_name slug p.name k) ((==_iff r n).0 same)
                  at in
              let equal : text_eq key name ≡ true = (text_eq_iff key name).1 (sym this) in
              ground arith
          | inr other ↦ let kept = from (inl (r, ground arith, at)) in ground arith
        ]
        | inr h ↦ let kept = from (inr h) in ground arith
      ],
    )

is_wanted-want_all :
    (slug : Text) (ps : List Process) (w : Wanted) (name : Text)
    → (is_wanted (want_all slug ps w) name ≡ true)
      ↔ (IsWorker slug ps name ⊎ (is_wanted w name ≡ true))
unfolding want_all
is_wanted-want_all slug [] w name = (λ h. inr h, elim [ inl (p, m, r) ↦ elim m [ ] | inr h ↦ h ])
is_wanted-want_all slug (q ∷ ps) w name =
    let (to, from) = is_wanted-want_all slug ps (want_replicas slug q q.replicas w) name in
    let (here, back) = is_wanted-replicas slug q q.replicas w name in
    (
      λ h. elim (to h) [
        | inl (p, m, r) ↦ inl (p, inr m, r)
        | inr k ↦ elim (here k) [ inl r ↦ inl (q, inl refl, r) | inr j ↦ inr j ]
      ],
      elim [
        | inl (p, m, r) ↦ elim m [
          | inl same ↦
              from (
                inr (back (inl (subst (λ (x : Process). IsReplica slug x x.replicas name) same r))))
          | inr n ↦ from (inl (p, n, r))
        ]
        | inr h ↦ from (inr (back (inr h)))
      ],
    )

-- The names that the loops over the processes collect.
pub is_wanted_exact :
    (slug : Text) (ps : List Process) (name : Text)
    → (is_wanted (want_all slug ps []) name ≡ true) ↔ IsWorker slug ps name
unfolding is_wanted
is_wanted_exact slug ps name =
    let (to, from) = is_wanted-want_all slug ps [] name in
    (λ h. elim (to h) [ inl w ↦ w | inr k ↦ cc ], λ w. from (inl w))
