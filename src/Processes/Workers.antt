-- ===== src/Processes/Workers.antt =====
-- What `reconcile_workers` brings about.
use mathlib.Core.Option.{some-injective}
use deploygenus.Dict.{lookup}
use deploygenus.Models.{ProcessType, web, worker, cron, Project, Deployment, is_some, Process}
use deploygenus.Retention.{image_of, text_le}
use deploygenus.Retention.Removal.{In-contains}
use deploygenus.Processes.{
  WorkerHost, is_worker, process_by_name, list_long_running, Wanted, want_all, is_wanted,
  item_by_name, drain_each, start_prepared, replace_workers, reconcile_workers,
}
use deploygenus.Processes.Names.{IsReplica, IsWorker, is_wanted_exact}
use deploygenus.Processes.Loops.{Laws, then_call-eq-ok, drain_each-runs, start_each-runs}
use deploygenus.Text.{Text, text_eq, text_eq_iff, contains}
use deploygenus.Base.{
  ◌==◌, if◌then◌else◌, ==_iff, Bool-cases, same_test, length, filter, is_empty, In, In-filter,
  filter-In, sort_by, In-sort_by, sort_by-In, length-sort_by, ok-injective, Result, ok, err, ℕ, ◌≡◌,
  refl, sym, ap, ◌∙◌, inl, inr, true, false, not, ◌&&◌, Option, none, some, List, [], ◌∷◌, arith,
}

pub contains-In : (t : Text) (ts : List Text) → contains ts t ≡ true → In t ts
unfolding contains
contains-In t [] h = cc
contains-In t (u ∷ us) h = elim (Bool-cases (text_eq u t)) [
  | inl e ↦ inl (sym ((text_eq_iff u t).0 e))
  | inr e ↦ inr (contains-In t us (ground arith))
]

contains-sort_by : (t : Text) (ts : List Text) → contains (sort_by text_le ts) t ≡ contains ts t
contains-sort_by t ts =
    same_test (contains (sort_by text_le ts) t) (contains ts t)
      (λ h. In-contains t ts (sort_by-In text_le t ts (contains-In t (sort_by text_le ts) h)))
      (λ h. In-contains t (sort_by text_le ts) (In-sort_by text_le t ts (contains-In t ts h)))

is_wanted-In : (w : Wanted) (m : Text) → is_wanted w m ≡ true → (p : Process) × In (m, p) w
unfolding is_wanted lookup
is_wanted-In [] m = λ h. cc
is_wanted-In ((name, p) ∷ w) m = elim (Bool-cases (text_eq name m)) [
  | inl e ↦ λ h. (p, inl (ap (λ (t : Text). (t, p)) (sym ((text_eq_iff name m).0 e))))
  | inr e ↦ rw e (λ h. let (q, n) = is_wanted-In w m h in (q, inr n))
]

In-is_wanted : (w : Wanted) (m : Text) (p : Process) → In (m, p) w → is_wanted w m ≡ true
unfolding is_wanted lookup
In-is_wanted [] m p n = elim n [ ]
In-is_wanted ((name, q) ∷ w) m p (inl e) =
    rw ((text_eq_iff name m).1 (ap (λ (x : Text × Process). x.0) (sym e)))
In-is_wanted ((name, q) ∷ w) m p (inr n) = elim (Bool-cases (text_eq name m)) [
  | inl e ↦ rw e
  | inr e ↦ rw e (In-is_wanted w m p n)
]

is_wanted-sort_by : (w : Wanted) (m : Text) → is_wanted (sort_by item_by_name w) m ≡ is_wanted w m
is_wanted-sort_by w m =
    same_test (is_wanted (sort_by item_by_name w) m) (is_wanted w m)
      (λ h.
        let (p, n) = is_wanted-In (sort_by item_by_name w) m h in
        In-is_wanted w m p (sort_by-In item_by_name (m, p) w n))
      (λ h.
        let (p, n) = is_wanted-In w m h in
        In-is_wanted (sort_by item_by_name w) m p (In-sort_by item_by_name (m, p) w n))

-- The names that are running and not wanted.
contains-unwanted :
    (w : Wanted) (existing : List Text) (m : Text)
    → contains (sort_by text_le (filter (λ name. not (is_wanted w name)) existing)) m
      ≡ (contains existing m && not (is_wanted w m))
contains-unwanted w existing m =
    let unwanted = λ (name : Text). not (is_wanted w name) in
    contains-sort_by m (filter unwanted existing)
    ∙ same_test (contains (filter unwanted existing) m) (contains existing m && not (is_wanted w m))
        (λ h.
          let (n, e) = filter-In unwanted m existing (contains-In m (filter unwanted existing) h) in
          let there = In-contains m existing n in ground arith)
        (λ h.
          In-contains m (filter unwanted existing)
            (In-filter unwanted m existing (contains-In m existing (ground arith)) (ground arith)))

none_of : (o : Option ℕ) → is_some o ≡ false → o ≡ none
none_of none h = refl
none_of (some n) h = cc

module _ {S : Type 0} (host : WorkerHost S) (runs : S → Text → Option ℕ)
    (laws : Laws host runs) where
  -- Once the unwanted workers are drained, nothing unwanted runs.
  cleared :
      (w : Wanted) (s t : S) (m : Text)
      → drain_each host
          (sort_by text_le (filter (λ name. not (is_wanted w name)) (host.listed s)))
          s
        ≡ (ok tt, t)
      → is_wanted w m ≡ false
      → runs t m ≡ none
  cleared w s t m h unwanted =
      drain_each-runs host runs laws _ s t m h
      ∙ ap (λ b. if b then none else runs s m) (contains-unwanted w (host.listed s) m)
      ∙ elim (Bool-cases (contains (host.listed s) m)) [
        | inl e ↦ rw (e, unwanted) refl
        | inr e ↦ rw e (none_of (runs s m) (sym (laws.seen s m) ∙ e))
      ]

  -- What follows the first loop.
  finished :
      (d : Deployment) (image : Option Text) (prepared : Result Text (Unit {0}))
      (existing : List Text) (w : Wanted) (n : ℕ) (s t : S) (m : Text)
      → (if is_empty w then (ok 0, s) else start_prepared host d image prepared existing w s)
        ≡ (ok n, t)
      → (runs t m ≡ (if is_wanted w m then some d.id else runs s m)) × (n ≡ length w)
  unfolding start_prepared is_wanted
  finished d image prepared existing [] n s t m h = (
    ap (λ (x : Result Text ℕ × S). runs x.1 m) (sym h),
    sym (ok-injective (ap (λ (x : Result Text ℕ × S). x.0) h)),
  )
  finished d none prepared existing (x ∷ w) n s t m h = cc
  finished d (some image) (err raised) existing (x ∷ w) n s t m h = cc
  finished d (some image) (ok done) existing (x ∷ w) n s t m h =
      let (ends, count) =
        start_each-runs host runs laws d.id existing (sort_by item_by_name (x ∷ w)) 0 n s t m h in
      (
        ends ∙ ap (λ b. if b then some d.id else runs s m) (is_wanted-sort_by (x ∷ w) m),
        omega (arith, count, length-sort_by item_by_name (x ∷ w)),
      )

  replace_workers-runs :
      (d : Deployment) (prepared : Result Text (Unit {0})) (w : Wanted) (n : ℕ) (s t : S) (m : Text)
      → replace_workers host d prepared (host.listed s) w s ≡ (ok n, t)
      → (runs t m ≡ (if is_wanted w m then some d.id else none)) × (n ≡ length w)
  unfolding replace_workers
  replace_workers-runs d prepared w n s t m h =
      let gone =
        drain_each host (sort_by text_le (filter (λ name. not (is_wanted w name)) (host.listed s)))
          s in
      let (u, done, rest) = then_call-eq-ok gone _ h in
      let (ends, count) = finished d (image_of d) prepared (host.listed s) w n gone.1 t m rest in
      (
        ends ∙ elim (Bool-cases (is_wanted w m)) [
          | inl e ↦ rw e refl
          | inr e ↦ rw e (cleared w s gone.1 m (ap (λ r. (r, gone.1)) done) e)
        ],
        count,
      )

is_worker_exact : (t : ProcessType) → is_worker t ≡ true → t ≡ worker
is_worker_exact ProcessType.worker h = refl
is_worker_exact web h = cc
is_worker_exact cron h = cc

-- A replica of one of the project's enabled workers in the table has the name.
abbrev pub IsReplicaOf : Project → List Process → Text → Type 0
IsReplicaOf project processes name =
    (p : Process) × In p processes
    × (p.project_id ≡ project.id)
    × (p.type ≡ worker)
    × (p.enabled ≡ true)
    × IsReplica project.slug p p.replicas name

IsWorker-long_running :
    (project : Project) (processes : List Process) (name : Text)
    → IsWorker project.slug (list_long_running project.id processes) name
    → IsReplicaOf project processes name
unfolding list_long_running
IsWorker-long_running project processes name (p, m, replica) =
    let test = λ (q : Process). q.project_id == project.id && is_worker q.type && q.enabled in
    let (k, h) =
      filter-In test p processes (sort_by-In process_by_name p (filter test processes) m) in
    let kind : is_worker p.type ≡ true = ground arith in
    (
      p,
      k,
      (==_iff p.project_id project.id).0 (ground arith),
      is_worker_exact p.type kind,
      ground arith,
      replica,
    )

long_running-IsWorker :
    (project : Project) (processes : List Process) (name : Text)
    → IsReplicaOf project processes name
    → IsWorker project.slug (list_long_running project.id processes) name
unfolding list_long_running
long_running-IsWorker project processes name (p, m, owner, kind, enabled, replica) =
    let test = λ (q : Process). q.project_id == project.id && is_worker q.type && q.enabled in
    let at : (p.project_id == project.id) ≡ true = (==_iff p.project_id project.id).1 owner in
    let of_kind : is_worker p.type ≡ true = ap is_worker kind in
    (
      p,
      In-sort_by process_by_name p (filter test processes)
          (In-filter test p processes m (ground arith)),
      replica,
    )

-- What the abstract view of a project's workers is once they serve the deployment: its container runs
-- under the name of every replica of every enabled worker of the project, and no other does.
pub record Replicated {S : Type 0} (runs : S → Text → Option ℕ) (project : Project)
    (processes : List Process) (d : Deployment) (t : S) : Type 0 where
  pub replicas_run : (name : Text) → IsReplicaOf project processes name → runs t name ≡ some d.id
  pub nothing_else :
      (name : Text) (other : ℕ)
      → runs t name ≡ some other
      → IsReplicaOf project processes name × (other ≡ d.id)

-- Where the adapter's drain and start do what Laws says of them: if `reconcile_workers` returns, then,
-- whatever ran before, exactly the replicas of the project's enabled workers run, each under its own
-- name, and all of them run the deployment.
pub reconcile_workers-Replicated :
    {S : Type 0} (host : WorkerHost S) (runs : S → Text → Option ℕ) (laws : Laws host runs)
    (project : Project) (d : Deployment) (processes : List Process)
    (prepared : Result Text (Unit {0})) (s t : S) (n : ℕ)
    → reconcile_workers host project d processes prepared s ≡ (ok n, t)
    → Replicated runs project processes d t
unfolding reconcile_workers
reconcile_workers-Replicated host runs laws project d processes prepared s t n h =
    let ps = list_long_running project.id processes in
    let w = want_all project.slug ps [] in
    let ends = λ (m : Text). (replace_workers-runs host runs laws d prepared w n s t m h).0 in
    record {
      replicas_run = λ name replica.
          ends name
          ∙ ap (λ b. if b then some d.id else none)
              ((is_wanted_exact project.slug ps name).1
                (long_running-IsWorker project processes name replica));
      nothing_else = λ name other e. elim (Bool-cases (is_wanted w name)) [
        | inl wanted ↦ (
          IsWorker-long_running project processes name
              ((is_wanted_exact project.slug ps name).0 wanted),
          some-injective other d.id
              (sym e ∙ ends name ∙ ap (λ b. if b then some d.id else none) wanted),
        )
        | inr unwanted ↦
            let absent : some other ≡ none =
              sym e ∙ ends name ∙ ap (λ b. if b then some d.id else none) unwanted in
            cc
      ];
    }
