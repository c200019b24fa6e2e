-- ===== src/Jobs/Runs/Claims.antt =====
-- Which scheduled run a worker claims (`claim_next_run`).
use deploygenus.Jobs.{RunRow, is_pending}
use deploygenus.Jobs.Runs.{
  run_id, touch_runs, run_claimable, choose_run, next_run, start_run, claim_run, claim_next_run,
}
use deploygenus.Models.{
  JobStatus, pending, running, succeeded, job_failed, timed_out, skipped, JobRun,
}
use deploygenus.Deployments.Queue.{In_exact}
use deploygenus.Text.{Text}
use deploygenus.Base.{
  ltb, ◌==◌, ==_iff, Bool-cases, any, In, ℕ, ◌≤◌, ◌≡◌, refl, sym, ap, ◌∙◌, subst, ◌↔◌, inl, inr,
  Bool, true, false, Option, none, some, List, [], ◌∷◌, arith,
}

-- A pending run whose row no other transaction has locked.
pub record IsWaiting (locked : List ℕ) (r : RunRow) : Type 0 where
  pub waits : r.run.status ≡ pending
  pub unlocked : ¬ In r.run.id locked

is_pending_exact : (s : JobStatus) → is_pending s ≡ true → s ≡ pending
is_pending_exact pending h = refl
is_pending_exact running h = cc
is_pending_exact succeeded h = cc
is_pending_exact job_failed h = cc
is_pending_exact timed_out h = cc
is_pending_exact skipped h = cc

run_claimable_exact :
    (locked : List ℕ) (r : RunRow) → (run_claimable locked r ≡ true) ↔ IsWaiting locked r
unfolding run_claimable
run_claimable_exact locked r = (
  λ h. record {
    waits = is_pending_exact r.run.status (ground arith);
    unlocked = λ m. let there = (In_exact (run_id r) locked).1 m in ground arith;
  },
  λ k.
      let waits : is_pending r.run.status ≡ true = ap is_pending k.waits in
      elim (Bool-cases (any (λ n. n == run_id r) locked)) [
        | inl e ↦ absurd (k.unlocked ((In_exact (run_id r) locked).0 e))
        | inr e ↦ ground arith
      ],
)

-- The statement's own choice: a run that it sees, none of a smaller slot being seen.
record IsNext (locked : List ℕ) (rs : List RunRow) (r : RunRow) : Type 0 where
  listed : In r rs
  may : run_claimable locked r ≡ true
  first :
      (c : RunRow)
      → In c rs
      → run_claimable locked c ≡ true
      → r.run.scheduled_for ≤ c.run.scheduled_for

abbrev Chosen : List ℕ → List RunRow → Option RunRow → Type 0
Chosen locked rs (some r) = IsNext locked rs r
Chosen locked rs none = (c : RunRow) → In c rs → run_claimable locked c ≡ false

module _ (locked : List ℕ) (r : RunRow) (rs : List RunRow) where
  first_here :
      ((c : RunRow)
        → In c rs
        → run_claimable locked c ≡ true
        → r.run.scheduled_for ≤ c.run.scheduled_for)
      → run_claimable locked r ≡ true
      → IsNext locked (r ∷ rs) r
  first_here h e = record {
    listed = inl refl;
    may = e;
    first = λ c m q. elim m [
      | inl same ↦
          subst (λ (x : RunRow). r.run.scheduled_for ≤ x.run.scheduled_for) (sym same) (omega arith)
      | inr there ↦ h c there q
    ];
  }

  first_there :
      (b : RunRow)
      → IsNext locked rs b
      → (run_claimable locked r ≡ true → b.run.scheduled_for ≤ r.run.scheduled_for)
      → IsNext locked (r ∷ rs) b
  first_there b h k = record {
    listed = inr h.listed;
    may = h.may;
    first = λ c m q. elim m [
      | inl same ↦
          subst (λ (x : RunRow). b.run.scheduled_for ≤ x.run.scheduled_for) (sym same)
            (k (ap (run_claimable locked) (sym same) ∙ q))
      | inr there ↦ h.first c there q
    ];
  }

  choose_run-Chosen :
      (o : Option RunRow) → Chosen locked rs o → Chosen locked (r ∷ rs) (choose_run locked r o)
  unfolding choose_run
  choose_run-Chosen none h = elim (Bool-cases (run_claimable locked r)) [
    | inl e ↦ rw e (first_here (λ c m q. let no = h c m in cc) e)
    | inr e ↦
        rw e
          (λ c m. elim m [ inl same ↦ ap (run_claimable locked) same ∙ e | inr there ↦ h c there ])
  ]
  choose_run-Chosen (some b) h = elim (Bool-cases (run_claimable locked r)) [
    | inr e ↦ rw e (first_there b h (λ q. cc))
    | inl e ↦ rw e (elim (Bool-cases (ltb b.run.scheduled_for r.run.scheduled_for)) [
      | inl before ↦ rw before (first_there b h (λ _. ground arith))
      | inr after ↦ rw after (first_here (λ c m q. let later = h.first c m q in ground arith) e)
    ])
  ]

next_run-Chosen : (locked : List ℕ) (rs : List RunRow) → Chosen locked rs (next_run locked rs)
unfolding next_run
next_run-Chosen locked [] = λ c m. elim m [ ]
next_run-Chosen locked (r ∷ rs) =
    choose_run-Chosen locked r rs (next_run locked rs) (next_run-Chosen locked rs)

touch_runs-set :
    (p : RunRow → Bool) (f : RunRow → RunRow) (rs : List RunRow) (r : RunRow)
    → In r rs
    → p r ≡ true
    → In (f r) (touch_runs p f rs)
unfolding touch_runs
touch_runs-set p f [] r m h = elim m [ ]
touch_runs-set p f (x ∷ xs) r (inl e) h =
    let at : p x ≡ true = ap p (sym e) ∙ h in rw at (inl (ap f e))
touch_runs-set p f (x ∷ xs) r (inr m) h = inr (touch_runs-set p f xs r m h)

touch_runs-In :
    (p : RunRow → Bool) (f : RunRow → RunRow) (rs : List RunRow) (r : RunRow)
    → In r rs
    → p r ≡ false
    → In r (touch_runs p f rs)
unfolding touch_runs
touch_runs-In p f [] r m h = elim m [ ]
touch_runs-In p f (x ∷ xs) r (inl e) h = let at : p x ≡ false = ap p (sym e) ∙ h in rw at (inl e)
touch_runs-In p f (x ∷ xs) r (inr m) h = inr (touch_runs-In p f xs r m h)

-- What a claim of the run `j` is: of a waiting run with the smallest slot, which then runs under the
-- worker's lease, every run of another id being as it was.
pub record Claimed (worker_id : Text) (locked : List ℕ) (now : ℕ) (rs : List RunRow) (j : JobRun)
    (after : List RunRow) : Type 0 where
  pub row : RunRow
  pub listed : In row rs
  pub waiting : IsWaiting locked row
  pub earliest :
      (c : RunRow) → In c rs → IsWaiting locked c → row.run.scheduled_for ≤ c.run.scheduled_for
  pub same_id : j.id ≡ row.run.id
  pub same_slot : j.scheduled_for ≡ row.run.scheduled_for
  pub status : j.status ≡ running
  pub started : j.started_at ≡ some now
  pub leased :
      (x : RunRow) × In x after
      × (x.run ≡ j)
      × (x.leased_by ≡ some worker_id)
      × (x.leased_at ≡ some now)
  pub others : (c : RunRow) → In c rs → ¬ (c.run.id ≡ row.run.id) → In c after

abbrev pub Claims : Text → List ℕ → ℕ → List RunRow → Option JobRun × List RunRow → Type 0
Claims worker_id locked now rs (none, after) =
    ((c : RunRow) → In c rs → ¬ IsWaiting locked c) × (after ≡ rs)
Claims worker_id locked now rs (some j, after) = Claimed worker_id locked now rs j after

claim_run-Claims :
    (worker_id : Text) (locked : List ℕ) (now : ℕ) (rs : List RunRow) (o : Option RunRow)
    → Chosen locked rs o
    → Claims worker_id locked now rs (claim_run worker_id now o rs)
unfolding claim_run start_run
claim_run-Claims worker_id locked now rs none h =
    (λ c m k. let no = h c m in let yes = (run_claimable_exact locked c).1 k in cc, refl)
claim_run-Claims worker_id locked now rs (some r) h = record {
  row = r;
  listed = h.listed;
  waiting = (run_claimable_exact locked r).0 h.may;
  earliest = λ c m k. h.first c m ((run_claimable_exact locked c).1 k);
  same_id = refl;
  same_slot = refl;
  status = refl;
  started = refl;
  leased = (
    start_run worker_id now r,
    touch_runs-set (λ x. run_id x == run_id r) (start_run worker_id now) rs r h.listed
        ((==_iff (run_id r) (run_id r)).1 refl),
    refl,
    refl,
    refl,
  );
  others = λ c m apart.
      touch_runs-In (λ x. run_id x == run_id r) (start_run worker_id now) rs c m
        (elim (Bool-cases (run_id c == run_id r)) [
          | inl e ↦ absurd (apart ((==_iff (run_id c) (run_id r)).0 e))
          | inr e ↦ e
        ]);
}

-- `claim_next_run` returns None exactly if no pending run is unlocked, and then nothing changes.
-- Otherwise it claims such a run, one with the smallest slot: the run becomes `running` from now on
-- with the worker's lease, so that it is not waiting any more, and every run of another id stays.
pub claim_next_run-Claims :
    (worker_id : Text) (locked : List ℕ) (now : ℕ) (rs : List RunRow)
    → Claims worker_id locked now rs (claim_next_run worker_id locked now rs)
unfolding claim_next_run
claim_next_run-Claims worker_id locked now rs =
    claim_run-Claims worker_id locked now rs (next_run locked rs) (next_run-Chosen locked rs)
