-- ===== src/Jobs/Sweeps.antt =====
-- Sweeping twice is sweeping once, and a slot is written once.
use deploygenus.Models.{cron, Project, Process, JobRun}
use deploygenus.Text.{Text}
use deploygenus.Schedule.Fields.{parse}
use deploygenus.Database.{find_project}
use deploygenus.Schedule.Cron.{CronSchedule, Slot, max_catchup, due_slot}
use deploygenus.Jobs.{
  RunRow, Jobs, SweepError, is_taken, new_run, claim_slot, list_scheduled, owed_slot, enqueue,
  tally, record_slot, sweep_slot, plus_count, after_round, sweep_each, sweep,
}
use deploygenus.Base.{
  Bool-cases, All, In, All-In, Result, ok, err, ℕ, ◌+◌, ◌*◌, ◌≡◌, refl, sym, ap, ◌∙◌, subst, inl,
  inr, true, Option, none, some, List, [], ◌∷◌, ◌++◌, append-nil, append_assoc, arith,
}
use deploygenus.Jobs.Listed.{In-list_scheduled, is_taken-In}

-- The process owes no slot, or its project is there and the slot has its row.
abbrev Settled : List Project → List RunRow → Process → Slot → Type 0
Settled projects rs p (err e) = ⊥
Settled projects rs p (ok none) = Unit
Settled projects rs p (ok (some slot)) =
    (project : Project) × (find_project p.project_id projects ≡ some project)
    × (is_taken p.id slot rs ≡ true)

abbrev AllSettled : List Project → List RunRow → ℕ → List Process → Type 0
AllSettled projects rs now ps = All (λ p. Settled projects rs p (owed_slot p now)) ps

-- Rows are only added.
abbrev Grows : List RunRow → List RunRow → Type 0
Grows rs after = (more : List RunRow) × (after ≡ rs ++ more)

is_taken-append :
    (process slot : ℕ) (rs more : List RunRow)
    → is_taken process slot rs ≡ true
    → is_taken process slot (rs ++ more) ≡ true
unfolding is_taken
is_taken-append process slot [] more h = cc
is_taken-append process slot (r ∷ rs) more h = ground (arith, is_taken-append process slot rs more)

is_taken-new :
    (process slot : ℕ) (rs : List RunRow) (r : RunRow)
    → r.run.process_id ≡ process
    → r.run.scheduled_for ≡ slot
    → is_taken process slot (rs ++ (r ∷ [])) ≡ true
unfolding is_taken
is_taken-new process slot [] r e f = ground arith
is_taken-new process slot (x ∷ xs) r e f = ground (arith, is_taken-new process slot xs r e f)

Settled-append :
    (projects : List Project) (rs after : List RunRow) (p : Process) (o : Slot)
    → Grows rs after
    → Settled projects rs p o
    → Settled projects after p o
Settled-append projects rs after p (err e) g h = h
Settled-append projects rs after p (ok none) g h = h
Settled-append projects rs after p (ok (some slot)) (more, e) (project, f, t) =
    (project, f, rw e (is_taken-append p.id slot rs more t))

claim_slot-Settles :
    (p : Process) (project : Project) (slot id now : ℕ) (rs : List RunRow)
    → Grows rs (enqueue p project slot id now rs).1
      × (is_taken p.id slot (enqueue p project slot id now rs).1 ≡ true)
unfolding enqueue claim_slot new_run
claim_slot-Settles p project slot id now rs = elim (Bool-cases (is_taken p.id slot rs)) [
  | inl e ↦ rw e (([], sym (append-nil rs)), e)
  | inr e ↦ rw e ((_, refl), is_taken-new p.id slot rs _ refl refl)
]

Grows-trans : (a b c : List RunRow) → Grows a b → Grows b c → Grows a c
Grows-trans a b c (m, e) (n, f) = (m ++ n, f ∙ (ap (λ x. x ++ n) e ∙ append_assoc a m n))

-- What a round that returns leaves behind, and what a sweep does.
abbrev RoundSettles :
    Process → Slot → List Project → List RunRow → Result SweepError ℕ × List RunRow → Type 0
RoundSettles p o projects rs (ok n, after) = Grows rs after × Settled projects after p o
RoundSettles p o projects rs (err e, after) = Grows rs after

abbrev SweepSettles :
    List Process → ℕ → List Project → List RunRow → Result SweepError ℕ × List RunRow → Type 0
SweepSettles ps now projects rs (ok n, after) = Grows rs after × AllSettled projects after now ps
SweepSettles ps now projects rs (err e, after) = Grows rs after

Grows-none : (rs : List RunRow) → Grows rs rs
Grows-none rs = ([], sym (append-nil rs))

tally-Settles :
    (p : Process) (project : Project) (slot : ℕ) (projects : List Project) (rs : List RunRow)
    (x : Option JobRun × List RunRow)
    → find_project p.project_id projects ≡ some project
    → Grows rs x.1 × (is_taken p.id slot x.1 ≡ true)
    → RoundSettles p (ok (some slot)) projects rs (tally x)
unfolding tally
tally-Settles p project slot projects rs (none, after) f (g, t) = (g, (project, f, t))
tally-Settles p project slot projects rs (some run, after) f (g, t) = (g, (project, f, t))

record_slot-Settles :
    (p : Process) (o : Option Project) (slot id now : ℕ) (projects : List Project)
    (rs : List RunRow)
    → find_project p.project_id projects ≡ o
    → RoundSettles p (ok (some slot)) projects rs (record_slot p o slot id now rs)
unfolding record_slot
record_slot-Settles p none slot id now projects rs f = Grows-none rs
record_slot-Settles p (some project) slot id now projects rs f =
    tally-Settles p project slot projects rs (enqueue p project slot id now rs) f
      (claim_slot-Settles p project slot id now rs)

sweep_slot-Settles :
    (p : Process) (o : Slot) (projects : List Project) (id now : ℕ) (rs : List RunRow)
    → RoundSettles p o projects rs (sweep_slot p o projects id now rs)
unfolding sweep_slot
sweep_slot-Settles p (err e) projects id now rs = Grows-none rs
sweep_slot-Settles p (ok none) projects id now rs = (Grows-none rs, tt)
sweep_slot-Settles p (ok (some slot)) projects id now rs =
    record_slot-Settles p (find_project p.project_id projects) slot id now projects rs refl

plus_count-Settles :
    (p : Process) (ps : List Process) (now n : ℕ) (projects : List Project) (rs mid : List RunRow)
    (x : Result SweepError ℕ × List RunRow)
    → Grows rs mid
    → Settled projects mid p (owed_slot p now)
    → SweepSettles ps now projects mid x
    → SweepSettles (p ∷ ps) now projects rs (plus_count n x)
unfolding plus_count
plus_count-Settles p ps now n projects rs mid (ok m, after) g h (k, a) =
    (Grows-trans rs mid after g k, (Settled-append projects mid after p (owed_slot p now) k h, a))
plus_count-Settles p ps now n projects rs mid (err e, after) g h k = Grows-trans rs mid after g k

after_round-Settles :
    (p : Process) (ps : List Process) (now : ℕ) (projects : List Project) (rs : List RunRow)
    (x : Result SweepError ℕ × List RunRow)
    (rest : ℕ → List RunRow → Result SweepError ℕ × List RunRow)
    → RoundSettles p (owed_slot p now) projects rs x
    → ((n : ℕ) (mid : List RunRow) → SweepSettles ps now projects mid (rest n mid))
    → SweepSettles (p ∷ ps) now projects rs (after_round x rest)
unfolding after_round
after_round-Settles p ps now projects rs (ok n, mid) rest (g, h) f =
    plus_count-Settles p ps now n projects rs mid (rest n mid) g h (f n mid)
after_round-Settles p ps now projects rs (err e, mid) rest g f = g

sweep_each-Settles :
    (ps : List Process) (projects : List Project) (id now : ℕ) (rs : List RunRow)
    → SweepSettles ps now projects rs (sweep_each ps projects id now rs)
unfolding sweep_each
sweep_each-Settles [] projects id now rs = (Grows-none rs, tt)
sweep_each-Settles (p ∷ ps) projects id now rs =
    after_round-Settles p ps now projects rs (sweep_slot p (owed_slot p now) projects id now rs)
      (λ n mid. sweep_each ps projects (id + n) now mid)
      (sweep_slot-Settles p (owed_slot p now) projects id now rs)
      (λ n mid. sweep_each-Settles ps projects (id + n) now mid)

sweep_slot-again :
    (p : Process) (o : Slot) (projects : List Project) (id now : ℕ) (rs : List RunRow)
    → Settled projects rs p o
    → sweep_slot p o projects id now rs ≡ (ok 0, rs)
unfolding sweep_slot record_slot enqueue claim_slot tally
sweep_slot-again p (err e) projects id now rs h = absurd h
sweep_slot-again p (ok none) projects id now rs h = refl
sweep_slot-again p (ok (some slot)) projects id now rs (project, f, t) = rw (f, t) refl

sweep_each-again :
    (ps : List Process) (projects : List Project) (id now : ℕ) (rs : List RunRow)
    → AllSettled projects rs now ps
    → sweep_each ps projects id now rs ≡ (ok 0, rs)
unfolding sweep_each after_round plus_count
sweep_each-again [] projects id now rs h = refl
sweep_each-again (p ∷ ps) projects id now rs (h, k) =
    rw
      (
        sweep_slot-again p (owed_slot p now) projects id now rs h,
        sweep_each-again ps projects (id + 0) now rs k,
      )
      refl

-- The schedule of the process is the text of `s`.
abbrev pub HasSchedule : Process → CronSchedule → Type 0
HasSchedule p s = (text : Text) × (p.schedule ≡ some text) × (parse text ≡ ok s)

owed_slot-due :
    (p : Process) (s : CronSchedule) (now : ℕ)
    → HasSchedule p s
    → owed_slot p now ≡ due_slot s now max_catchup
unfolding owed_slot
owed_slot-due p s now (text, e, f) = rw (owed_slot, e, f) refl

Settled-row :
    (projects : List Project) (rs : List RunRow) (p : Process) (slot : ℕ) (o : Slot)
    → o ≡ ok (some slot)
    → Settled projects rs p o
    → (r : RunRow) × In r rs × (r.run.process_id ≡ p.id) × (r.run.scheduled_for ≡ slot)
Settled-row projects rs p slot o e h =
    let (project, f, t) = subst (Settled projects rs p) e h in is_taken-In p.id slot rs t

-- What a sweep that returns leaves: the rows that there were and more, a row for the slot that each
-- enabled cron process owes by its schedule in the last 25 hours, and nothing for another sweep.
pub record Swept (now : ℕ) (jobs after : Jobs) : Type 0 where
  pub grows : (more : List RunRow) × (after.runs ≡ jobs.runs ++ more)
  pub slots :
      (p : Process)
      → In p jobs.processes
      → p.type ≡ cron
      → p.enabled ≡ true
      → (s : CronSchedule) → HasSchedule p s
      → (slot : ℕ) → due_slot s now (25 * 60) ≡ ok (some slot)
      → (r : RunRow) × In r after.runs × (r.run.process_id ≡ p.id) × (r.run.scheduled_for ≡ slot)
  pub again : (id : ℕ) → sweep id now after ≡ (ok 0, after)

-- What is true of the tables after a sweep.
abbrev pub Sweeps : ℕ → Jobs → Result SweepError ℕ × Jobs → Type 0
Sweeps now jobs (err e, after) = (more : List RunRow) × (after.runs ≡ jobs.runs ++ more)
Sweeps now jobs (ok n, after) = Swept now jobs after

-- A sweep only adds rows. If it does not raise, every enabled cron process whose schedule names a
-- minute of the last 25 hours has a row for the latest such minute, its slot, and another sweep at the
-- same moment adds nothing and reports no new slot.
pub sweep-Sweeps : (id now : ℕ) (jobs : Jobs) → Sweeps now jobs (sweep id now jobs)
unfolding sweep
sweep-Sweeps id now jobs =
    go (sweep_each (list_scheduled jobs.processes) jobs.projects id now jobs.runs)
      (sweep_each-Settles (list_scheduled jobs.processes) jobs.projects id now jobs.runs)
  where
    go :
        (x : Result SweepError ℕ × List RunRow)
        → SweepSettles (list_scheduled jobs.processes) now jobs.projects jobs.runs x
        → Sweeps now jobs (x.0, record jobs { runs = x.1 })
    go (err e, rs) g = g
    go (ok n, rs) (g, h) = record {
      grows = g;
      slots = λ p m kind enabled s scheduled slot due.
          Settled-row jobs.projects rs p slot (owed_slot p now)
            (owed_slot-due p s now scheduled ∙ due)
            (All-In (λ q. Settled jobs.projects rs q (owed_slot q now))
              (list_scheduled jobs.processes) h p
              (In-list_scheduled p jobs.processes m kind enabled));
      again =
          λ i. rw (sweep_each-again (list_scheduled jobs.processes) jobs.projects i now rs h) refl;
    }
