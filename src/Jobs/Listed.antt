-- ===== src/Jobs/Listed.antt =====
-- The processes that a sweep lists, and the rows of a slot.
use deploygenus.Models.{cron, Process}
use deploygenus.Jobs.{
  RunRow, is_taken, is_cron, process_le, insert_process, by_project, list_scheduled,
}
use deploygenus.Base.{
  ◌==◌, ==_iff, Bool-cases, filter, In, In-filter, ℕ, ◌≡◌, refl, ap, ◌⊎◌, inl, inr, true, ◌&&◌,
  List, [], ◌∷◌, arith,
}

In-insert_process :
    (p q : Process) (ps : List Process) → (q ≡ p) ⊎ In q ps → In q (insert_process p ps)
unfolding insert_process
In-insert_process p q [] (inl e) = inl e
In-insert_process p q [] (inr m) = inr m
In-insert_process p q (x ∷ xs) h = elim (Bool-cases (process_le p x)) [
  | inl before ↦ rw before (elim h [ inl e ↦ inl e | inr m ↦ inr m ])
  | inr after ↦ rw after (elim h [
    | inl e ↦ inr (In-insert_process p q xs (inl e))
    | inr (inl e) ↦ inl e
    | inr (inr m) ↦ inr (In-insert_process p q xs (inr m))
  ])
]

In-by_project : (q : Process) (ps : List Process) → In q ps → In q (by_project ps)
unfolding by_project
In-by_project q [] m = elim m [ ]
In-by_project q (p ∷ ps) (inl e) = In-insert_process p q (by_project ps) (inl e)
In-by_project q (p ∷ ps) (inr m) =
    In-insert_process p q (by_project ps) (inr (In-by_project q ps m))

pub In-list_scheduled :
    (p : Process) (ps : List Process)
    → In p ps
    → p.type ≡ cron
    → p.enabled ≡ true
    → In p (list_scheduled ps)
unfolding list_scheduled
In-list_scheduled p ps m kind enabled =
    let test = λ (q : Process). is_cron q.type && q.enabled in
    let of_kind : is_cron p.type ≡ true = ap is_cron kind in
    In-by_project p (filter test ps) (In-filter test p ps m (ground arith))

pub is_taken-In :
    (process slot : ℕ) (rs : List RunRow)
    → is_taken process slot rs ≡ true
    → (r : RunRow) × In r rs × (r.run.process_id ≡ process) × (r.run.scheduled_for ≡ slot)
unfolding is_taken
is_taken-In process slot [] h = cc
is_taken-In process slot (r ∷ rs) h =
    elim (Bool-cases (r.run.process_id == process && r.run.scheduled_for == slot)) [
      | inl e ↦ (
        r,
        inl refl,
        (==_iff r.run.process_id process).0 (ground arith),
        (==_iff r.run.scheduled_for slot).0 (ground arith),
      )
      | inr e ↦
          let (x, m, owner, at) = is_taken-In process slot rs (ground arith) in
          (x, inr m, owner, at)
    ]
