-- ===== src/Schedule/Cron/Search.antt =====
-- What the two searches of `CronSchedule` find.
use deploygenus.Schedule.Calendar.{max_minute, month, day, weekday, whole_minute}
use deploygenus.Schedule.Cron.{
  CronSchedule, matches, date_could_match, Slot, due_scan, due_slot, next_scan, next_slot,
}
use native.Mathlib.Decide.{dec_le, dec_lt}
use native.Mathlib.Nat.{le_refl}
use deploygenus.Base.{
  ltb, leb, ◌==◌, leb→le, Bool-cases, ok, err, ℕ, zero, suc, ◌+◌, ◌-◌, ◌*◌, ◌/◌, ◌≤◌, ◌<◌, ◌≡◌, inl,
  inr, true, false, none, some, arith,
}

-- The latest minute that the schedule names, among the `rounds` minutes up to `cursor`.
abbrev pub IsLatest : CronSchedule → ℕ → ℕ → Slot → Type 0
IsLatest s cursor rounds (ok (some t)) =
    (t ≤ cursor)
    × (cursor < t + rounds)
    × (matches s t ≡ true)
    × ((u : ℕ) → t < u → u ≤ cursor → matches s u ≡ false)
IsLatest s cursor rounds (ok none) =
    (u : ℕ) → cursor < u + rounds → u ≤ cursor → matches s u ≡ false
IsLatest s cursor rounds (err e) = ⊥

IsLatest-earlier :
    (s : CronSchedule) (cursor rounds : ℕ) (r : Slot)
    → matches s (suc cursor) ≡ false
    → IsLatest s cursor rounds r
    → IsLatest s (suc cursor) (suc rounds) r
IsLatest-earlier s cursor rounds (ok (some t)) e (le, near, m, later) = (
  omega arith,
  omega arith,
  m,
  λ u lt ub. elim (dec_le u cursor) [
    | yes h ↦ later u lt h
    | no h ↦ let q : u ≡ suc cursor = omega arith in rw q e
  ],
)
IsLatest-earlier s cursor rounds (ok none) e h = λ u near ub. elim (dec_le u cursor) [
  | yes k ↦ h u (omega arith) k
  | no k ↦ let q : u ≡ suc cursor = omega arith in rw q e
]
IsLatest-earlier s cursor rounds (err x) e h = h

due_scan-IsLatest :
    (s : CronSchedule) (rounds cursor : ℕ)
    → rounds ≤ cursor
    → IsLatest s cursor rounds (due_scan s rounds cursor)
unfolding due_scan
due_scan-IsLatest s zero cursor h = λ u near ub. absurd (omega arith)
due_scan-IsLatest s (suc rounds) zero h = absurd (omega arith)
due_scan-IsLatest s (suc rounds) (suc cursor) h = elim (Bool-cases (matches s (suc cursor))) [
  | inl e ↦ rw e (omega arith, omega arith, e, λ u lt ub. absurd (omega arith))
  | inr e ↦
      let back : suc cursor - 1 ≡ cursor = omega arith in
      let started : (suc cursor == 0) ≡ false = ground arith in
      rw (e, back, started)
        (IsLatest-earlier s cursor rounds (due_scan s rounds cursor) e
          (due_scan-IsLatest s rounds cursor (omega arith)))
]

-- With more than `horizon` minutes since year 1, `due_slot` never raises: it returns the most
-- recent minute at or before `now` that the schedule names, if one lies within `horizon` minutes
-- of it, and None exactly if no minute of that window is named.
pub due_slot-IsLatest :
    (s : CronSchedule) (now horizon : ℕ)
    → horizon < whole_minute now
    → IsLatest s (whole_minute now) (suc horizon) (due_slot s now horizon)
unfolding due_slot
due_slot-IsLatest s now horizon h =
    let fits : ltb (whole_minute now) horizon ≡ false = ground arith in
    rw fits (due_scan-IsLatest s (suc horizon) (whole_minute now) (omega arith))

-- The earliest minute that the schedule names, from `cursor` to `deadline`.
abbrev pub IsFirst : CronSchedule → ℕ → ℕ → Slot → Type 0
IsFirst s cursor deadline (ok (some t)) =
    (cursor ≤ t)
    × (t ≤ deadline)
    × (matches s t ≡ true)
    × ((u : ℕ) → cursor ≤ u → u < t → matches s u ≡ false)
IsFirst s cursor deadline (ok none) = (u : ℕ) → cursor ≤ u → u ≤ deadline → matches s u ≡ false
IsFirst s cursor deadline (err e) = ⊥

-- Nothing named before `later`: the search may go on from there.
IsFirst-later :
    (s : CronSchedule) (cursor later deadline : ℕ) (r : Slot)
    → cursor ≤ later
    → ((u : ℕ) → cursor ≤ u → u < later → matches s u ≡ false)
    → IsFirst s later deadline r
    → IsFirst s cursor deadline r
IsFirst-later s cursor later deadline (ok (some t)) le none_before (lo, hi, m, first) = (
  omega arith,
  hi,
  m,
  λ u l k. elim (dec_lt u later) [ yes h ↦ none_before u l h | no h ↦ first u (omega arith) k ],
)
IsFirst-later s cursor later deadline (ok none) le none_before h =
    λ u l k. elim (dec_lt u later) [ yes q ↦ none_before u l q | no q ↦ h u (omega arith) k ]
IsFirst-later s cursor later deadline (err e) le none_before h = h

-- A day whose date cannot match has no minute that matches.
date_could_match-matches :
    (s : CronSchedule) (t u : ℕ)
    → u / 1440 ≡ t / 1440
    → date_could_match s t ≡ false
    → matches s u ≡ false
unfolding matches date_could_match month day weekday
date_could_match-matches s t u same h = rw same (ground arith)

next_scan-IsFirst :
    (s : CronSchedule) (fuel cursor deadline : ℕ)
    → deadline + 1 - cursor < fuel
    → deadline + 1440 ≤ max_minute
    → IsFirst s cursor deadline (next_scan s fuel cursor deadline)
unfolding next_scan
next_scan-IsFirst s zero cursor deadline f room = absurd (omega arith)
next_scan-IsFirst s (suc fuel) cursor deadline f room = elim (Bool-cases (leb cursor deadline)) [
  | inr past ↦ rw past (λ u l k. absurd (ground arith))
  | inl inside ↦ rw inside (elim (Bool-cases (matches s cursor)) [
    | inl e ↦ rw e (le_refl cursor, leb→le _ _ inside, e, λ u l k. absurd (omega arith))
    | inr e ↦ rw e (elim (Bool-cases (date_could_match s cursor)) [
      | inr no_date ↦
          let fits : ltb max_minute (cursor + 1440) ≡ false = ground arith in
          rw (no_date, fits)
            (IsFirst-later s cursor ((cursor + 1440) / 1440 * 1440) deadline _ (omega arith)
              (λ u l k. date_could_match-matches s cursor u (omega arith) no_date)
              (next_scan-IsFirst s fuel ((cursor + 1440) / 1440 * 1440) deadline (ground arith)
                room))
      | inl some_date ↦
          let fits : ltb max_minute (cursor + 1) ≡ false = ground arith in
          rw (some_date, fits)
            (IsFirst-later s cursor (cursor + 1) deadline _ (omega arith)
              (λ u l k. let q : u ≡ cursor = omega arith in rw q e)
              (next_scan-IsFirst s fuel (cursor + 1) deadline (ground arith) room))
    ])
  ])
]

-- If a day is left between the deadline and the end of year 9999, `next_slot` never raises and the
-- fuel of its model suffices: it returns the first minute strictly after `after` that the schedule
-- names, if one lies within `limit` minutes of the minute after `after`, and None exactly if none
-- does. Skipping whole days loses none.
pub next_slot-IsFirst :
    (s : CronSchedule) (after limit : ℕ)
    → whole_minute after + 1 + limit + 1440 ≤ max_minute
    → IsFirst s (whole_minute after + 1) (whole_minute after + 1 + limit) (next_slot s after limit)
unfolding next_slot
next_slot-IsFirst s after limit room =
    let fits : ltb max_minute (whole_minute after + 1 + limit) ≡ false = ground arith in
    rw fits (
      next_scan-IsFirst s (limit + 2) (whole_minute after + 1) (whole_minute after + 1 + limit)
        (omega arith) room)
