-- ===== src/Schedule/Cron.antt =====
-- `CronSchedule` of deploypro/domain/schedule.py: which minutes a schedule names, and the two searches for
-- one. Sets of numbers are lists of which only membership is used. A `datetime` that would leave
-- the years 1 to 9999 is an `OverflowError`.
pub mod Search
mod Tests
use deploygenus.Schedule.Calendar.{max_minute, minute, hour, month, day, weekday, whole_minute}
use deploygenus.Text.{Text}
use deploygenus.Base.{
  ltb, leb, ◌==◌, if◌then◌else◌, Result, ok, err, ℕ, zero, suc, ◌+◌, ◌-◌, ◌*◌, ◌/◌, ◌%◌, Bool,
  false, not, ◌&&◌, ◌||◌, Option, none, some, List, [], ◌∷◌,
}

pub record CronSchedule : Type 0 where
  pub minutes : List ℕ
  pub hours : List ℕ
  pub days : List ℕ
  pub months : List ℕ
  pub weekdays : List ℕ
  pub day_restricted : Bool
  pub weekday_restricted : Bool
  pub expression : Text

unfoldable pub member : ℕ → List ℕ → Bool
member a [] = false
member a (x ∷ xs) = a == x || member a xs

unfoldable pub matches : CronSchedule → ℕ → Bool
matches s when =
    if not (member (minute when) s.minutes)
    then false
    else if not (member (hour when) s.hours)
    then false
    else if not (member (month when) s.months)
    then false
    else let weekday' = (weekday when + 1) % 7 in
      let day_ok = member (day when) s.days in
      let weekday_ok = member weekday' s.weekdays in
      if s.day_restricted && s.weekday_restricted
      then day_ok || weekday_ok
      else day_ok && weekday_ok

unfoldable pub date_could_match : CronSchedule → ℕ → Bool
date_could_match s when =
    if not (member (month when) s.months)
    then false
    else let weekday' = (weekday when + 1) % 7 in
      let day_ok = member (day when) s.days in
      let weekday_ok = member weekday' s.weekdays in
      if s.day_restricted && s.weekday_restricted
      then day_ok || weekday_ok
      else day_ok && weekday_ok

pub data SearchError : Type 0 where
  overflow : SearchError
  out_of_fuel : SearchError

abbrev pub Slot : Type 0
Slot = Result SearchError (Option ℕ)

-- `while cursor >= earliest`, by the number of rounds left.
unfoldable pub due_scan : CronSchedule → ℕ → ℕ → Slot
due_scan s zero cursor = ok none
due_scan s (suc rounds) cursor =
    let earlier = due_scan s rounds (cursor - 1) in
    if matches s cursor then ok (some cursor) else if cursor == 0 then err overflow else earlier

abbrev pub max_catchup : ℕ
max_catchup = 25 * 60

abbrev pub max_lookahead : ℕ
max_lookahead = 366 * 5 * 1440

-- The moments are in microseconds, the horizon and the limit in minutes.
unfoldable pub due_slot : CronSchedule → ℕ → ℕ → Slot
due_slot s now horizon =
    let cursor = whole_minute now in
    if ltb cursor horizon then err overflow else due_scan s (suc horizon) cursor

-- `while cursor <= deadline`, on fuel.
unfoldable pub next_scan : CronSchedule → ℕ → ℕ → ℕ → Slot
next_scan s zero cursor deadline = err out_of_fuel
next_scan s (suc fuel) cursor deadline =
    let stepped = next_scan s fuel (cursor + 1) deadline in
    let skipped = next_scan s fuel ((cursor + 1440) / 1440 * 1440) deadline in
    if leb cursor deadline
    then (if matches s cursor
        then ok (some cursor)
        else if not (date_could_match s cursor)
        then (if ltb max_minute (cursor + 1440) then err overflow else skipped)
        else if ltb max_minute (cursor + 1)
        then err overflow
        else stepped)
    else ok none

unfoldable pub next_slot : CronSchedule → ℕ → ℕ → Slot
next_slot s after limit =
    let cursor = whole_minute after + 1 in
    if ltb max_minute (cursor + limit)
    then err overflow
    else next_scan s (limit + 2) cursor (cursor + limit)
