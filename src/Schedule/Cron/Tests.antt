-- ===== src/Schedule/Cron/Tests.antt =====
-- The two searches at a concrete schedule and moment.
use deploygenus.Schedule.Cron.{CronSchedule, due_slot, next_slot}
use deploygenus.Schedule.Cron.Search.{IsLatest, due_slot-IsLatest, IsFirst, next_slot-IsFirst}
use deploygenus.Schedule.Calendar.{max_minute, whole_minute}
use deploygenus.Text.{codes}
use deploygenus.Base.{ℕ, suc, ◌+◌, ◌≤◌, ◌<◌, true, [], ◌∷◌, arith}

-- Minutes 0 and 30 of three o'clock.
abbrev nightly : CronSchedule
nightly = record {
  minutes = 0 ∷ 30 ∷ [];
  hours = 3 ∷ [];
  days = 1 ∷ 15 ∷ [];
  months = 1 ∷ 2 ∷ [];
  weekdays = 1 ∷ [];
  day_restricted = true;
  weekday_restricted = true;
  expression = codes "0,30 3 1,15 1,2 1";
}

abbrev moment : ℕ
moment = 63900000000000000

late_enough : 1500 < whole_minute moment
unfolding whole_minute
late_enough = omega arith

early_enough : whole_minute moment + 1 + 1440 + 1440 ≤ max_minute
unfolding whole_minute
early_enough = omega arith

due_slot-IsLatest_example :
    IsLatest nightly (whole_minute moment) (suc 1500) (due_slot nightly moment 1500)
due_slot-IsLatest_example = due_slot-IsLatest nightly moment 1500 late_enough

next_slot-IsFirst_example :
    IsFirst nightly
      (whole_minute moment + 1)
      (whole_minute moment + 1 + 1440)
      (next_slot nightly moment 1440)
next_slot-IsFirst_example = next_slot-IsFirst nightly moment 1440 early_enough
