-- ===== src/Schedule/Calendar.antt =====
-- The parts of Python's `datetime` that schedule.py reads. A moment in UTC is the number of whole
-- minutes since 0001-01-01 00:00, the earliest `datetime`; `max_minute` is its last minute.
-- `month_of_day` and `day_of_day` follow `datetime`'s own `_ord2ymd`.
use deploygenus.Base.{
  ltb, ◌==◌, if◌then◌else◌, ℕ, ◌+◌, ◌-◌, ◌*◌, ◌/◌, ◌%◌, ◌≡◌, refl, Bool, true, not, ◌&&◌, ◌||◌,
  List, [], ◌∷◌,
}

-- 9999-12-31 23:59
abbrev pub max_minute : ℕ
max_minute = 3652059 * 1440 - 1

-- `when.minute`, `when.hour`
unfoldable pub minute : ℕ → ℕ
minute t = t % 60

unfoldable pub hour : ℕ → ℕ
hour t = t / 60 % 24

-- The day of the year from 0, and whether the year is a leap year, of the day `n` from 0.
unfoldable pub day_of_year : ℕ → ℕ × Bool
day_of_year n =
    let n100 = n % 146097 / 36524 in
    let n4 = n % 146097 % 36524 / 1461 in
    let n1 = n % 146097 % 36524 % 1461 / 365 in
    if n1 == 4 || n100 == 4
    then (365, true)
    else (n % 146097 % 36524 % 1461 % 365, n1 == 3 && (not (n4 == 24) || n100 == 3))

month_lengths : Bool → List ℕ
month_lengths leap =
    31 ∷ (if leap then 29 else 28) ∷ 31 ∷ 30 ∷ 31 ∷ 30 ∷ 31 ∷ 31 ∷ 30 ∷ 31 ∷ 30 ∷ 31 ∷ []

-- The month from 1 and the day of the month from 1.
in_months : ℕ → ℕ → List ℕ → ℕ × ℕ
in_months m n [] = (m, n + 1)
in_months m n (len ∷ rest) = if ltb n len then (m, n + 1) else in_months (m + 1) (n - len) rest

unfoldable pub month_of_day : ℕ → ℕ
unfolding day_of_year month_lengths in_months
month_of_day n = let (d, leap) = day_of_year n in (in_months 1 d (month_lengths leap)).0

unfoldable pub day_of_day : ℕ → ℕ
unfolding day_of_year month_lengths in_months
day_of_day n = let (d, leap) = day_of_year n in (in_months 1 d (month_lengths leap)).1

-- `when.month`, `when.day`
unfoldable pub month : ℕ → ℕ
unfolding month_of_day
month t = month_of_day (t / 1440)

unfoldable pub day : ℕ → ℕ
unfolding day_of_day
day t = day_of_day (t / 1440)

-- `when.weekday()`: Monday is 0, as 0001-01-01 was.
unfoldable pub weekday : ℕ → ℕ
weekday t = t / 1440 % 7

-- `now.replace(second=0, microsecond=0)`, from microseconds since 0001-01-01 00:00
unfoldable pub whole_minute : ℕ → ℕ
whole_minute us = us / 60000000

-- 2026-09-28 14:05 is a Monday; 2024-02-29 and 2023-12-31 are leap day and year's end.
minute_of_2026 : ℕ
minute_of_2026 = 739886 * 1440 + 845

known_dates :
    (month minute_of_2026 ≡ 9)
    × (day minute_of_2026 ≡ 28)
    × (weekday minute_of_2026 ≡ 0)
    × (hour minute_of_2026 ≡ 14)
    × (minute minute_of_2026 ≡ 5)
    × (month_of_day 738944 ≡ 2)
    × (day_of_day 738944 ≡ 29)
    × (month_of_day 738884 ≡ 12)
    × (day_of_day 738884 ≡ 31)
unfolding month day weekday hour minute month_of_day day_of_day minute_of_2026
known_dates = (refl, refl, refl, refl, refl, refl, refl, refl, refl)
