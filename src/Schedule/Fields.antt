-- ===== src/Schedule/Fields.antt =====
-- `parse`, `_field`, `_chunk` and `_value` of deploypro/domain/schedule.py.
pub mod Ranges
pub mod Printed
mod Tests
use deploygenus.Schedule.Cron.{CronSchedule}
use deploygenus.Text.{
  Text, codes, text_eq, lower, lstrip_by, strip, join, split_on, words, partition, isdigit, int_of,
}
use deploygenus.Base.{
  ltb, leb, ◌==◌, if◌then◌else◌, length, any, is_empty, guard, ◌>>=◌, ◌>>◌, Result, ok, err, ℕ,
  zero, suc, ◌+◌, ◌-◌, Bool, true, false, not, ◌&&◌, Option, none, some, List, [], ◌∷◌, ◌++◌,
}

pub data Field : Type 0 where
  minute_field hour_field day_field month_field weekday_field : Field

-- `InvalidSchedule`, with what its message names.
pub data InvalidSchedule : Type 0 where
  required : InvalidSchedule
  field_count : ℕ → InvalidSchedule
  not_a_chunk : Text → Field → InvalidSchedule
  bad_step : ℕ → Field → InvalidSchedule
  backwards : Text → Field → InvalidSchedule
  not_a_number : Text → Field → InvalidSchedule
  not_in_range : ℕ → Field → InvalidSchedule
  matches_nothing : Text → Field → InvalidSchedule

abbrev Checked : Type 0 → Type 0
Checked A = Result InvalidSchedule A

abbrev pub month_names : List (Text × ℕ)
month_names =
    (codes "jan", 1)
    ∷ (codes "feb", 2)
    ∷ (codes "mar", 3)
    ∷ (codes "apr", 4)
    ∷ (codes "may", 5)
    ∷ (codes "jun", 6)
    ∷ (codes "jul", 7)
    ∷ (codes "aug", 8)
    ∷ (codes "sep", 9)
    ∷ (codes "oct", 10)
    ∷ (codes "nov", 11)
    ∷ (codes "dec", 12)
    ∷ []

abbrev pub weekday_names : List (Text × ℕ)
weekday_names =
    (codes "sun", 0)
    ∷ (codes "mon", 1)
    ∷ (codes "tue", 2)
    ∷ (codes "wed", 3)
    ∷ (codes "thu", 4)
    ∷ (codes "fri", 5)
    ∷ (codes "sat", 6)
    ∷ []

abbrev pub aliases : List (Text × Text)
aliases =
    (codes "@yearly", codes "0 0 1 1 *")
    ∷ (codes "@annually", codes "0 0 1 1 *")
    ∷ (codes "@monthly", codes "0 0 1 * *")
    ∷ (codes "@weekly", codes "0 0 * * 0")
    ∷ (codes "@daily", codes "0 0 * * *")
    ∷ (codes "@midnight", codes "0 0 * * *")
    ∷ (codes "@hourly", codes "0 * * * *")
    ∷ []

-- `table.get(token)`
pub lookup {ℓ} : {A : Type ℓ} → Text → List (Text × A) → Option A
lookup token [] = none
lookup token ((name, a) ∷ rest) = if text_eq name token then some a else lookup token rest

-- The names that a field accepts.
names_of : Field → List (Text × ℕ)
names_of month_field = month_names
names_of weekday_field = weekday_names
names_of _ = []

is_weekday : Field → Bool
is_weekday weekday_field = true
is_weekday _ = false

number_value : Text → Text → Field → ℕ → ℕ → Checked ℕ
unfolding is_weekday
number_value text token name low high =
    if not (isdigit token)
    then err (not_a_number text name)
    else let value = int_of token in
      if is_weekday name && value == 7
      then ok 0
      else if not (leb low value && leb value high)
      then err (not_in_range value name)
      else ok value

pub value_of : Text → Field → ℕ → ℕ → Checked ℕ
unfolding lookup names_of number_value
value_of text name low high =
    let token = strip text in
    elim (lookup token (names_of name)) [
      | some n ↦ ok n
      | none ↦ number_value text token name low high
    ]

-- `_STEP.match`: the range, and the step's digits if there is a `/`.
match_step : Text → Option (Text × Option Text)
match_step chunk =
    let (body, slash, digits) = partition b'/' chunk in
    if is_empty body
    then none
    else if not slash
    then some (body, none)
    else if isdigit digits
    then some (body, some digits)
    else none

-- `range(start, end + 1, step)`, on fuel for the numbers from `start` to `end`.
range_by : ℕ → ℕ → ℕ → ℕ → List ℕ
range_by zero start end' step = []
range_by (suc f) start end' step =
    let rest = range_by f (start + step) end' step in if leb start end' then start ∷ rest else []

pub range_of : ℕ → ℕ → ℕ → List ℕ
unfolding range_by
range_of start end' step = range_by (end' + 1 - start) start end' step

bounds_of : Text → Option Text → Field → ℕ → ℕ → Checked (ℕ × ℕ)
bounds_of body step_text name low high =
    if text_eq body (codes "*")
    then ok (low, high)
    else if any (λ c. c == b'-') (lstrip_by (λ c. c == b'-') body)
    then (let (start_text, _, end_text) = partition b'-' body in
        do
          start ← value_of start_text name low high
          end' ← value_of end_text name low high
          guard (not (ltb end' start)) (backwards body name)
          ok (start, end'))
    else do
      start ← value_of body name low high
      ok (start, elim step_text [ some _ ↦ high | none ↦ start ])

pub chunk_of : Text → Field → ℕ → ℕ → Checked (List ℕ)
unfolding match_step bounds_of
chunk_of chunk name low high = elim (match_step chunk) [
  | none ↦ err (not_a_chunk chunk name)
  | some (body, step_text) ↦
      let step : ℕ = elim step_text [ some digits ↦ int_of digits | none ↦ 1 ] in
      do
        guard (leb 1 step) (bad_step step name)
        bounds ← bounds_of body step_text name low high
        ok (range_of bounds.0 bounds.1 step)
]

-- `values |= _chunk(...)` for every chunk
chunks_of : List Text → Field → ℕ → ℕ → Checked (List ℕ)
chunks_of [] name low high = ok []
chunks_of (chunk ∷ chunks) name low high = do
  values ← chunk_of chunk name low high
  rest ← chunks_of chunks name low high
  ok (values ++ rest)

pub field_of : Text → Field → ℕ → ℕ → Checked (List ℕ)
unfolding chunks_of
field_of part name low high = do
  values ← chunks_of (split_on b',' part) name low high
  guard (not (is_empty values)) (matches_nothing part name)
  ok values

-- The five fields in `FIELDS`' order, with their bounds.
pub schedule_of : List Text → Checked CronSchedule
schedule_of (p0 ∷ p1 ∷ p2 ∷ p3 ∷ p4 ∷ []) = do
  minutes ← field_of p0 minute_field 0 59
  hours ← field_of p1 hour_field 0 23
  days ← field_of p2 day_field 1 31
  months ← field_of p3 month_field 1 12
  weekdays ← field_of p4 weekday_field 0 6
  ok (record {
    minutes = minutes;
    hours = hours;
    days = days;
    months = months;
    weekdays = weekdays;
    day_restricted = not (text_eq p2 (codes "*"));
    weekday_restricted = not (text_eq p4 (codes "*"));
    expression = join b' ' (p0 ∷ p1 ∷ p2 ∷ p3 ∷ p4 ∷ []);
  })
schedule_of parts = err (field_count (length parts))

-- `ALIASES.get(raw, raw)`
unalias : Text → Text
unfolding lookup
unalias raw = elim (lookup raw aliases) [ some full ↦ full | none ↦ raw ]

pub parse : Text → Checked CronSchedule
unfolding unalias schedule_of
parse expression =
    let raw = lower (strip expression) in
    if is_empty raw then err required else schedule_of (words (unalias raw))
