-- ===== src/Schedule/Fields/Tests.antt =====
-- The parser at a concrete expression.
use deploygenus.Schedule.Cron.{CronSchedule}
use deploygenus.Schedule.Fields.{value_of, range_of, chunk_of, field_of, parse}
use deploygenus.Schedule.Fields.Ranges.{IsValid, parse-IsValid}
use deploygenus.Schedule.Fields.Printed.{parse-expression}
use deploygenus.Text.{
  codes, text_eq, lower, lstrip_by, strip, join, split_on, words, partition, isdigit, int_of,
}
use deploygenus.Base.{ok, ◌≡◌, refl, true, [], ◌∷◌}

abbrev thirteenth : CronSchedule
thirteenth = record {
  minutes = 0 ∷ 20 ∷ 40 ∷ [];
  hours = 0 ∷ 1 ∷ 2 ∷ [];
  days = 13 ∷ [];
  months = 1 ∷ 3 ∷ [];
  weekdays = 5 ∷ [];
  day_restricted = true;
  weekday_restricted = true;
  expression = codes "*/20 0-2 13 jan,3 fri";
}

parse_example : parse (codes " */20 0-2 13 JAN,3 fri ") ≡ ok thirteenth
unfolding parse chunk_of value_of range_of field_of lower strip words split_on join text_eq isdigit
    int_of partition lstrip_by
parse_example = refl

parse-IsValid_example : IsValid thirteenth
parse-IsValid_example = parse-IsValid (codes " */20 0-2 13 JAN,3 fri ") thirteenth parse_example

parse-expression_example : parse (codes "*/20 0-2 13 jan,3 fri") ≡ ok thirteenth
parse-expression_example =
    parse-expression (codes " */20 0-2 13 JAN,3 fri ") thirteenth parse_example
