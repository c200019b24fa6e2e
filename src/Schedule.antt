-- ===== src/Schedule.antt =====
-- Cron expressions (deploypro/domain/schedule.py). `Calendar` has the clock fields that the module
-- reads from `datetime`, `Cron` the schedule with its two searches, `Fields` the parser.
pub mod Calendar
pub mod Cron
pub mod Fields
