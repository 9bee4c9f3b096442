-- ===== src/Scheduler.antt =====
-- internal/scheduler/scheduler.go: the two daily tasks, and the retries of the funding task. Times
-- are nanoseconds since 1970 in UTC, where every day has the same length.
pub mod Calendar
pub mod Loop
