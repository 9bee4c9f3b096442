-- ===== src/Scheduler/Calendar.antt =====
-- NextScheduledTaskUTC and NextDailyRunUTC.
use builder_code_bot.Prelude.{ℕ, suc, ◌+◌, ◌-◌, ◌%◌, ◌≤◌, ◌≡◌, ltb, if◌then◌else◌, arith}

pub data Task : Type 0 where
  consolidation funding : Task

abbrev pub hour : ℕ
hour = 3600000000000

abbrev pub day : ℕ
day = 86400000000000

-- time.Date of the day, at the hour 0
unfoldable pub start_of_day : ℕ → ℕ
start_of_day now = now - now % day

unfoldable pub next_scheduled_task_utc : ℕ → Task × ℕ
unfolding start_of_day
next_scheduled_task_utc now =
    let consolidation_at = start_of_day now in
    let run_at = start_of_day now + hour in
    if ltb consolidation_at now
    then if ltb run_at now
      then (Task.consolidation, consolidation_at + day)
      else (Task.funding, run_at)
    else (Task.consolidation, consolidation_at)

unfoldable pub next_daily_run_utc : ℕ → ℕ
unfolding start_of_day
next_daily_run_utc now =
    let next_run_at = start_of_day now + hour in
    if ltb now next_run_at then next_run_at else next_run_at + day

-- The times at which a task is due every day.
abbrev pub IsDue : Task → ℕ → Type 0
IsDue Task.consolidation t = t % day ≡ 0
IsDue Task.funding t = t % day ≡ hour

pub not_past : (now : ℕ) → now ≤ (next_scheduled_task_utc now).1
unfolding next_scheduled_task_utc
not_past now = ground arith

due : (now : ℕ) → IsDue (next_scheduled_task_utc now).0 (next_scheduled_task_utc now).1
unfolding next_scheduled_task_utc
due now = ground arith

first :
    (now : ℕ) (task : Task) (t : ℕ) → now ≤ t → IsDue task t → (next_scheduled_task_utc now).1 ≤ t
unfolding next_scheduled_task_utc
first now Task.consolidation t h d = ground arith
first now Task.funding t h d = ground arith

-- NextScheduledTaskUTC returns a time that is not past, at which its task is due, and no task is due
-- between now and then.
pub next_scheduled_task_utc_lem :
    (now : ℕ)
    → (now ≤ (next_scheduled_task_utc now).1)
      × IsDue (next_scheduled_task_utc now).0 (next_scheduled_task_utc now).1
      × ((task : Task) (t : ℕ) → now ≤ t → IsDue task t → (next_scheduled_task_utc now).1 ≤ t)
unfolding next_scheduled_task_utc
next_scheduled_task_utc_lem now = (not_past now, due now, first now)

-- NextDailyRunUTC returns a later time at which the funding task is due, and the first such one.
pub next_daily_run_utc_lem :
    (now : ℕ)
    → (suc now ≤ next_daily_run_utc now)
      × (next_daily_run_utc now % day ≡ hour)
      × ((t : ℕ) → suc now ≤ t → t % day ≡ hour → next_daily_run_utc now ≤ t)
unfolding next_daily_run_utc
next_daily_run_utc_lem now = (ground arith, ground arith, λ t h q. ground arith)
