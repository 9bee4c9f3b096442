-- ===== src/Funding/Consolidation/Daily.antt =====
-- RunDailyConsolidation of internal/funding/daily_consolidation.go.
use builder_code_bot.Prelude.{ℕ, String}
use builder_code_bot.Funding.Model.{Trigger}
use builder_code_bot.Funding.Action.{Failure, pure, raise, gets, on_error, on_option, ◌>>=◌, ◌>>◌}
use builder_code_bot.Funding.Env.{Env}
use builder_code_bot.Funding.Report.{DailyConsolidationStatus}
use builder_code_bot.Funding.Daily.{daily_consolidation_from_report}
use builder_code_bot.Funding.Session.{Task, check_context, now, load_daily, save_daily}
use builder_code_bot.Funding.Consolidation.Run.{run_consolidation}

module _ (E : Env) where
  -- The record of the session's report, stored.
  unfoldable pub record_daily : String → DailyConsolidationStatus → ℕ → String → Task E (Unit {0})
  unfolding daily_consolidation_from_report
  record_daily utc_date status completed_at message = do
    c ← gets (λ s. daily_consolidation_from_report utc_date status completed_at s.report)
    on_error (save_daily E c) λ e. raise (Failure.wrapped message e)

  unfoldable pub start_daily : String → Task E (Unit {0})
  unfolding record_daily
  start_daily utc_date = do
    run_consolidation E Trigger.utc_consolidation (
        record_daily utc_date DailyConsolidationStatus.claimables_captured 0
          "save captured daily claimables")
    completed_at ← now E
    record_daily utc_date DailyConsolidationStatus.completed completed_at
        "save completed daily consolidation"

  -- The day's consolidation, unless the store has its record.
  unfoldable pub consolidate_date : String → Task E (Unit {0})
  unfolding start_daily
  consolidate_date utc_date = do
    existing ←
        on_error (load_daily E utc_date)
          λ e. raise (Failure.wrapped "check existing daily consolidation" e)
    on_option existing (start_daily utc_date) λ _. pure tt

  unfoldable pub run_daily_consolidation : Task E (Unit {0})
  unfolding consolidate_date
  run_daily_consolidation = do check_context E; t ← now E; consolidate_date (E.date_only t)
