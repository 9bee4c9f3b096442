-- ===== src/Funding/Tasks.antt =====
-- The tasks of internal/funding/recovery.go, Run, RunScheduled and Recover, with what they do at their
-- end, loadCurrent of orchestrator.go, and the load of attachDailyConsolidation.
use builder_code_bot.Prelude.{ℕ, Bool, true, false, Option, none, some, String, if◌then◌else◌}
use builder_code_bot.Prelude.Text.{text_eq}
use builder_code_bot.Funding.Model.{Trigger, RunState}
use builder_code_bot.Funding.Action.{
  Failure, Result, ok, err, panic, pure, raise, crash, gets, capture, when, on_result, on_option,
  deferring, unless_canceled, ◌>>=◌, ◌>>◌,
}
use builder_code_bot.Funding.Env.{AlertSeverity, LoadedState, Env}
use builder_code_bot.Funding.Daily.{DailyConsolidation}
use builder_code_bot.Funding.Daily.Attach.{
  attach_record, bare_summary, mark_missing_daily_consolidation,
}
use builder_code_bot.Funding.Report.{ReportStepStatus, ReportExecution, RunReport}
use builder_code_bot.Funding.Report.Update.{set_stage}
use builder_code_bot.Funding.Report.Builders.{new_run_report}
use builder_code_bot.Funding.Report.Sync.{sync_state}
use builder_code_bot.Funding.Report.Finalize.{finalize}
use builder_code_bot.Funding.Session.{Task, now, check_context, load_current, load_daily, deliver}
use builder_code_bot.Funding.Progress.{report, alert_once_for}
use builder_code_bot.Funding.Fresh.{run_new}
use builder_code_bot.Funding.Recovery.{recover_state}
use builder_code_bot.Funding.FinalBalance.{observe_settlement_final_balance}
use builder_code_bot.Funding.RateLimit.Accounts.{observe_user_rate_limits}

abbrev loaded_run_id : Option RunState → String
loaded_run_id none = "state-store"
loaded_run_id (some run) = if text_eq run.run_id "" then "state-store" else run.run_id

abbrev is_error : Option Failure → Bool
is_error none = false
is_error (some e) = true

resumed : RunReport → RunReport
resumed r = set_stage "snapshot" ReportStepStatus.success "从持久化状态恢复" r

load_failed : String → RunReport → RunReport
load_failed utc_date r =
    mark_missing_daily_consolidation "UTC 00:00 归集记录读取失败"
      (record r { daily_consolidation = record (bare_summary utc_date r) { load_failed = true } })

load_missing : String → RunReport → RunReport
load_missing utc_date r =
    mark_missing_daily_consolidation "未找到 UTC 00:00 归集记录"
      (record r { daily_consolidation = record (bare_summary utc_date r) { missing = true } })

module _ (E : Env) where
  -- loadCurrent
  unfoldable pub check_current : Task E LoadedState
  check_current = do
    loaded ← load_current E
    when (if is_error loaded.error then false else loaded.recovered_from_backup) (
        alert_once_for E (loaded_run_id loaded.current) "state_corruption" AlertSeverity.warning
          "funding state recovered from backup")
    pure loaded

  unfoldable pub attach_loaded : String → Result (Option DailyConsolidation) → Task E (Unit {0})
  unfolding load_failed load_missing
  attach_loaded utc_date (ok none) = report E (load_missing utc_date)
  attach_loaded utc_date (ok (some c)) = report E (attach_record E.numbers utc_date c)
  attach_loaded utc_date (err e) = do
    context ← capture (check_context E)
    on_result context (λ _. report E (load_failed utc_date)) λ _. pure tt
  attach_loaded utc_date panic = crash

  unfoldable pub attach_daily_consolidation : String → Task E (Unit {0})
  unfolding attach_loaded
  attach_daily_consolidation utc_date = do
    answer ← capture (load_daily E utc_date)
    attach_loaded utc_date answer

  -- deliverRunReport
  unfoldable pub deliver_run_report : Option Failure → Task E (Unit {0})
  unfolding finalize
  deliver_run_report e = do
    t ← now E
    r ← gets (λ s. s.report)
    let final = finalize E.numbers t e r
    report E (λ _. final.1)
    when final.0 (deliver E final.1)

  -- The deferred calls of a task, the last one first.
  unfoldable pub reporting : Task E (Unit {0}) → Task E (Unit {0})
  unfolding deliver_run_report
  reporting m =
      deferring
        (deferring (deferring m (λ e. unless_canceled e (observe_settlement_final_balance E)))
          (λ e. unless_canceled e (observe_user_rate_limits E)))
        deliver_run_report

  unfoldable pub open_task_report : ℕ → Trigger → ReportExecution → Task E (Unit {0})
  open_task_report t trigger execution = report E λ _.
      new_run_report t trigger execution E.network E.builders E.builder_name E.settlement
        E.recipient

  -- The persisted run, recovered.
  unfoldable pub resume : RunState → Bool → Task E (Unit {0})
  unfolding resumed
  resume run from_backup = do
    report E (λ r. record r { recovery = true; outcome = "completed" })
    report E (sync_state E.numbers run)
    report E resumed
    recover_state E run from_backup

  unfoldable pub after_check : Trigger → LoadedState → Task E (Unit {0})
  unfolding resume
  after_check trigger loaded =
      on_option loaded.error
        (on_option loaded.current (run_new E trigger)
          λ run. resume run loaded.recovered_from_backup)
        raise

  abbrev consolidation_date : Option RunState → ℕ → String
  consolidation_date none started = E.date_only started
  consolidation_date (some run) started =
      if text_eq run.utc_date "" then E.date_only started else run.utc_date

  -- Run and RunScheduled
  unfoldable pub run : Trigger → ReportExecution → Task E (Unit {0})
  unfolding check_current attach_daily_consolidation after_check reporting open_task_report
  run trigger execution = do
    t ← now E
    open_task_report t trigger execution
    reporting (do
      loaded ← check_current
      attach_daily_consolidation (consolidation_date loaded.current t)
      after_check trigger loaded)

  unfoldable pub recover_current : RunState → Bool → Task E (Unit {0})
  unfolding open_task_report resumed attach_daily_consolidation reporting
  recover_current run from_backup = do
    t ← now E
    open_task_report t run.trigger (record { attempt = 0; max_attempts = 0; recovery = true })
    report E (λ r. record r { outcome = "completed" })
    report E (sync_state E.numbers run)
    report E resumed
    attach_daily_consolidation run.utc_date
    reporting (recover_state E run from_backup)

  -- Recover
  unfoldable pub recover : Task E (Unit {0})
  unfolding check_current recover_current
  recover = do
    loaded ← check_current
    on_option loaded.error
        (on_option loaded.current (pure tt) λ run. recover_current run loaded.recovered_from_backup)
        raise
