-- ===== src/Funding/Safety/Whole.antt =====
-- The write-ahead journal over the tasks as the service starts them: Run, RunScheduled and Recover of
-- internal/funding/recovery.go, with the load before them and the reports at their end.
use builder_code_bot.Prelude.{Option, none, some, Bool, String}
use builder_code_bot.Funding.Model.{Trigger, RunState}
use builder_code_bot.Funding.Action.{Failure, Result, ok, err, panic}
use builder_code_bot.Funding.Action.Keeps.{keeps_rules, Keeps-deferring}
use builder_code_bot.Funding.Env.{LoadedState, Env}
use builder_code_bot.Funding.Daily.{DailyConsolidation}
use builder_code_bot.Funding.Report.{ReportExecution}
use builder_code_bot.Funding.Session.{Session, Task}
use builder_code_bot.Funding.Tasks.{
  check_current, attach_loaded, attach_daily_consolidation, deliver_run_report, reporting, resume,
  after_check, run, recover_current, recover,
}
use builder_code_bot.Funding.Safety.Quiet.{IsQuiet, now-IsQuiet, check_context-IsQuiet}
use builder_code_bot.Funding.Safety.Quiet.Calls.{
  call_rules, load_current-IsQuiet, load_daily-IsQuiet, deliver-IsQuiet, alert_once_for-IsQuiet,
  observe_user_rate_limits-IsQuiet, observe_settlement_final_balance-IsQuiet,
}
use builder_code_bot.Funding.Safety.Journal.{IsJournaled, KeepsJournal, quiet-KeepsJournal}
use builder_code_bot.Funding.Safety.Tasks.{run_new-KeepsJournal, recover_state-KeepsJournal}

module _ (E : Env) where
  check_current-IsQuiet : IsQuiet (check_current E)
  unfolding check_current
  check_current-IsQuiet = search (call_rules, load_current-IsQuiet, alert_once_for-IsQuiet) depth 12

  attach_loaded-IsQuiet :
      (d : String) (r : Result (Option DailyConsolidation)) → IsQuiet (attach_loaded E d r)
  unfolding attach_loaded
  attach_loaded-IsQuiet d (ok none) = search call_rules
  attach_loaded-IsQuiet d (ok (some c)) = search call_rules
  attach_loaded-IsQuiet d (err e) = search (call_rules, check_context-IsQuiet) depth 12
  attach_loaded-IsQuiet d panic = search call_rules

  attach-IsQuiet : (d : String) → IsQuiet (attach_daily_consolidation E d)
  unfolding attach_daily_consolidation
  attach-IsQuiet d = search (call_rules, load_daily-IsQuiet, attach_loaded-IsQuiet) depth 12

  deliver_run_report-IsQuiet : (e : Option Failure) → IsQuiet (deliver_run_report E e)
  unfolding deliver_run_report
  deliver_run_report-IsQuiet e = search (call_rules, now-IsQuiet, deliver-IsQuiet) depth 16

  reporting-KeepsJournal : (m : Task E (Unit {0})) → KeepsJournal m → KeepsJournal (reporting E m)
  unfolding reporting
  reporting-KeepsJournal m k =
      Keeps-deferring _ _
        (Keeps-deferring _ _
          (Keeps-deferring _ _ k
            λ e. search (keeps_rules, quiet-KeepsJournal, observe_settlement_final_balance-IsQuiet))
          λ e. search (keeps_rules, quiet-KeepsJournal, observe_user_rate_limits-IsQuiet))
        λ e. quiet-KeepsJournal _ (deliver_run_report-IsQuiet e)

  resume-KeepsJournal : (r : RunState) (b : Bool) → KeepsJournal (resume E r b)
  unfolding resume
  resume-KeepsJournal r b = search (keeps_rules, recover_state-KeepsJournal) depth 12

  after_check-KeepsJournal :
      (trigger : Trigger) (l : LoadedState) → KeepsJournal (after_check E trigger l)
  unfolding after_check
  after_check-KeepsJournal trigger l =
      search (keeps_rules, run_new-KeepsJournal, resume-KeepsJournal) depth 12

  run-KeepsJournal : (trigger : Trigger) (x : ReportExecution) → KeepsJournal (run E trigger x)
  unfolding run
  run-KeepsJournal trigger x =
      search
        (
          keeps_rules, quiet-KeepsJournal, now-IsQuiet, reporting-KeepsJournal,
          check_current-IsQuiet, attach-IsQuiet, after_check-KeepsJournal,
        )
        depth 20

  recover_current-KeepsJournal : (r : RunState) (b : Bool) → KeepsJournal (recover_current E r b)
  unfolding recover_current
  recover_current-KeepsJournal r b =
      search
        (
          keeps_rules, quiet-KeepsJournal, now-IsQuiet, reporting-KeepsJournal, attach-IsQuiet,
          recover_state-KeepsJournal,
        )
        depth 24

  recover-KeepsJournal : KeepsJournal (recover E)
  unfolding recover
  recover-KeepsJournal =
      search (keeps_rules, quiet-KeepsJournal, check_current-IsQuiet, recover_current-KeepsJournal)
        depth 12

  -- In every environment, and however a task of the scheduler or a first run ends, every payout request
  -- that has left the process was backed by the state store when it left, by a stored payout_submitting
  -- state with one attempt or by two stored payout_replaying states with two; the load of the persisted
  -- run, its recovery, the observations at the end of the task and the delivery of its report are
  -- included. The condition is that the requests before the task were backed.
  pub run-IsJournaled :
      (s : Session (E.Decimal)) (trigger : Trigger) (execution : ReportExecution)
      → IsJournaled s.history
      → IsJournaled (run E trigger execution s).1.history
  run-IsJournaled s trigger execution h = (run-KeepsJournal trigger execution).at s h

  -- In every environment, and however the recovery at the start of the service ends, every payout
  -- request that has left the process was backed by the state store when it left, by a stored
  -- payout_submitting state with one attempt or by two stored payout_replaying states with two. The
  -- condition is that the requests before it were backed.
  pub recover-IsJournaled :
      (s : Session (E.Decimal)) → IsJournaled s.history → IsJournaled (recover E s).1.history
  recover-IsJournaled s h = recover-KeepsJournal.at s h
