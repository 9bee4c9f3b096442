-- ===== src/Funding/Safety/Submit.antt =====
-- The write-ahead journal over one submission of internal/funding/payout.go.
use builder_code_bot.Prelude.{Bool, Option, none, some, String}
use builder_code_bot.Funding.Model.{SubmitResult, PayoutTargetState}
use builder_code_bot.Funding.Action.{Failure, ◌>>=◌, ◌>>◌}
use builder_code_bot.Funding.Action.Keeps.{keeps_rules}
use builder_code_bot.Funding.Env.{Env}
use builder_code_bot.Funding.Report.Update.{mark_submitted}
use builder_code_bot.Funding.Session.{Session, Task, submit}
use builder_code_bot.Funding.Progress.{report, complete_database}
use builder_code_bot.Funding.Payout.Settle.{confirm_payout}
use builder_code_bot.Funding.Payout.Submit.{settle_attempt, attempt_body}
use builder_code_bot.Funding.Safety.Journal.{IsJournaled, KeepsJournal, quiet-KeepsJournal, IsReady}
use builder_code_bot.Funding.Safety.Quiet.{
  save_active_phase-IsQuiet, sync_report-IsQuiet, complete-IsQuiet, database_failed-IsQuiet,
  save_state-IsQuiet,
}
use builder_code_bot.Funding.Safety.Quiet.Payout.{reject_payout-IsQuiet}

module _ (E : Env) where
  pub complete_database-KeepsJournal :
      (again : Task E (Unit {0})) → KeepsJournal again → KeepsJournal (complete_database E again)
  unfolding complete_database
  complete_database-KeepsJournal again k =
      search
        (
          keeps_rules, quiet-KeepsJournal, complete-IsQuiet, database_failed-IsQuiet,
          save_state-IsQuiet, sync_report-IsQuiet,
        )
        depth 30

  pub confirm_payout-KeepsJournal :
      (again : Task E (Unit {0})) (evidence : String)
      → KeepsJournal again
      → KeepsJournal (confirm_payout E again evidence)
  unfolding confirm_payout
  confirm_payout-KeepsJournal again evidence k =
      search
        (
          keeps_rules, quiet-KeepsJournal, save_active_phase-IsQuiet, sync_report-IsQuiet,
          complete_database-KeepsJournal,
        )
        depth 30

  settle_attempt-KeepsJournal :
      (again observe : Task E (Unit {0})) (exact : Bool) (r : SubmitResult) (e : Option Failure)
      → KeepsJournal again
      → KeepsJournal observe
      → KeepsJournal (settle_attempt E again observe exact r e)
  unfolding settle_attempt
  settle_attempt-KeepsJournal again observe exact r (some e) ka ko = ko
  settle_attempt-KeepsJournal again observe exact r none ka ko =
      search (keeps_rules, quiet-KeepsJournal, reject_payout-IsQuiet, confirm_payout-KeepsJournal)

  after_submit-KeepsJournal :
      (again observe : Task E (Unit {0})) (exact : Bool) (t : PayoutTargetState) (r : SubmitResult)
      (e : Option Failure)
      → KeepsJournal again
      → KeepsJournal observe
      → KeepsJournal (
          report E (mark_submitted t.manifest.settlement)
          >> settle_attempt E again observe exact r e)
  after_submit-KeepsJournal again observe exact t r e ka ko =
      search (keeps_rules, settle_attempt-KeepsJournal)

  pub attempt_body-IsJournaled :
      (again observe : Task E (Unit {0})) (exact : Bool) (s : Session (E.Decimal))
      → KeepsJournal again
      → KeepsJournal observe
      → IsReady s
      → IsJournaled (attempt_body E again observe exact s).1.history
  unfolding attempt_body ◌>>=◌ submit
  attempt_body-IsJournaled again observe exact s ka ko h = rw (h.journaled) (
      (after_submit-KeepsJournal again observe exact s.target
          (E.submit s.history h.journal.prepared).0 (E.submit s.history h.journal.prepared).1 ka
          ko).at
        _ (h.backed, h.before))
