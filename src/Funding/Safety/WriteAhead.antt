-- ===== src/Funding/Safety/WriteAhead.antt =====
-- The write-ahead journal of the tasks of internal/funding.
use builder_code_bot.Prelude.{Bool}
use builder_code_bot.Funding.Model.{Trigger, RunState}
use builder_code_bot.Funding.Env.{Env}
use builder_code_bot.Funding.Session.{Session}
use builder_code_bot.Funding.Fresh.{run_new}
use builder_code_bot.Funding.Recovery.{recover_state}
use builder_code_bot.Funding.Safety.Journal.{IsJournaled}
use builder_code_bot.Funding.Safety.Tasks.{run_new-KeepsJournal, recover_state-KeepsJournal}

module _ (E : Env) (s : Session (E.Decimal)) where
  -- In every environment, and however a new run ends, every payout request that has left the process
  -- was backed by the state store when it left: the state stored last has exactly this request in its
  -- journal, in the phase payout_submitting with one attempt, or the two states stored last both have
  -- it in the phase payout_replaying with two attempts. The condition is that the requests of the
  -- session before the run were backed.
  pub run_new-IsJournaled :
      (trigger : Trigger) → IsJournaled s.history → IsJournaled (run_new E trigger s).1.history
  run_new-IsJournaled trigger h = (run_new-KeepsJournal E trigger).at s h

  -- In every environment, and however the recovery of a persisted run ends, be the run loaded from the
  -- primary snapshot or from the backup, every payout request that has left the process was backed by
  -- the state store when it left, by a stored payout_submitting state with one attempt or by two stored
  -- payout_replaying states with two. The condition is that the requests before it were backed.
  pub recover_state-IsJournaled :
      (run : RunState) (from_backup : Bool)
      → IsJournaled s.history
      → IsJournaled (recover_state E run from_backup s).1.history
  recover_state-IsJournaled run from_backup h =
      (recover_state-KeepsJournal E run from_backup).at s h
