-- ===== src/Funding/Safety/Quiet/Payout.antt =====
-- The payout's methods keep what a submission alone can change, given the same of what they end in.
use builder_code_bot.Prelude.{ℕ, zero, suc, String}
use builder_code_bot.Funding.Model.{Phase, Token, SpotBalanceAmounts}
use builder_code_bot.Funding.Action.{Failure, Result, ok, err, panic}
use builder_code_bot.Funding.Env.{Env}
use builder_code_bot.Funding.Session.{Task}
use builder_code_bot.Funding.Safety.Quiet.{
  IsQuiet, quiet_rules, check_context-IsQuiet, spot_balance-IsQuiet, sleep-IsQuiet,
  save_active_phase-IsQuiet, sync_report-IsQuiet, complete_database-IsQuiet, archive-IsQuiet,
  clear-IsQuiet, alert_once-IsQuiet,
}
use builder_code_bot.Funding.Payout.Evidence.{Watch, after_query, query, observe_loop}
use builder_code_bot.Funding.Payout.Settle.{
  confirm_payout, save_twice, reject_payout, block_uncertain_payout,
}

module _ (E : Env) where
  after_query-IsQuiet :
      (settlement : String) (token : Token) (before amount : E.Decimal)
      (r : Result (SpotBalanceAmounts (E.Decimal))) (w : Watch)
      → IsQuiet (after_query E settlement token before amount r w)
  unfolding after_query
  after_query-IsQuiet settlement token before amount (ok b) w = search quiet_rules
  after_query-IsQuiet settlement token before amount (err e) w =
      search (quiet_rules, check_context-IsQuiet)
  after_query-IsQuiet settlement token before amount panic w = search quiet_rules

  query-IsQuiet :
      (settlement : String) (token : Token) (before amount : E.Decimal) (w : Watch)
      → IsQuiet (query E settlement token before amount w)
  unfolding query
  query-IsQuiet settlement token before amount w =
      search (quiet_rules, after_query-IsQuiet, spot_balance-IsQuiet)

  pub observe_loop-IsQuiet :
      (settlement : String) (token : Token) (before amount : E.Decimal) (left : ℕ) (w : Watch)
      → IsQuiet (observe_loop E settlement token before amount left w)
  unfolding observe_loop
  observe_loop-IsQuiet settlement token before amount zero w = search quiet_rules
  observe_loop-IsQuiet settlement token before amount (suc left) w =
      search
        (
          quiet_rules,
          query-IsQuiet settlement token before amount,
          sleep-IsQuiet,
          observe_loop-IsQuiet settlement token before amount left,
        )
        depth 10

  pub confirm_payout-IsQuiet :
      (again : Task E (Unit {0})) (evidence : String)
      → IsQuiet again
      → IsQuiet (confirm_payout E again evidence)
  unfolding confirm_payout
  confirm_payout-IsQuiet again evidence k =
      search
        (quiet_rules, save_active_phase-IsQuiet, sync_report-IsQuiet, complete_database-IsQuiet)
        depth 30

  pub save_twice-IsQuiet :
      (phase : Phase) (failed : Failure → Task E (Unit {0}))
      → ((e : Failure) → IsQuiet (failed e))
      → IsQuiet (save_twice E phase failed)
  unfolding save_twice
  save_twice-IsQuiet phase failed k = search (quiet_rules, k, save_active_phase-IsQuiet) depth 10

  pub reject_payout-IsQuiet : IsQuiet (reject_payout E)
  unfolding reject_payout
  reject_payout-IsQuiet =
      search
        (
          quiet_rules, save_active_phase-IsQuiet, sync_report-IsQuiet, archive-IsQuiet,
          clear-IsQuiet, alert_once-IsQuiet,
        )
        depth 40

  pub block_uncertain_payout-IsQuiet :
      (reason key : String) → IsQuiet (block_uncertain_payout E reason key)
  unfolding block_uncertain_payout
  block_uncertain_payout-IsQuiet reason key =
      search
        (
          quiet_rules, save_active_phase-IsQuiet, sync_report-IsQuiet, archive-IsQuiet,
          alert_once-IsQuiet,
        )
        depth 40
