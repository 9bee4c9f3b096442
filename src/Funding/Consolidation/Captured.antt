-- ===== src/Funding/Consolidation/Captured.antt =====
-- A consolidation before and behind its callback, which runs once the claimables are captured.
use builder_code_bot.Prelude.{ℕ, String}
use builder_code_bot.Prelude.Dict.{Dict}
use builder_code_bot.Funding.Model.{Token, Trigger}
use builder_code_bot.Funding.Action.{◌>>=◌}
use builder_code_bot.Funding.Action.Keeps.{Keeps, keeps_rules}
use builder_code_bot.Funding.Action.Leads.{Leads, Leads-bind, Leads-of_state, Keeps-of_Leads}
use builder_code_bot.Funding.Env.{History, Env}
use builder_code_bot.Funding.Report.{DailyConsolidationStatus}
use builder_code_bot.Funding.Session.{Session, Task}
use builder_code_bot.Funding.Safety.Quiet.{
  none_added, IsQuiet, IsQuiet-bind, IsClosed, Adds-keeps, now-IsQuiet, report-IsQuiet,
  forget_alerts-IsQuiet,
}
use builder_code_bot.Funding.Safety.Quiet.Calls.{
  call_rules, save_daily-IsQuiet, observe_user_rate_limits-IsQuiet,
}
use builder_code_bot.Funding.Fresh.{new_state}
use builder_code_bot.Funding.Consolidation.Calls.{
  query_consolidation_token-IsQuiet, capture_builder_claimables-IsQuiet,
}
use builder_code_bot.Funding.Consolidation.Costs.{Grows}
use builder_code_bot.Funding.Consolidation.Sweeping.{claim_and_sweep-Costs, all-IsCharged}
use builder_code_bot.Funding.Consolidation.Run.{claim_and_sweep, consolidate, run_consolidation}
use builder_code_bot.Funding.Consolidation.Daily.{record_daily}

pub new_state-IsQuiet : (E : Env) (t : Trigger) → IsQuiet (new_state E t)
unfolding new_state
new_state-IsQuiet E t =
    IsQuiet-bind _ _ (record { at = λ s. none_added })
      λ id. search (call_rules, now-IsQuiet) depth 16

module _ (E : Env) where
  pub record_daily-IsQuiet :
      (d : String) (x : DailyConsolidationStatus) (n : ℕ) (m : String)
      → IsQuiet (record_daily E d x n m)
  unfolding record_daily
  record_daily-IsQuiet d x n m = search (call_rules, save_daily-IsQuiet) depth 12

-- What every effect but a request keeps, and every effect once the claimables are captured.
module _ (E : Env) (H Q : History (E.Decimal) → Type 0) (closed : IsClosed H)
    (grows : (h k : History (E.Decimal)) → Grows h k → Q h → Q k)
    (wide : (h : History (E.Decimal)) → Q h → H h) where
  abbrev At : Session (E.Decimal) → Type 0
  At s = H s.history

  abbrev Behind : Session (E.Decimal) → Type 0
  Behind s = Q s.history

  quiet-Keeps : {B : Type 0} (m : Task E B) → IsQuiet m → Keeps At m
  quiet-Keeps m q = record { at = λ s p. Adds-keeps closed (q.at s) p }

  claims-Leads : (t : Token) (c : Dict (E.Decimal)) → Leads Behind (claim_and_sweep E t c) At At
  claims-Leads t c =
      Leads-of_state _
        λ s p. wide _ (grows _ _ ((claim_and_sweep-Costs E _ _ (all-IsCharged E) t c).grows s) p)

  captured-Keeps :
      (on_captured : Task E (Unit {0})) (t : Token) (c : Dict (E.Decimal))
      → Leads At on_captured Behind At
      → Keeps At (on_captured >>= λ _. claim_and_sweep E t c)
  captured-Keeps on_captured t c k = Keeps-of_Leads _ (Leads-bind _ _ k λ _. claims-Leads t c)

  consolidate-Keeps :
      (on_captured : Task E (Unit {0}))
      → Leads At on_captured Behind At
      → Keeps At (consolidate E on_captured)
  unfolding consolidate
  consolidate-Keeps on_captured k =
      search
        (
          keeps_rules, call_rules, quiet-Keeps, query_consolidation_token-IsQuiet,
          capture_builder_claimables-IsQuiet, now-IsQuiet, report-IsQuiet, captured-Keeps,
        )
        depth 20

  pub run_consolidation-Keeps :
      (t : Trigger) (on_captured : Task E (Unit {0}))
      → Leads At on_captured Behind At
      → Keeps At (run_consolidation E t on_captured)
  unfolding run_consolidation
  run_consolidation-Keeps t on_captured k =
      search
        (
          keeps_rules, call_rules, quiet-Keeps, new_state-IsQuiet, now-IsQuiet, consolidate-Keeps,
          observe_user_rate_limits-IsQuiet, forget_alerts-IsQuiet,
        )
        depth 24
