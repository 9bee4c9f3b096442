-- ===== src/Funding/Consolidation/Watching.antt =====
-- The observation of the balances after the claims sends nothing.
use builder_code_bot.Prelude.{ℕ, zero, suc, Bool, true, false, List, [], ◌∷◌, String}
use builder_code_bot.Prelude.Dict.{Dict}
use builder_code_bot.Funding.Model.{Token, SpotBalanceAmounts}
use builder_code_bot.Funding.Env.{Env}
use builder_code_bot.Funding.Safety.Quiet.{
  IsQuiet, IsQuiet-bind, sleep-IsQuiet, spot_balance-IsQuiet, check_context-IsQuiet,
  alert_once-IsQuiet,
}
use builder_code_bot.Funding.Safety.Quiet.Calls.{call_rules, claimable_usdc-IsQuiet}
use builder_code_bot.Funding.Consolidation.Claims.{Target}
use builder_code_bot.Funding.Consolidation.Observe.{
  Observation, record_builder_balance, count_claim, after_balance, observe_builder,
  observe_builders, observe_rounds, mark_claim_uncertain, claim_balance_observation_exhausted,
  exhaust_claims, observe_claim_balances,
}
use builder_code_bot.Funding.Consolidation.Calls.{builder_failure-IsQuiet}

module _ (E : Env) where
  open E use {Decimal}

  pub record_builder_balance-IsQuiet :
      (b : String) (x : SpotBalanceAmounts Decimal) → IsQuiet (record_builder_balance E b x)
  unfolding record_builder_balance
  record_builder_balance-IsQuiet b x = search call_rules

  count_claim-IsQuiet :
      (b : String) (t : Target E) (x : SpotBalanceAmounts Decimal) (shown : Bool)
      (w : Observation Decimal)
      → IsQuiet (count_claim E b t x shown w)
  unfolding count_claim
  count_claim-IsQuiet b t x false w = search call_rules
  count_claim-IsQuiet b t x true w = search call_rules depth 12

  after_balance-IsQuiet :
      (token : Token) (b : String) (t : Target E) (x : SpotBalanceAmounts Decimal)
      (w : Observation Decimal)
      → IsQuiet (after_balance E token b t x w)
  unfolding after_balance
  after_balance-IsQuiet token b t x w =
      search (call_rules, claimable_usdc-IsQuiet, count_claim-IsQuiet) depth 12

  observe_builder-IsQuiet :
      (token : Token) (b : String) (t : Target E) (w : Observation Decimal)
      → IsQuiet (observe_builder E token b t w)
  unfolding observe_builder
  observe_builder-IsQuiet token b t w =
      search
        (
          call_rules, check_context-IsQuiet, spot_balance-IsQuiet, record_builder_balance-IsQuiet,
          after_balance-IsQuiet,
        )
        depth 14

  observe_builders-IsQuiet :
      (token : Token) (l : List String) (w : Observation Decimal)
      → IsQuiet (observe_builders E token l w)
  unfolding observe_builders
  observe_builders-IsQuiet token [] w = search call_rules
  observe_builders-IsQuiet token (b ∷ bs) w =
      IsQuiet-bind _ _ (search (call_rules, observe_builder-IsQuiet))
        λ v. observe_builders-IsQuiet token bs v

  observe_rounds-IsQuiet :
      (token : Token) (left : ℕ) (w : Observation Decimal) → IsQuiet (observe_rounds E token left w)
  unfolding observe_rounds
  observe_rounds-IsQuiet token zero w = search call_rules
  observe_rounds-IsQuiet token (suc left) w =
      search
        (call_rules, observe_builders-IsQuiet, sleep-IsQuiet, observe_rounds-IsQuiet token left)
        depth 14

  claim_balance_observation_exhausted-IsQuiet :
      (b : String) (t : Target E) → IsQuiet (claim_balance_observation_exhausted E b t)
  unfolding claim_balance_observation_exhausted mark_claim_uncertain
  claim_balance_observation_exhausted-IsQuiet b t =
      search (call_rules, builder_failure-IsQuiet, alert_once-IsQuiet) depth 16

  exhaust_claims-IsQuiet : (l : List String) (p : Dict (Target E)) → IsQuiet (exhaust_claims E l p)
  unfolding exhaust_claims
  exhaust_claims-IsQuiet [] p = search call_rules
  exhaust_claims-IsQuiet (b ∷ bs) p =
      search (call_rules, claim_balance_observation_exhausted-IsQuiet, exhaust_claims-IsQuiet bs)
        depth 12

  pub observe_claim_balances-IsQuiet :
      (token : Token) (t : Dict (Target E)) → IsQuiet (observe_claim_balances E token t)
  unfolding observe_claim_balances
  observe_claim_balances-IsQuiet token [] = search call_rules
  observe_claim_balances-IsQuiet token (t ∷ ts) =
      search (call_rules, sleep-IsQuiet, observe_rounds-IsQuiet, exhaust_claims-IsQuiet) depth 14
