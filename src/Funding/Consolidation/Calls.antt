-- ===== src/Funding/Consolidation/Calls.antt =====
-- What the parts of a consolidation call: nothing is sent before the claims, and whatever every call
-- keeps is kept by the claims and the sweep.
use builder_code_bot.Prelude.{ℕ, zero, suc, List, [], ◌∷◌, String}
use builder_code_bot.Prelude.Dict.{Dict}
use builder_code_bot.Funding.Model.{Token, SpotBalanceAmounts}
use builder_code_bot.Funding.Action.{Failure, Result}
use builder_code_bot.Funding.Env.{Env}
use builder_code_bot.Funding.Session.{Task}
use builder_code_bot.Funding.Safety.Quiet.{
  IsQuiet, IsQuiet-bind, sleep-IsQuiet, spot_balance-IsQuiet, canonical_usdc-IsQuiet,
  check_context-IsQuiet, alert_once-IsQuiet,
}
use builder_code_bot.Funding.Safety.Quiet.Calls.{call_rules, claimable_usdc-IsQuiet}
use builder_code_bot.Funding.Consolidation.Parallel.{call_all, gather, builder_failure}
use builder_code_bot.Funding.Consolidation.Claimables.{
  query_token, query_consolidation_token, query_claimable, record_claimables, claimable_rounds,
  fail_builders, capture_builder_claimables,
}
use builder_code_bot.Funding.Consolidation.Baselines.{
  Repeat, query_balance, record_baselines, baseline_rounds, warn_without_baseline,
  capture_claim_balance_baselines,
}

module _ (E : Env) where
  open E use {Decimal}

  call_all-IsQuiet :
      {R : Type 0} (f : String → Task E R) (l : List String)
      → ((b : String) → IsQuiet (f b))
      → IsQuiet (call_all E f l)
  unfolding call_all
  call_all-IsQuiet f [] k = search call_rules
  call_all-IsQuiet f (b ∷ bs) k =
      IsQuiet-bind _ _ (k b)
        λ r. IsQuiet-bind _ _ (call_all-IsQuiet f bs k) λ rest. search call_rules

  pub gather-IsQuiet :
      {R : Type 0} (f : String → Task E R) (l : List String)
      → ((b : String) → IsQuiet (f b))
      → IsQuiet (gather E f l)
  unfolding gather
  gather-IsQuiet f l k = IsQuiet-bind _ _ (search call_rules) λ order. call_all-IsQuiet f order k

  pub builder_failure-IsQuiet : (b a o : String) → IsQuiet (builder_failure E b a o)
  unfolding builder_failure
  builder_failure-IsQuiet b a o = search (call_rules, alert_once-IsQuiet) depth 12

  query_token-IsQuiet : (left : ℕ) (e : Failure) → IsQuiet (query_token E left e)
  unfolding query_token
  query_token-IsQuiet zero e = search call_rules
  query_token-IsQuiet (suc left) e =
      search
        (
          call_rules,
          canonical_usdc-IsQuiet,
          check_context-IsQuiet,
          sleep-IsQuiet,
          query_token-IsQuiet left,
        )
        depth 16

  pub query_consolidation_token-IsQuiet : IsQuiet (query_consolidation_token E)
  unfolding query_consolidation_token
  query_consolidation_token-IsQuiet = search query_token-IsQuiet

  query_claimable-IsQuiet : (t : Token) (b : String) → IsQuiet (query_claimable E t b)
  unfolding query_claimable
  query_claimable-IsQuiet t b = search (call_rules, claimable_usdc-IsQuiet) depth 12

  record_claimables-IsQuiet :
      (n : ℕ) (round : Dict (Result Decimal)) (l : List String) (c : Dict Decimal)
      → IsQuiet (record_claimables E n round l c)
  unfolding record_claimables
  record_claimables-IsQuiet n round [] c = search call_rules
  record_claimables-IsQuiet n round (b ∷ bs) c =
      search (call_rules, record_claimables-IsQuiet n round bs) depth 16

  claimable_rounds-IsQuiet :
      (t : Token) (left : ℕ) (l : List String) (c : Dict Decimal)
      → IsQuiet (claimable_rounds E t left l c)
  unfolding claimable_rounds
  claimable_rounds-IsQuiet t zero l c = search call_rules
  claimable_rounds-IsQuiet t (suc left) l c =
      search
        (
          call_rules,
          gather-IsQuiet,
          query_claimable-IsQuiet,
          check_context-IsQuiet,
          record_claimables-IsQuiet,
          sleep-IsQuiet,
          claimable_rounds-IsQuiet t left,
        )
        depth 20

  pub fail_builders-IsQuiet : (l : List String) (a o : String) → IsQuiet (fail_builders E l a o)
  unfolding fail_builders
  fail_builders-IsQuiet [] a o = search call_rules
  fail_builders-IsQuiet (b ∷ bs) a o =
      IsQuiet-bind _ _ (builder_failure-IsQuiet b a o) λ _. fail_builders-IsQuiet bs a o

  pub capture_builder_claimables-IsQuiet : (t : Token) → IsQuiet (capture_builder_claimables E t)
  unfolding capture_builder_claimables
  capture_builder_claimables-IsQuiet t =
      search (call_rules, claimable_rounds-IsQuiet, fail_builders-IsQuiet) depth 12

  query_balance-IsQuiet : (t : Token) (b : String) → IsQuiet (query_balance E t b)
  unfolding query_balance
  query_balance-IsQuiet t b = search (call_rules, spot_balance-IsQuiet) depth 12

  record_baselines-IsQuiet :
      (round : Dict (Result (SpotBalanceAmounts Decimal))) (l : List String)
      (r : Dict (Repeat Decimal)) (c : Dict (SpotBalanceAmounts Decimal))
      → IsQuiet (record_baselines E round l r c)
  unfolding record_baselines
  record_baselines-IsQuiet round [] r c = search call_rules
  record_baselines-IsQuiet round (b ∷ bs) r c =
      search (call_rules, record_baselines-IsQuiet round bs) depth 16

  baseline_rounds-IsQuiet :
      (t : Token) (left : ℕ) (l : List String) (r : Dict (Repeat Decimal))
      (c : Dict (SpotBalanceAmounts Decimal))
      → IsQuiet (baseline_rounds E t left l r c)
  unfolding baseline_rounds
  baseline_rounds-IsQuiet t zero l r c = search call_rules
  baseline_rounds-IsQuiet t (suc left) l r c =
      search
        (
          call_rules,
          gather-IsQuiet,
          query_balance-IsQuiet,
          check_context-IsQuiet,
          record_baselines-IsQuiet,
          sleep-IsQuiet,
          baseline_rounds-IsQuiet t left,
        )
        depth 20

  warn_without_baseline-IsQuiet : (l : List String) → IsQuiet (warn_without_baseline E l)
  unfolding warn_without_baseline
  warn_without_baseline-IsQuiet [] = search call_rules
  warn_without_baseline-IsQuiet (b ∷ bs) =
      IsQuiet-bind _ _ (search call_rules)
        λ _. IsQuiet-bind _ _ (alert_once-IsQuiet E _ _ _) λ _. warn_without_baseline-IsQuiet bs

  pub capture_claim_balance_baselines-IsQuiet :
      (t : Token) (c : Dict Decimal) → IsQuiet (capture_claim_balance_baselines E t c)
  unfolding capture_claim_balance_baselines
  capture_claim_balance_baselines-IsQuiet t c =
      search (call_rules, baseline_rounds-IsQuiet, warn_without_baseline-IsQuiet) depth 12
