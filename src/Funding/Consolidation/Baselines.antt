-- ===== src/Funding/Consolidation/Baselines.antt =====
-- claimEligible and captureClaimBalanceBaselines of internal/funding/orchestrator.go.
use builder_code_bot.Prelude.{
  ℕ, zero, suc, Bool, true, ◌&&◌, not, Option, none, some, List, [], ◌∷◌, String, leb,
  if◌then◌else◌,
}
use builder_code_bot.Prelude.Text.{◌+++◌, lower_text}
use builder_code_bot.Prelude.Dict.{Dict, find, put, remove}
use builder_code_bot.Funding.Model.{Token, SpotBalanceAmounts}
use builder_code_bot.Funding.Action.{Result, ok, err, pure, capture, when, on_result, ◌>>=◌, ◌>>◌}
use builder_code_bot.Funding.Env.{AlertSeverity, Env}
use builder_code_bot.Funding.Report.{ReportStepStatus}
use builder_code_bot.Funding.Report.Builders.{warn_builder}
use builder_code_bot.Funding.Session.{Task, sleep, spot_balance, check_context}
use builder_code_bot.Funding.Progress.{report, alert_once}
use builder_code_bot.Funding.Run.{same_spot_balance}
use builder_code_bot.Funding.Consolidation.Parallel.{is_empty, slot, gather}

abbrev pub claim_baseline_query_attempts : ℕ
claim_baseline_query_attempts = 5

abbrev claim_baseline_query_interval : ℕ
claim_baseline_query_interval = 1000

abbrev pub claim_baseline_required_confirmations : ℕ
claim_baseline_required_confirmations = 2

abbrev claim_reward_threshold_usdc : ℕ
claim_reward_threshold_usdc = 1

-- A balance and how often in a row it was seen. A builder without one has `consecutive` 0.
pub record Repeat (A : Type 0) : Type 0 where
  pub candidate : SpotBalanceAmounts A
  pub times : ℕ

module _ (E : Env) where
  open E use {Decimal}

  -- The amounts of a SpotBalanceAmounts{}.
  abbrev pub zero_balance : SpotBalanceAmounts Decimal
  zero_balance = record { total = E.from_int 0; available = E.from_int 0 }

  unfoldable pub threshold : Decimal
  threshold = E.from_int claim_reward_threshold_usdc

  -- `none` is a claimable that was not observed.
  unfoldable pub claim_eligible : Option Decimal → Bool
  unfolding threshold
  claim_eligible none = true
  claim_eligible (some claimable) = not (E.less_than claimable threshold)

  unfoldable pub repeat_balance :
      SpotBalanceAmounts Decimal → Option (Repeat Decimal) → Repeat Decimal
  repeat_balance balance none = record { candidate = balance; times = 1 }
  repeat_balance balance (some r) =
      if leb 1 r.times && same_spot_balance E balance (some r.candidate)
      then record r { times = suc r.times }
      else record { candidate = balance; times = 1 }

  unfoldable pub eligible_builders : Dict Decimal → List String → List String
  unfolding claim_eligible
  eligible_builders claimables [] = []
  eligible_builders claimables (b ∷ bs) =
      let rest = eligible_builders claimables bs in
      if claim_eligible (find b claimables) then b ∷ rest else rest

  unfoldable pub query_balance : Token → String → Task E (Result (SpotBalanceAmounts Decimal))
  query_balance token builder = do
    answer ← capture (spot_balance E builder token)
    on_result answer (λ balance. pure (ok balance)) λ e. pure (err e)

  -- The arrays of the loop: who is pending, the repeated balances and the baselines.
  unfoldable pub record_baselines :
      Dict (Result (SpotBalanceAmounts Decimal))
      → List String
      → Dict (Repeat Decimal)
      → Dict (SpotBalanceAmounts Decimal)
      → Task E (List String × Dict (Repeat Decimal) × Dict (SpotBalanceAmounts Decimal))
  unfolding repeat_balance
  record_baselines round [] repeats baselines = pure ([], repeats, baselines)
  record_baselines round (b ∷ bs) repeats baselines =
      on_result (slot (ok zero_balance) b round)
        (λ balance. do
          let r = repeat_balance balance (find b repeats)
          let confirmed = leb claim_baseline_required_confirmations r.times
          (pending, repeats', baselines') ←
              record_baselines round bs (put b r repeats)
                (if confirmed then put b balance baselines else baselines)
          pure (if confirmed then pending else b ∷ pending, repeats', baselines'))
        λ e. do
          (pending, repeats', baselines') ← record_baselines round bs (remove b repeats) baselines
          pure (b ∷ pending, repeats', baselines')

  -- The rounds that are left of `claim_baseline_query_attempts`.
  unfoldable pub baseline_rounds :
      Token
      → ℕ
      → List String
      → Dict (Repeat Decimal)
      → Dict (SpotBalanceAmounts Decimal)
      → Task E (List String × Dict (SpotBalanceAmounts Decimal))
  unfolding query_balance record_baselines
  baseline_rounds token zero pending repeats baselines = pure (pending, baselines)
  baseline_rounds token (suc left) pending repeats baselines =
      if is_empty pending then pure (pending, baselines) else (do
        round ← gather E (query_balance token) pending
        check_context E
        (pending', repeats', baselines') ← record_baselines round pending repeats baselines
        when (not (is_empty pending') && leb 1 left) (sleep E claim_baseline_query_interval)
        baseline_rounds token left pending' repeats' baselines')

  unfoldable pub warn_without_baseline : List String → Task E (Unit {0})
  warn_without_baseline [] = pure tt
  warn_without_baseline (b ∷ bs) = do
    let summary : String = "Claim 前余额基线查询失败，未提交 Reward 领取"
    report E (
        warn_builder b
          (λ r. record r { claim_status = ReportStepStatus.warning; claim_summary = summary })
          summary)
    alert_once E ("builder_claim_baseline_failed:" +++ lower_text b) AlertSeverity.warning
        ("builder pre-claim balance baseline query failed\nbuilder: " +++ b)
    warn_without_baseline bs

  unfoldable pub capture_claim_balance_baselines :
      Token → Dict Decimal → Task E (Dict (SpotBalanceAmounts Decimal))
  unfolding eligible_builders baseline_rounds warn_without_baseline
  capture_claim_balance_baselines token claimables = do
    (pending, baselines) ←
        baseline_rounds token claim_baseline_query_attempts
          (eligible_builders claimables E.builders) [] []
    warn_without_baseline pending
    pure baselines
