-- ===== src/Funding/Consolidation/Observe.antt =====
-- observeClaimBalances of internal/funding/orchestrator.go: the balances after the claims.
use builder_code_bot.Prelude.{
  ℕ, zero, suc, Bool, true, false, ◌&&◌, ◌||◌, not, List, [], ◌∷◌, String, leb, if◌then◌else◌,
}
use builder_code_bot.Prelude.Text.{◌+++◌, lower_text, int_text}
use builder_code_bot.Prelude.Dict.{Dict, find, put, remove}
use builder_code_bot.Funding.Model.{Token, SpotBalanceAmounts}
use builder_code_bot.Funding.Action.{pure, capture, when, on_result, on_option, ◌>>=◌, ◌>>◌}
use builder_code_bot.Funding.Env.{AlertSeverity, Env}
use builder_code_bot.Funding.Report.{ReportStepStatus, BuilderReport}
use builder_code_bot.Funding.Report.Update.{update_builder}
use builder_code_bot.Funding.Report.Builders.{warn_builder}
use builder_code_bot.Funding.Session.{Task, sleep, spot_balance, claimable_usdc, check_context}
use builder_code_bot.Funding.Progress.{report, alert_once}
use builder_code_bot.Funding.Consolidation.Parallel.{builder_failure}
use builder_code_bot.Funding.Consolidation.Baselines.{Repeat, repeat_balance}
use builder_code_bot.Funding.Consolidation.Claims.{ClaimBalanceTarget, Target, visible}

abbrev pub claim_balance_observation_attempts : ℕ
claim_balance_observation_attempts = 10

abbrev claim_balance_observation_interval : ℕ
claim_balance_observation_interval = 1000

abbrev pub claim_balance_required_confirmations : ℕ
claim_balance_required_confirmations = 2

-- The maps of the loop. A builder with `consecutive` 0 has no entry in `repeats`.
pub record Observation (A : Type 0) : Type 0 where
  pub balances : Dict (SpotBalanceAmounts A)
  pub pending : Dict (ClaimBalanceTarget A)
  pub repeats : Dict (Repeat A)

abbrev none_pending : {A : Type 0} → Dict (ClaimBalanceTarget A) → Bool
none_pending [] = true
none_pending (p ∷ ps) = false

resolved : BuilderReport → BuilderReport
resolved r = record r {
  claim_uncertain = false;
  claim_status = ReportStepStatus.success;
  claim_summary =
      "Reward 已领取（由余额增长确认；未重发）" +++ (if r.claimable_observed then "" else "；零点 Claimable 数据缺失");
}

module _ (E : Env) where
  open E use {Decimal}

  unfoldable pub record_builder_balance : String → SpotBalanceAmounts Decimal → Task E (Unit {0})
  record_builder_balance b balance = report E (
      update_builder b λ r. record r {
        final_total = E.to_string balance.total;
        final_available = E.to_string balance.available;
      })

  -- An uncertain claim's balance before it, seen after it was submitted.
  unfoldable pub see_pre_state : SpotBalanceAmounts Decimal → Target E → Target E
  see_pre_state balance t =
      if t.submit_unknown
        && (E.equal balance.total t.total_before && E.equal balance.available t.available_before)
      then record t { pre_state_seen = true }
      else t

  -- Whether the balance shows the claim; `transitioned` is whether the claimable has gone down.
  unfoldable pub shows_claim : Target E → SpotBalanceAmounts Decimal → Bool → Bool
  shows_claim t balance transitioned =
      visible E t balance.total
      && (transitioned && (not t.submit_unknown || (t.pre_state_seen && t.claimable_known)))

  -- One more balance that shows the claim, or one that does not.
  unfoldable pub count_claim :
      String
      → Target E
      → SpotBalanceAmounts Decimal
      → Bool
      → Observation Decimal
      → Task E (Observation Decimal)
  unfolding resolved
  count_claim b t balance false w = pure (record w { repeats = remove b w.repeats })
  count_claim b t balance true w = do
    let r = repeat_balance E balance (find b w.repeats)
    let w' : Observation Decimal = record w { repeats = put b r w.repeats }
    if leb claim_balance_required_confirmations r.times
        then (do
          when t.submit_unknown (report E (update_builder b resolved))
          pure (record w' { pending = remove b w'.pending }))
        else pure w'

  -- An uncertain claim that the balance shows is checked against the claimable.
  unfoldable pub after_balance :
      Token
      → String
      → Target E
      → SpotBalanceAmounts Decimal
      → Observation Decimal
      → Task E (Observation Decimal)
  unfolding shows_claim count_claim
  after_balance token b t balance w =
      if visible E t balance.total && (t.submit_unknown && t.claimable_known)
      then (do
        answer ← capture (claimable_usdc E b token)
        on_result answer
            (λ after.
              count_claim b t balance (shows_claim t balance (E.less_than after t.claimable_before))
                w)
            λ e. pure (record w { repeats = remove b w.repeats }))
      else count_claim b t balance
          (shows_claim t balance (not t.submit_unknown || not t.claimable_known)) w

  unfoldable pub observe_builder :
      Token → String → Target E → Observation Decimal → Task E (Observation Decimal)
  unfolding record_builder_balance see_pre_state after_balance
  observe_builder token b t w = do
    check_context E
    answer ← capture (spot_balance E b token)
    on_result answer
        (λ balance. do
          let t' = see_pre_state balance t
          record_builder_balance b balance
          after_balance token b t' balance
              (record w { balances = put b balance w.balances; pending = put b t' w.pending }))
        λ e. pure (record w { repeats = remove b w.repeats })

  unfoldable pub observe_builders :
      Token → List String → Observation Decimal → Task E (Observation Decimal)
  unfolding observe_builder
  observe_builders token [] w = pure w
  observe_builders token (b ∷ bs) w = do
    w' ← on_option (find b w.pending) (pure w) (λ t. observe_builder token b t w)
    observe_builders token bs w'

  -- The rounds that are left of `claim_balance_observation_attempts`.
  unfoldable pub observe_rounds : Token → ℕ → Observation Decimal → Task E (Observation Decimal)
  unfolding observe_builders
  observe_rounds token zero w = pure w
  observe_rounds token (suc left) w = do
    w' ← observe_builders token E.builders w
    if none_pending w'.pending then pure w' else (do
      when (leb 1 left) (sleep E claim_balance_observation_interval)
      observe_rounds token left w')

  unfoldable pub mark_claim_uncertain : String → Task E (Unit {0})
  mark_claim_uncertain b = do
    report E (update_builder b λ r. record r { claim_uncertain = true })
    builder_failure E b "claimRewards" "unknown"

  unfoldable pub claim_balance_observation_exhausted : String → Target E → Task E (Unit {0})
  unfolding mark_claim_uncertain
  claim_balance_observation_exhausted b t = do
    let summary : String =
        "Reward 余额未在 " +++ int_text claim_balance_observation_attempts +++ " 次查询内确认刷新"
    let accepted : String = "Reward 请求已接受，但余额未确认刷新"
    report E (
        warn_builder b
          (λ r. record r { sweep_status = ReportStepStatus.warning; sweep_summary = summary })
          summary)
    if t.submit_unknown
        then mark_claim_uncertain b
        else report E (
            warn_builder b
              (λ r. record r { claim_status = ReportStepStatus.warning; claim_summary = accepted })
              accepted)
    alert_once E ("builder_claim_balance_not_visible:" +++ lower_text b) AlertSeverity.warning (
        "builder claim balance did not become visible\nbuilder: "
        +++ b
        +++ "\nminimum increase: "
        +++ E.to_string t.minimum_increase
        +++ "\nattempts: "
        +++ int_text claim_balance_observation_attempts)

  -- The claims that are still pending are unconverged.
  unfoldable pub exhaust_claims : List String → Dict (Target E) → Task E (Dict (Unit {0}))
  unfolding claim_balance_observation_exhausted
  exhaust_claims [] pending = pure []
  exhaust_claims (b ∷ bs) pending = on_option (find b pending) (exhaust_claims bs pending) λ t. do
    claim_balance_observation_exhausted b t
    rest ← exhaust_claims bs pending
    pure (put b tt rest)

  unfoldable pub observe_claim_balances :
      Token → Dict (Target E) → Task E (Dict (SpotBalanceAmounts Decimal) × Dict (Unit {0}))
  unfolding observe_rounds exhaust_claims
  observe_claim_balances token [] = pure ([], [])
  observe_claim_balances token (t ∷ ts) = do
    sleep E claim_balance_observation_interval
    w ←
        observe_rounds token claim_balance_observation_attempts
          (record { balances = []; pending = t ∷ ts; repeats = [] })
    unconverged ← exhaust_claims E.builders w.pending
    pure (w.balances, unconverged)
