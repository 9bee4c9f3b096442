-- ===== src/Funding/Consolidation/Claims.antt =====
-- claimBuilderRewards of internal/funding/orchestrator.go, and RejectionMessage of
-- internal/hyperliquid/exchange/types.go.
use builder_code_bot.Prelude.{
  ℕ, ◌^◌, ◌-◌, ◌%◌, Bool, true, false, ◌&&◌, not, Option, none, some, List, [], ◌∷◌, String, ltb,
  if◌then◌else◌,
}
use builder_code_bot.Prelude.Int.{ℤ, pos, negsuc}
use builder_code_bot.Prelude.Text.{text_eq, ◌+++◌}
use builder_code_bot.Prelude.Dict.{Dict, find, put, find_or, has_key}
use builder_code_bot.Funding.Model.{Token, SpotBalanceAmounts, SubmitResult}
use builder_code_bot.Funding.Action.{Failure, pure, capture, on_result, ◌>>=◌, ◌>>◌}
use builder_code_bot.Funding.Env.{Env}
use builder_code_bot.Funding.Report.{ReportStepStatus}
use builder_code_bot.Funding.Report.Update.{update_builder, mark_submitted}
use builder_code_bot.Funding.Report.Builders.{set_builder_stage}
use builder_code_bot.Funding.Session.{Task, check_context, next_nonce, prepare_claim, submit}
use builder_code_bot.Funding.Progress.{report}
use builder_code_bot.Funding.Consolidation.Parallel.{slot, gather, builder_failure}
use builder_code_bot.Funding.Consolidation.Baselines.{zero_balance, threshold, claim_eligible}

abbrev claim_below_threshold_rejection : String
claim_below_threshold_rejection = "Must have at least 1 of a reward token to claim"

pub record ClaimBalanceTarget (A : Type 0) : Type 0 where
  pub total_before : A
  pub available_before : A
  pub claimable_before : A
  pub claimable_known : Bool
  pub minimum_increase : A
  pub submit_unknown : Bool
  pub pre_state_seen : Bool  -- preStateSeenAfterSubmit

-- claimAttemptResult: its index is the key of the round's slot.
pub data ClaimAttempt : Type 0 where
  prepare_failed : Failure → ClaimAttempt
  returned : SubmitResult → Option Failure → ClaimAttempt

abbrev pub no_result : SubmitResult
no_result = record { accepted = false; rejected = false; response = [] }

-- The conversion int32(n) of an int.
unfoldable pub int32 : ℤ → ℤ
int32 (pos n) = let m = n % 2 ^ 32 in if ltb m (2 ^ 31) then pos m else negsuc (2 ^ 32 - 1 - m)
int32 (negsuc n) = let m = n % 2 ^ 32 in if ltb m (2 ^ 31) then negsuc m else pos (2 ^ 32 - 1 - m)

module _ (E : Env) where
  open E use {Decimal}

  abbrev pub Target : Type 0
  Target = ClaimBalanceTarget Decimal

  unfoldable pub minimum_total : Target → Decimal
  minimum_total t = E.add t.total_before t.minimum_increase

  unfoldable pub visible : Target → Decimal → Bool
  unfolding minimum_total
  visible t total = not (E.less_than total (minimum_total t))

  -- decimal.Truncate leaves a number as it is if the places are negative.
  truncate_int32 : ℤ → Decimal → Decimal
  truncate_int32 (pos n) x = E.truncate n x
  truncate_int32 (negsuc n) x = x

  rejection_text : String × List ℕ → Option String
  rejection_text (status, response) = if text_eq status "err" then E.decode_text response else none

  unfoldable pub rejection_message : SubmitResult → Option String
  unfolding rejection_text
  rejection_message r =
      if r.rejected
      then (elim r.response [
        | [] ↦ none
        | c ∷ cs ↦ elim (E.decode_rejection (c ∷ cs)) [ none ↦ none | some e ↦ rejection_text e ]
      ])
      else none

  unfoldable pub claim_below_threshold : SubmitResult → Bool
  unfolding rejection_message
  claim_below_threshold r = elim (rejection_message r) [
    | none ↦ false
    | some message ↦ text_eq message claim_below_threshold_rejection
  ]

  -- The builders whose reward is claimed: eligible, and with a baseline. The ineligible ones are
  -- reported as skipped.
  unfoldable pub select_claims :
      Dict Decimal → Dict (SpotBalanceAmounts Decimal) → List String → Task E (List String)
  select_claims claimables baselines [] = pure []
  select_claims claimables baselines (b ∷ bs) =
      if claim_eligible E (find b claimables)
      then (do
        rest ← select_claims claimables baselines bs
        pure (if has_key b baselines then b ∷ rest else rest))
      else (do
        report E (
            update_builder b λ r. record r {
              claim_status = ReportStepStatus.skipped;
              claim_summary = "低于 1 USDC 阈值";
            })
        select_claims claimables baselines bs)

  unfoldable pub draw_nonces : List String → Task E (Dict ℕ)
  draw_nonces [] = pure []
  draw_nonces (b ∷ bs) = do
    nonce ← next_nonce E
    nonces ← draw_nonces bs
    pure ((b, nonce) ∷ nonces)

  -- A goroutine of the round.
  unfoldable pub claim : Dict ℕ → String → Task E ClaimAttempt
  claim nonces builder = do
    prepared ← capture (prepare_claim E builder (find_or 0 builder nonces))
    on_result prepared
        (λ action. do (result, e) ← submit E action; pure (ClaimAttempt.returned result e))
        λ e. pure (ClaimAttempt.prepare_failed e)

  unfoldable pub claim_target : Token → Option Decimal → SpotBalanceAmounts Decimal → Target
  unfolding truncate_int32
  claim_target token claimable baseline = record {
    total_before = baseline.total;
    available_before = baseline.available;
    claimable_before = elim claimable [ none ↦ E.from_int 0 | some c ↦ c ];
    claimable_known = elim claimable [ none ↦ false | some c ↦ true ];
    minimum_increase = elim claimable [
      | none ↦ threshold E
      | some c ↦ truncate_int32 (int32 token.wei_decimals) c
    ];
    submit_unknown = false;
    pre_state_seen = false;
  }

  claimed_summary : Bool → String
  claimed_summary known = "Reward 已领取" +++ (if known then "" else "；零点 Claimable 数据缺失")

  uncertain_claim : String → Target → Task E (Option Target)
  uncertain_claim b target = do
    report E (
        update_builder b
          λ r. record r { claim_uncertain = true; claim_summary = "Reward 提交结果不确定，等待余额变化确认" })
    pure (some (record target { submit_unknown = true }))

  -- What the answer to a claim means: the balance target to observe, if there is one.
  unfoldable pub settle_claim :
      String → Target → SubmitResult → Option Failure → Task E (Option Target)
  unfolding claim_below_threshold claimed_summary uncertain_claim
  settle_claim b target result (some e) = uncertain_claim b target
  settle_claim b target result none =
      if result.accepted
      then (do
        report E (
            update_builder b λ r. record r {
              claim_status = ReportStepStatus.success;
              claim_summary = claimed_summary target.claimable_known;
            })
        pure (some target))
      else if result.rejected && (not target.claimable_known && claim_below_threshold result)
      then (do
        report E (
            update_builder b λ r. record r {
              claim_status = ReportStepStatus.skipped;
              claim_summary = "未达到 1 USDC 领取门槛（由交易所确认）";
            })
        pure none)
      else if result.rejected
      then (builder_failure E b "claimRewards" "rejected" >> pure none)
      else uncertain_claim b target

  unfoldable pub settle_attempt : String → Target → ClaimAttempt → Task E (Option Target)
  unfolding settle_claim
  settle_attempt b target (ClaimAttempt.prepare_failed e) =
      builder_failure E b "claimRewards" "prepare" >> pure none
  settle_attempt b target (ClaimAttempt.returned result e) = do
    report E (mark_submitted b)
    settle_claim b target result e

  abbrev add_target : String → Option Target → Dict Target → Dict Target
  add_target b none targets = targets
  add_target b (some t) targets = put b t targets

  unfoldable pub settle_claims :
      Token
      → Dict Decimal
      → Dict (SpotBalanceAmounts Decimal)
      → Dict ClaimAttempt
      → List String
      → Dict Target
      → Task E (Dict Target)
  unfolding claim_target settle_attempt
  settle_claims token claimables baselines round [] targets = pure targets
  settle_claims token claimables baselines round (b ∷ bs) targets = do
    report E (update_builder b λ r. record r { claim_attempts = pos 1 })
    target ←
        settle_attempt b
          (claim_target token (find b claimables) (find_or (zero_balance E) b baselines))
          (slot (ClaimAttempt.returned no_result none) b round)
    settle_claims token claimables baselines round bs (add_target b target targets)

  unfoldable pub claim_builder_rewards :
      Token → Dict Decimal → Dict (SpotBalanceAmounts Decimal) → Task E (Dict Target)
  unfolding select_claims draw_nonces claim settle_claims
  claim_builder_rewards token claimables baselines = do
    chosen ← select_claims claimables baselines E.builders
    nonces ← draw_nonces chosen
    round ← gather E (claim nonces) chosen
    check_context E
    targets ← settle_claims token claimables baselines round chosen []
    report E (set_builder_stage "rewards" true)
    pure targets
