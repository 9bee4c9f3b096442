-- ===== src/Funding/Consolidation/Sweep.antt =====
-- sweepBuilderBalances and loadSweepBalance of internal/funding/orchestrator.go.
use builder_code_bot.Prelude.{
  ℕ, zero, suc, ◌-◌, Bool, true, false, ◌&&◌, ◌||◌, not, Option, none, some, List, [], ◌∷◌, String,
  leb, ltb, if◌then◌else◌,
}
use builder_code_bot.Prelude.Text.{◌+++◌, int_text}
use builder_code_bot.Prelude.Dict.{Dict, find, has_key}
use builder_code_bot.Funding.Model.{Token, SpotBalanceAmounts, PreparedAction, SubmitResult}
use builder_code_bot.Funding.Action.{
  Failure, Result, ok, err, panic, pure, raise, crash, capture, when, on_result, ◌>>=◌, ◌>>◌,
}
use builder_code_bot.Funding.Env.{Env}
use builder_code_bot.Funding.Report.{ReportStepStatus, BuilderReport, RunReport}
use builder_code_bot.Funding.Report.Update.{update_builder, mark_submitted}
use builder_code_bot.Funding.Report.Builders.{warn_builder, add_sweep_amount}
use builder_code_bot.Funding.Session.{
  Task, sleep, spot_balance, check_context, next_nonce, prepare_spot_send, submit,
}
use builder_code_bot.Funding.Progress.{report}
use builder_code_bot.Funding.Consolidation.Parallel.{builder_failure}
use builder_code_bot.Funding.Consolidation.Baselines.{Repeat, repeat_balance}
use builder_code_bot.Funding.Consolidation.Observe.{record_builder_balance}

abbrev pub sweep_submit_attempts : ℕ
sweep_submit_attempts = 3

abbrev sweep_submit_retry_interval : ℕ
sweep_submit_retry_interval = 1000

abbrev pub sweep_balance_query_attempts : ℕ
sweep_balance_query_attempts = 5

abbrev sweep_balance_query_interval : ℕ
sweep_balance_query_interval = 1000

abbrev pub sweep_balance_required_confirmations : ℕ
sweep_balance_required_confirmations = 2

module _ (E : Env) where
  open E use {Decimal}

  -- minimumTotal; `none` where it is not known.
  unfoldable pub below_minimum : Option Decimal → Decimal → Bool
  below_minimum none total = false
  below_minimum (some minimum) total = E.less_than total minimum

  not_stable : Option Failure → Failure
  not_stable none = Failure.plain "builder sweep balance did not stabilize"
  not_stable (some e) = e

  -- The queries that are left, the balance that repeats, and the error of the last query.
  unfoldable pub load_sweep_balance :
      Token
      → String
      → Option Decimal
      → ℕ
      → Option (Repeat Decimal)
      → Option Failure
      → Task E (SpotBalanceAmounts Decimal)
  unfolding below_minimum not_stable
  load_sweep_balance token b minimum zero seen last_error = raise (not_stable last_error)
  load_sweep_balance token b minimum (suc left) seen last_error = do
    answer ← capture (spot_balance E b token)
    on_result answer
        (λ balance.
          if below_minimum minimum balance.total
          then (do
            when (leb 1 left) (sleep E sweep_balance_query_interval)
            load_sweep_balance token b minimum left none none)
          else (do
            record_builder_balance E b balance
            let r = repeat_balance E balance seen
            if leb sweep_balance_required_confirmations r.times then pure balance else (do
              when (leb 1 left) (sleep E sweep_balance_query_interval)
              load_sweep_balance token b minimum left (some r) none)))
        λ e. do
          when (leb 1 left) (sleep E sweep_balance_query_interval)
          load_sweep_balance token b minimum left none (some e)

  unfoldable pub mark_sweep_succeeded : String → Decimal → Bool → RunReport → RunReport
  mark_sweep_succeeded b amount unconverged = update_builder b λ r.
      record (add_sweep_amount E.numbers (E.to_string amount) r) {
        sweep_status = if unconverged then ReportStepStatus.warning else ReportStepStatus.success;
        sweep_summary = if unconverged then "已按最新可用余额归集，Reward 余额未确认刷新" else "资金已归集";
      }

  unfoldable pub mark_sweep_retry_accepted : String → Decimal → ℕ → Bool → RunReport → RunReport
  mark_sweep_retry_accepted b amount attempt unconverged =
      let summary =
        "第 "
        +++ int_text attempt
        +++ " 次归集已接受；此前响应未知，累计归集金额无法确认"
        +++ (if unconverged then "；Reward 余额未确认刷新" else "") in
      warn_builder b
        (λ r. record (add_sweep_amount E.numbers (E.to_string amount) r) {
          sweep_status = ReportStepStatus.warning;
          sweep_summary = summary;
        })
        summary

  unfoldable pub mark_nothing_to_sweep : String → Bool → RunReport → RunReport
  mark_nothing_to_sweep b true =
      let summary : String = "Reward 余额未确认刷新，当前无可归集余额" in
      warn_builder b
        (λ r. record r { sweep_status = ReportStepStatus.warning; sweep_summary = summary }) summary
  mark_nothing_to_sweep b false =
      update_builder b
        λ r. record r { sweep_status = ReportStepStatus.skipped; sweep_summary = "无可归集余额" }

  -- hadUnknown and retryAmount: the last amount whose request is ambiguous, if there is one.
  abbrev pub is_ambiguous : Option Decimal → Bool
  is_ambiguous none = false
  is_ambiguous (some _) = true

  unfoldable pub sweep_amount : Decimal → Option Decimal → Decimal
  sweep_amount available none = available
  sweep_amount available (some retry) = if E.less_than available retry then retry else available

  abbrev is_error : Option Failure → Bool
  is_error none = false
  is_error (some _) = true

  forget_final : BuilderReport → BuilderReport
  forget_final r = record r { final_total = ""; final_available = "" }

  -- After a request: its end, or the next attempt, `retry`, if one is left.
  unfoldable pub after_submit :
      (Option Decimal → Task E (Unit {0}))
      → String
      → Bool
      → ℕ
      → Decimal
      → Option Decimal
      → SubmitResult
      → Option Failure
      → Task E (Unit {0})
  unfolding mark_sweep_succeeded mark_sweep_retry_accepted
  after_submit retry b unconverged left amount ambiguous result e =
      if not (is_error e) && result.accepted
      then report E (
          if is_ambiguous ambiguous
          then mark_sweep_retry_accepted b amount (sweep_submit_attempts - left) unconverged
          else mark_sweep_succeeded b amount unconverged)
      else if not (is_error e) && (result.rejected && not (is_ambiguous ambiguous))
      then builder_failure E b "spotSend" "rejected"
      else if leb 1 left
      then retry (if is_error e || not result.rejected then some amount else ambiguous)
      else builder_failure E b "spotSend" "unknown"

  -- After the preparation of a request.
  unfoldable pub after_prepare :
      (Option Decimal → Task E (Unit {0}))
      → String
      → Bool
      → ℕ
      → Decimal
      → Option Decimal
      → Result PreparedAction
      → Task E (Unit {0})
  unfolding after_submit forget_final
  after_prepare retry b unconverged left amount ambiguous (ok action) = do
    (result, e) ← submit E action
    report E (mark_submitted b)
    report E (update_builder b forget_final)
    after_submit retry b unconverged left amount ambiguous result e
  after_prepare retry b unconverged left amount ambiguous (err e) =
      if is_ambiguous ambiguous && leb 1 left
      then retry ambiguous
      else builder_failure E b "spotSend" (if is_ambiguous ambiguous then "unknown" else "prepare")
  after_prepare retry b unconverged left amount ambiguous panic = crash

  -- After the query for the balance to sweep.
  unfoldable pub after_load :
      (Option Decimal → Task E (Unit {0}))
      → Token
      → String
      → Bool
      → ℕ
      → Option Decimal
      → Result (SpotBalanceAmounts Decimal)
      → Task E (Unit {0})
  unfolding after_prepare sweep_amount mark_nothing_to_sweep
  after_load retry token b unconverged left ambiguous (ok balance) =
      let amount = sweep_amount balance.available ambiguous in
      if E.is_positive amount
      then (do
        nonce ← next_nonce E
        prepared ← capture (prepare_spot_send E b E.settlement token amount nonce)
        after_prepare retry b unconverged left amount ambiguous prepared)
      else report E (mark_nothing_to_sweep b unconverged)
  after_load retry token b unconverged left ambiguous (err e) = do
    check_context E
    if is_ambiguous ambiguous
        then builder_failure E b "spotSend" "unknown"
        else builder_failure E b "spotBalance" "query"
  after_load retry token b unconverged left ambiguous panic = crash

  abbrev pub floor_of : Option Decimal → Option Decimal → Option Decimal
  floor_of floor none = floor
  floor_of floor (some _) = none

  -- The attempts that are left of `sweep_submit_attempts`. `floor` is the total that the observation
  -- of a converged claim ended with.
  unfoldable pub sweep_attempts :
      Token → String → Option Decimal → Bool → ℕ → Option Decimal → Task E (Unit {0})
  unfolding load_sweep_balance after_load
  sweep_attempts token b floor unconverged zero ambiguous = pure tt
  sweep_attempts token b floor unconverged (suc left) ambiguous = do
    when (ltb 1 (sweep_submit_attempts - left)) (sleep E sweep_submit_retry_interval)
    answer ← capture (
        load_sweep_balance token b (floor_of floor ambiguous) sweep_balance_query_attempts none
          none)
    after_load (sweep_attempts token b floor unconverged left) token b unconverged left ambiguous
        answer

  unfoldable pub claim_floor : Dict (SpotBalanceAmounts Decimal) → Bool → String → Option Decimal
  claim_floor balances true b = none
  claim_floor balances false b = elim (find b balances) [ none ↦ none | some x ↦ some x.total ]

  unfoldable pub sweep_builders :
      Token → Dict (SpotBalanceAmounts Decimal) → Dict (Unit {0}) → List String → Task E (Unit {0})
  unfolding sweep_attempts claim_floor
  sweep_builders token balances unconverged [] = pure tt
  sweep_builders token balances unconverged (b ∷ bs) = do
    check_context E
    let open_claim = has_key b unconverged
    sweep_attempts token b (claim_floor balances open_claim b) open_claim sweep_submit_attempts none
    sweep_builders token balances unconverged bs

  unfoldable pub sweep_builder_balances :
      Token → Dict (SpotBalanceAmounts Decimal) → Dict (Unit {0}) → Task E (Unit {0})
  unfolding sweep_builders
  sweep_builder_balances token balances unconverged = do
    check_context E
    sweep_builders token balances unconverged E.builders
