-- ===== src/Funding/Consolidation/Claimables.antt =====
-- queryConsolidationToken and captureBuilderClaimables of internal/funding/orchestrator.go.
use builder_code_bot.Prelude.{ℕ, zero, suc, ◌-◌, true, List, [], ◌∷◌, String, leb, if◌then◌else◌}
use builder_code_bot.Prelude.Int.{pos}
use builder_code_bot.Prelude.Dict.{Dict, put}
use builder_code_bot.Funding.Model.{Token}
use builder_code_bot.Funding.Action.{
  Failure, Result, ok, err, pure, raise, capture, when, on_result, ◌>>=◌, ◌>>◌,
}
use builder_code_bot.Funding.Env.{Env}
use builder_code_bot.Funding.Report.Update.{update_builder}
use builder_code_bot.Funding.Session.{Task, sleep, check_context, canonical_usdc, claimable_usdc}
use builder_code_bot.Funding.Progress.{report}
use builder_code_bot.Funding.Consolidation.Parallel.{is_empty, slot, gather, builder_failure}

abbrev pub claimable_query_attempts : ℕ
claimable_query_attempts = 5

abbrev claimable_query_retry_interval : ℕ
claimable_query_retry_interval = 200

module _ (E : Env) where
  open E use {Decimal}

  -- The attempts that are left, and the error of the last one.
  unfoldable pub query_token : ℕ → Failure → Task E Token
  query_token zero last_error =
      raise (Failure.wrapped "query canonical USDC after 5 attempts" last_error)
  query_token (suc left) last_error = do
    answer ← capture (canonical_usdc E)
    on_result answer pure λ e. do
      check_context E
      when (leb 1 left) (sleep E claimable_query_retry_interval)
      query_token left e

  unfoldable pub query_consolidation_token : Task E Token
  unfolding query_token
  query_consolidation_token = query_token claimable_query_attempts (Failure.plain "")

  -- A goroutine of the round, with its error as a value.
  unfoldable pub query_claimable : Token → String → Task E (Result Decimal)
  query_claimable token builder = do
    answer ← capture (claimable_usdc E builder token)
    on_result answer
        (λ amount. pure (
          if E.is_negative amount
          then err (Failure.plain "claimable amount is negative")
          else ok amount))
        λ e. pure (err e)

  -- What the round's answers change, in the order of the builders; the result is who is still
  -- pending, and the claimables.
  unfoldable pub record_claimables :
      ℕ → Dict (Result Decimal) → List String → Dict Decimal → Task E (List String × Dict Decimal)
  record_claimables attempt round [] claimables = pure ([], claimables)
  record_claimables attempt round (b ∷ bs) claimables = do
    report E (update_builder b λ r. record r { claimable_query_attempts = pos attempt })
    on_result (slot (ok (E.from_int 0)) b round)
        (λ amount. do
          report E (
              update_builder b
                λ r. record r { claimable_usdc = E.to_string amount; claimable_observed = true })
          record_claimables attempt round bs (put b amount claimables))
        λ e. do
          (pending, claimables') ← record_claimables attempt round bs claimables
          pure (b ∷ pending, claimables')

  unfoldable pub claimable_round :
      Token → ℕ → List String → Dict Decimal → Task E (List String × Dict Decimal)
  unfolding query_claimable record_claimables
  claimable_round token attempt pending claimables = do
    round ← gather E (query_claimable token) pending
    check_context E
    record_claimables attempt round pending claimables

  -- The rounds that are left of `claimable_query_attempts`.
  unfoldable pub claimable_rounds :
      Token → ℕ → List String → Dict Decimal → Task E (List String × Dict Decimal)
  unfolding claimable_round
  claimable_rounds token zero pending claimables = pure (pending, claimables)
  claimable_rounds token (suc left) pending claimables = do
    (pending', claimables') ←
        claimable_round token (claimable_query_attempts - left) pending claimables
    if is_empty pending' then pure (pending', claimables') else (do
      when (leb 1 left) (sleep E claimable_query_retry_interval)
      claimable_rounds token left pending' claimables')

  unfoldable pub fail_builders : List String → String → String → Task E (Unit {0})
  fail_builders [] action outcome = pure tt
  fail_builders (b ∷ bs) action outcome =
      builder_failure E b action outcome >> fail_builders bs action outcome

  unfoldable pub capture_builder_claimables : Token → Task E (Dict Decimal)
  unfolding claimable_rounds fail_builders
  capture_builder_claimables token = do
    (pending, claimables) ← claimable_rounds token claimable_query_attempts E.builders []
    fail_builders pending "claimable" "query"
    pure claimables
