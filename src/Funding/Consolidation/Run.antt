-- ===== src/Funding/Consolidation/Run.antt =====
-- runConsolidation and Consolidator.Run of internal/funding/consolidation.go.
use builder_code_bot.Prelude.{ℕ, true, false, some}
use builder_code_bot.Funding.Model.{PayoutKind, Trigger, Token}
use builder_code_bot.Funding.Action.{
  pure, raise, modify, on_error, deferring, unless_canceled, ◌>>=◌, ◌>>◌,
}
use builder_code_bot.Funding.Env.{Env}
use builder_code_bot.Funding.Report.{ReportStepStatus, RunReport}
use builder_code_bot.Funding.Report.Update.{
  set_stage, set_target_stage, set_payout_status, set_database_status, fail,
}
use builder_code_bot.Funding.Report.Builders.{new_run_report, set_builder_stage}
use builder_code_bot.Funding.Session.{Task, now, write_report}
use builder_code_bot.Funding.Progress.{report, forget_alerts}
use builder_code_bot.Funding.RateLimit.Accounts.{observe_user_rate_limits}
use builder_code_bot.Prelude.Dict.{Dict}
use builder_code_bot.Funding.Report.Sync.{sync_state}
use builder_code_bot.Funding.Fresh.{new_state}
use builder_code_bot.Funding.Consolidation.Claimables.{
  query_consolidation_token, capture_builder_claimables,
}
use builder_code_bot.Funding.Consolidation.Baselines.{capture_claim_balance_baselines}
use builder_code_bot.Funding.Consolidation.Claims.{claim_builder_rewards}
use builder_code_bot.Funding.Consolidation.Observe.{observe_claim_balances}
use builder_code_bot.Funding.Consolidation.Sweep.{sweep_builder_balances}

open_report : RunReport → RunReport
open_report r = set_database_status PayoutKind.referral ReportStepStatus.skipped (
    set_payout_status PayoutKind.referral ReportStepStatus.skipped (
      set_target_stage PayoutKind.referral "database" ReportStepStatus.skipped
        "不读取或更新 funding records"
        (set_target_stage PayoutKind.referral "payout" ReportStepStatus.skipped "仅归集，不执行 Payout" (
          set_stage "finalize" ReportStepStatus.skipped "仅归集，不持久化 Payout 状态"
            (set_stage "snapshot" ReportStepStatus.skipped "仅执行内部资金归集" r)))))

module _ (E : Env) where
  open E use {Decimal}

  -- The report of the task, with `started`, the time of its start.
  unfoldable pub consolidation_report : Trigger → ℕ → RunReport
  consolidation_report trigger started =
      record (new_run_report started trigger
        (record { attempt = 0; max_attempts = 0; recovery = false }) E.network E.builders
        E.builder_name E.settlement "") { outcome = "completed" }

  -- The part behind the capture of the claimables: claims, observation and sweep.
  unfoldable pub claim_and_sweep : Token → Dict Decimal → Task E (Unit {0})
  claim_and_sweep token claimables = do
    baselines ← capture_claim_balance_baselines E token claimables
    targets ← claim_builder_rewards E token claimables baselines
    (balances, unconverged) ← observe_claim_balances E token targets
    report E (set_builder_stage "rewards" true)
    sweep_builder_balances E token balances unconverged
    report E (set_builder_stage "sweep" false)

  -- `on_captured` is the callback, which reads the report.
  unfoldable pub consolidate : Task E (Unit {0}) → Task E (Unit {0})
  unfolding claim_and_sweep
  consolidate on_captured = do
    token ←
        on_error (query_consolidation_token E)
          λ e. do report E (fail "snapshot" "Canonical USDC metadata 查询失败。" ""); raise e
    report E (λ r. record r { token = some token })
    claimables ← capture_builder_claimables E token
    t ← now E
    report E (λ r. record r { claimables_captured_at = t })
    on_captured
    claim_and_sweep token claimables

  unfoldable pub run_consolidation : Trigger → Task E (Unit {0}) → Task E (Unit {0})
  unfolding consolidate consolidation_report open_report
  run_consolidation trigger on_captured = do
    new_state E trigger
    let task : Task E (Unit {0}) = do
      t ← now E
      modify (λ s.
          write_report
            (λ _. open_report (sync_state E.numbers s.run (consolidation_report trigger t))) s)
      deferring (consolidate on_captured) (λ e. unless_canceled e (observe_user_rate_limits E))
    deferring task (λ _. forget_alerts E)

  -- Consolidator.Run
  unfoldable pub run_consolidate_only : Task E (Unit {0})
  unfolding run_consolidation
  run_consolidate_only = run_consolidation Trigger.consolidate_only (pure tt)
