-- ===== src/Funding/Payout/Settle.antt =====
-- The ends of a payout: confirmPayout, rejectPayout and blockUncertainPayout.
use builder_code_bot.Prelude.{false, String, if◌then◌else◌}
use builder_code_bot.Prelude.Text.{text_eq}
use builder_code_bot.Funding.Model.{Phase, PayoutKind}
use builder_code_bot.Funding.Action.{Failure, raise, gets, on_error, ◌>>=◌, ◌>>◌}
use builder_code_bot.Funding.Env.{AlertSeverity, Env}
use builder_code_bot.Funding.Report.{ReportStepStatus, RunReport}
use builder_code_bot.Funding.Report.Update.{
  bare_settlement, fail, fail_target, set_stage, set_target_stage, update_payout, set_payout_status,
}
use builder_code_bot.Funding.Session.{current_run, Task, archive, clear}
use builder_code_bot.Funding.Progress.{
  report, retarget, sync_report, alert_once, save_active_phase, complete_database,
}
use builder_code_bot.Funding.Payout.Evidence.{decreased, decreased_with_fee}

abbrev pub exchange_response : String
exchange_response = "exchange_response"

abbrev pub rejected_reason : String
rejected_reason = "final payout was explicitly rejected"

payout_evidence_summary : String → String
payout_evidence_summary evidence =
    if text_eq evidence exchange_response
    then "Exchange 明确确认"
    else if text_eq evidence decreased
    then "Settlement 达到预期付款后余额"
    else if text_eq evidence decreased_with_fee
    then "Settlement 达到含 1 USDC 新地址费用的预期余额"
    else "Payout 已确认"

set_outcome : String → RunReport → RunReport
set_outcome outcome r = record r { outcome = outcome }

-- A settlement balance that was marked unconfirmed is reset to the settlement address alone.
reset_settlement : String → RunReport → RunReport
reset_settlement settlement r =
    if r.settlement_balance.post_payout_unconfirmed
    then record r { settlement_balance = bare_settlement settlement false }
    else r

module _ (E : Env) where
  report_confirmed : String → PayoutKind → String → RunReport → RunReport
  unfolding payout_evidence_summary reset_settlement
  report_confirmed settlement kind evidence r =
      set_target_stage kind "payout" ReportStepStatus.success (payout_evidence_summary evidence) (
        reset_settlement settlement (
          update_payout kind
            (λ p. record p { status = ReportStepStatus.success; confirmation_evidence = evidence })
            r))

  unfoldable pub confirm_payout : Task E (Unit {0}) → String → Task E (Unit {0})
  unfolding report_confirmed
  confirm_payout again evidence = do
    retarget E (λ t. record t { blocked_reason = ""; confirmation_evidence = evidence })
    t ← gets (λ s. s.target)
    on_error (save_active_phase E Phase.payout_confirmed) λ e. do
      report E (fail_target t.kind "payout" "Payout 已确认，但确认状态持久化失败。" "请保留现场并核查链上付款，禁止直接重发。")
      report E (set_payout_status t.kind ReportStepStatus.success)
      raise e
    report E (report_confirmed t.manifest.settlement t.kind evidence)
    sync_report E
    complete_database E again

  -- The two snapshots that rotate in the store: both are written.
  unfoldable pub save_twice : Phase → (Failure → Task E (Unit {0})) → Task E (Unit {0})
  save_twice phase failed = do
    on_error (save_active_phase E phase) failed
    on_error (save_active_phase E phase) failed

  unfoldable pub reject_payout : Task E (Unit {0})
  unfolding set_outcome save_twice
  reject_payout = do
    t ← gets (λ s. s.target)
    report E (set_payout_status t.kind ReportStepStatus.failed)
    report E (set_outcome "rejected")
    report E (
        fail_target t.kind "payout" "Payout 被 Hyperliquid 明确拒绝，已确认没有发生付款。"
          "修复拒绝原因后可以重启服务；数据库记录仍保持 pending。")
    retarget E (λ u. record u { blocked_reason = rejected_reason })
    save_twice Phase.blocked λ e. do
      report E (fail_target t.kind "payout" "Payout 被明确拒绝，拒绝状态持久化失败。" "请保留现场并检查 data 目录。")
      raise (Failure.fatal (Failure.wrapped "persist rejected payout state" e))
    sync_report E
    run ← gets current_run
    on_error (archive E run "rejected") λ e. do
      report E (fail "finalize" "明确拒绝现场归档失败。" "请检查 data/history 目录并保留 current 状态。")
      raise (Failure.fatal (Failure.wrapped "archive rejected payout" e))
    on_error (clear E) λ e. do
      report E (fail "finalize" "明确拒绝现场已归档，但 current 状态清理失败。" "请检查 data 目录并保留现场。")
      raise (Failure.fatal (Failure.wrapped "clear rejected payout state" e))
    report E (set_stage "finalize" ReportStepStatus.success "明确拒绝现场已归档并清理")
    alert_once E "payout_rejected" AlertSeverity.critical rejected_reason
    raise (Failure.fatal (Failure.plain rejected_reason))

  unfoldable pub block_uncertain_payout : String → String → Task E (Unit {0})
  unfolding set_outcome save_twice
  block_uncertain_payout reason alert_key = do
    t ← gets (λ s. s.target)
    report E (set_payout_status t.kind ReportStepStatus.failed)
    report E (set_outcome "blocked")
    report E (
        fail_target t.kind "payout" "Payout 结果仍不确定，Settlement total 未能稳定达到任一精确付款后余额。"
          "已停止观察和重试；请结合最终报告与持久化的完整请求，核查 nonce 与 Settlement 余额。")
    retarget E (λ u. record u { blocked_reason = reason })
    save_twice Phase.blocked λ e. do
      report E (fail_target t.kind "payout" "Payout 结果不确定，且 blocked 状态持久化失败。" "立即停止服务并保留现场，禁止重发。")
      raise (Failure.fatal (Failure.wrapped "persist blocked payout state" e))
    sync_report E
    run ← gets current_run
    on_error (archive E run "blocked") λ e. do
      report E (fail "finalize" "Blocked Payout 现场归档失败。" "请检查 data/history 目录并保留 current 状态。")
      raise (Failure.fatal (Failure.wrapped "archive blocked payout" e))
    report E (set_stage "finalize" ReportStepStatus.success "Blocked 现场已归档，current 已保留")
    alert_once E alert_key AlertSeverity.critical reason
    raise (Failure.fatal (Failure.plain reason))
