-- ===== src/Funding/Recovery.antt =====
-- recoverState and markRecoveredPayoutSubmission of internal/funding/recovery.go.
use builder_code_bot.Prelude.{Bool, true, false, none, some, [], ◌∷◌, if◌then◌else◌}
use builder_code_bot.Prelude.Text.{text_eq}
use builder_code_bot.Funding.Model.{
  Phase, PayoutTargetState, RunState, ActiveTarget, active_payout_target,
}
use builder_code_bot.Funding.Action.{Failure, raise, gets, modify, ◌>>=◌, ◌>>◌}
use builder_code_bot.Funding.Env.{Env}
use builder_code_bot.Funding.Report.{ReportStepStatus, RunReport}
use builder_code_bot.Funding.Report.Update.{
  fail_target, mark_submitted, mark_settlement_payout_unconfirmed, set_target_stage,
  set_payout_status,
}
use builder_code_bot.Funding.Session.{Session, current_run, Task}
use builder_code_bot.Funding.Validation.{validate_target_progress, validate_confirmed_payout_state}
use builder_code_bot.Funding.Progress.{report, retarget, complete_database, finish_run}
use builder_code_bot.Funding.Payout.Submit.{
  checked, observe_uncertain_payout, submit_prepared_payout,
}
use builder_code_bot.Funding.Run.{run_target, run_active_target, run_fuel}

-- Could a request of the persisted journal have left an earlier process?
unfoldable pub possibly_submitted : Phase → Bool → Bool
possibly_submitted Phase.payout_submitting from_backup = true
possibly_submitted Phase.payout_replaying from_backup = true
possibly_submitted Phase.payout_confirmed from_backup = true
possibly_submitted Phase.blocked from_backup = true
possibly_submitted Phase.payout_prepared from_backup = from_backup
possibly_submitted _ from_backup = false

mark_recovered : PayoutTargetState → Bool → RunReport → RunReport
unfolding possibly_submitted
mark_recovered t from_backup r = elim t.payout [
  | none ↦ r
  | some _ ↦
      if possibly_submitted t.phase from_backup then mark_submitted t.manifest.settlement r else r
]

-- The state that was loaded becomes the session's.
abbrev pub open_run : {A : Type 0} → RunState → Session A → Session A
open_run run s = elim run.targets [
  | [] ↦ record s { run = run }
  | t ∷ _ ↦ record s { run = run; target = t }
]

module _ (E : Env) where
  abbrev again : Task E (Unit {0})
  again = run_active_target E run_fuel

  unfoldable pub recover_confirmed : Task E (Unit {0})
  recover_confirmed = do
    t ← gets (λ s. s.target)
    checked E (validate_confirmed_payout_state E t) λ e. do
      report E (mark_settlement_payout_unconfirmed t.kind)
      report E (set_payout_status t.kind ReportStepStatus.failed)
      report E (λ r. record r { outcome = "blocked" })
      report E (
          fail_target t.kind "payout" "已确认 Payout 状态不完整，未更新数据库。"
            "请保留 current 状态并核查持久化的完整请求、nonce 与付款前余额边界。")
      raise (Failure.fatal (Failure.wrapped "validate confirmed payout state" e))
    report E (set_payout_status t.kind ReportStepStatus.success)
    report E (set_target_stage t.kind "payout" ReportStepStatus.success "已在此前执行中确认")
    complete_database E again

  unfoldable pub recover_blocked : Task E (Unit {0})
  recover_blocked = do
    retarget E (λ t.
        if text_eq t.blocked_reason ""
        then record t { blocked_reason = "funding run is blocked" }
        else t)
    t ← gets (λ s. s.target)
    report E (mark_settlement_payout_unconfirmed t.kind)
    report E (set_payout_status t.kind ReportStepStatus.failed)
    report E (λ r. record r { outcome = "blocked" })
    report E (
        fail_target t.kind "payout" "检测到终态 blocked Payout，任务不会继续观察或重发。"
          "请根据最终报告人工核查；程序不会为该 journal 构造新请求。")
    raise (Failure.fatal (Failure.plain t.blocked_reason))

  -- A primary payout_prepared state proves that submission never started; a backup in that phase
  -- may be one boundary behind.
  unfoldable pub recover_phase : Phase → Bool → Task E (Unit {0})
  unfolding recover_confirmed recover_blocked
  recover_phase Phase.prepared from_backup = run_target E again
  recover_phase Phase.payout_prepared from_backup =
      if from_backup then observe_uncertain_payout E again else submit_prepared_payout E again
  recover_phase Phase.payout_submitting from_backup = observe_uncertain_payout E again
  recover_phase Phase.payout_replaying from_backup = observe_uncertain_payout E again
  recover_phase Phase.payout_confirmed from_backup = recover_confirmed
  recover_phase Phase.blocked from_backup = recover_blocked
  recover_phase _ from_backup = raise (Failure.plain "unsupported persisted funding phase")

  unfoldable pub recover_active : Bool → Task E (Unit {0})
  unfolding recover_phase mark_recovered
  recover_active from_backup = do
    t ← gets (λ s. s.target)
    run ← gets current_run
    checked E (validate_target_progress E run t) λ e. raise (Failure.fatal e)
    report E (mark_recovered t from_backup)
    recover_phase t.phase from_backup

  unfoldable pub recover_dispatch : Bool → ActiveTarget → Task E (Unit {0})
  unfolding recover_active
  recover_dispatch from_backup ActiveTarget.unsupported =
      raise
        (Failure.fatal (Failure.plain "funding run must contain only the referral payout target"))
  recover_dispatch from_backup ActiveTarget.all_completed = finish_run E
  recover_dispatch from_backup (ActiveTarget.active _) = recover_active from_backup

  -- recoverState of the loaded run; `from_backup` is metadata.RecoveredFromBackup.
  unfoldable pub recover_state : RunState → Bool → Task E (Unit {0})
  unfolding recover_dispatch
  recover_state run from_backup = do
    modify (open_run run)
    recover_dispatch from_backup (active_payout_target run)
