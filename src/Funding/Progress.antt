-- ===== src/Funding/Progress.antt =====
-- The steps that all payout paths of internal/funding/orchestrator.go share: durable phases, alerts,
-- the database completion and the end of a run.
use builder_code_bot.Prelude.{
  ℕ, Bool, false, ◌||◌, List, [], ◌∷◌, map, String, if◌then◌else◌, length,
}
use builder_code_bot.Prelude.Text.{text_eq, has_prefix, int_text, ◌+++◌}
use builder_code_bot.Funding.Model.{
  Record, Phase, PayoutKind, PayoutTargetState, ActiveTarget, active_payout_target,
}
use builder_code_bot.Funding.Action.{Failure, ok, raise, gets, on_error, modify, ◌>>=◌, ◌>>◌}
use builder_code_bot.Funding.Env.{AlertSeverity, Effect, Env}
use builder_code_bot.Funding.Report.{ReportStepStatus, RunReport}
use builder_code_bot.Funding.Report.Update.{
  kind_text, fail, fail_target, set_stage, set_target_stage, set_database_status,
}
use builder_code_bot.Funding.Report.Sync.{sync_state}
use builder_code_bot.Funding.Session.{
  current_run, write_report, write_target, Task, now, save, archive, clear, complete,
}

abbrev pub holds_alert : String → List String → Bool
holds_alert k [] = false
holds_alert k (a ∷ alerts) = text_eq a k || holds_alert k alerts

drop_alerts : String → List String → List String
drop_alerts prefix [] = []
drop_alerts prefix (a ∷ alerts) =
    let rest = drop_alerts prefix alerts in if has_prefix a prefix then rest else a ∷ rest

abbrev record_id : Record → ℕ
record_id r = r.id

module _ (E : Env) where
  open E use {Decimal}

  -- alertOnce: each key alerts once in the life of a run.
  unfoldable pub alert_once_for : String → String → AlertSeverity → String → Task E (Unit {0})
  alert_once_for run_id key severity message s =
      let dedupe_key = run_id +++ ":" +++ key in
      if holds_alert dedupe_key s.alerts then (ok tt, s) else (
        ok tt,
        record s {
          alerts = dedupe_key ∷ s.alerts;
          history = Effect.alerted dedupe_key severity message ∷ s.history;
        },
      )

  -- alertOnce with the id of the session's run
  unfoldable pub alert_once : String → AlertSeverity → String → Task E (Unit {0})
  unfolding alert_once_for
  alert_once key severity message s = alert_once_for s.run.run_id key severity message s

  unfoldable pub forget_alerts : Task E (Unit {0})
  unfolding drop_alerts
  forget_alerts = modify (λ s. record s { alerts = drop_alerts (s.run.run_id +++ ":") s.alerts })

  abbrev pub report : (RunReport → RunReport) → Task E (Unit {0})
  report f = modify (write_report f)

  abbrev pub retarget : (PayoutTargetState → PayoutTargetState) → Task E (Unit {0})
  retarget f = modify (write_target f)

  unfoldable pub sync_report : Task E (Unit {0})
  sync_report = modify (λ s. write_report (sync_state E.numbers (current_run s)) s)

  -- saveState: the time is written, then the run is stored.
  unfoldable pub save_state : Task E (Unit {0})
  save_state = do
    t ← now E
    modify (λ s. record s { run = record (s.run) { updated_at = t } })
    run ← gets current_run
    save E run

  unfoldable pub save_phase : Phase → ActiveTarget → Task E (Unit {0})
  unfolding save_state
  save_phase phase ActiveTarget.unsupported =
      raise (Failure.plain "funding run must contain only the referral payout target")
  save_phase phase ActiveTarget.all_completed =
      raise (Failure.plain "cannot persist phase without an active payout target")
  save_phase phase (ActiveTarget.active _) = do
    retarget (λ t. record t { phase = phase })
    save_state

  unfoldable pub save_active_phase : Phase → Task E (Unit {0})
  unfolding save_phase
  save_active_phase phase = do run ← gets current_run; save_phase phase (active_payout_target run)

  unfoldable pub database_failed : Failure → Task E (Unit {0})
  unfolding alert_once
  database_failed e = do
    t ← gets (λ s. s.target)
    alert_once (kind_text t.kind +++ "_database_completion_failed") AlertSeverity.warning
        "funding database completion failed"
    report (
        fail_target t.kind "database" "MySQL funding records 未能标记完成。"
          "Payout 状态是安全的；服务会持续重试数据库操作，请检查 MySQL 可用性。")
    raise e

  report_completed : List ℕ → PayoutKind → RunReport → RunReport
  report_completed [] kind r =
      set_database_status kind ReportStepStatus.skipped
        (set_target_stage kind "database" ReportStepStatus.skipped "没有待完成记录" r)
  report_completed (i ∷ ids) kind r = set_database_status kind ReportStepStatus.success (
      set_target_stage kind "database" ReportStepStatus.success
        (int_text (length (i ∷ ids)) +++ " 条记录已完成") r)

  -- completeDatabase ends in runActiveTarget, which is `again`.
  unfoldable pub complete_database : Task E (Unit {0}) → Task E (Unit {0})
  unfolding database_failed report_completed
  complete_database again = do
    t ← gets (λ s. s.target)
    let ids = map record_id t.manifest.records
    on_error (complete E ids) database_failed
    retarget (λ u. record u { phase = Phase.completed })
    report (report_completed ids t.kind)
    on_error save_state λ e. do
      report (
          fail_target t.kind "database" "数据库已完成，但目标完成状态持久化失败。"
            "数据库 Complete 可安全幂等重试；请检查 data 目录和文件系统状态。")
      raise e
    sync_report
    again

  unfoldable pub finish_run : Task E (Unit {0})
  finish_run = do
    run ← gets current_run
    on_error (archive E run "completed")
        λ e. do report (fail "finalize" "运行历史归档失败。" "请检查 data/history 目录和文件系统状态。"); raise e
    on_error (clear E)
        λ e. do report (fail "finalize" "已完成运行的 current 状态清理失败。" "请检查 data 目录并保留现场。"); raise e
    report (set_stage "finalize" ReportStepStatus.success "运行状态已归档并清理")
    sync_report
    forget_alerts
