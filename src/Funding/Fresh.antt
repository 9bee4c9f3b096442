-- ===== src/Funding/Fresh.antt =====
-- runNew of internal/funding/orchestrator.go: a run for the records that are pending.
use builder_code_bot.Prelude.{Bool, true, false, Option, none, some, List, [], ◌∷◌, String, length}
use builder_code_bot.Prelude.Text.{int_text, ◌+++◌}
use builder_code_bot.Funding.Model.{Record, Phase, PayoutKind, Trigger, Manifest, PayoutTargetState}
use builder_code_bot.Funding.Action.{Failure, pure, raise, gets, on_error, modify, ◌>>=◌, ◌>>◌}
use builder_code_bot.Funding.Env.{AlertSeverity, Env}
use builder_code_bot.Funding.Report.{ReportStepStatus, RunReport}
use builder_code_bot.Funding.Report.Update.{fail, mark_target_no_data, set_stage}
use builder_code_bot.Funding.Report.Sync.{sync_state}
use builder_code_bot.Funding.Session.{
  current_run, write_report, Task, canonical_usdc, list_pending, archive, now,
}
use builder_code_bot.Funding.Amount.{build_manifest}
use builder_code_bot.Funding.Progress.{report, retarget, sync_report, alert_once, save_active_phase}
use builder_code_bot.Funding.Payout.Submit.{decimal_from_string}
use builder_code_bot.Funding.Run.{run_active_target, run_fuel}

abbrev new_target : Manifest → PayoutTargetState
new_target manifest = record {
  kind = PayoutKind.referral;
  phase = Phase.prepared;
  manifest = manifest;
  payout = none;
  blocked_reason = "";
  confirmation_evidence = "";
}

set_outcome : String → RunReport → RunReport
set_outcome outcome r = record r { outcome = outcome }

report_no_data : RunReport → RunReport
report_no_data r =
    let emptied = record r {
      records_read = true;
      record_count = 0;
      raw_total = "0.000000000000000000";
      payout_total = "0";
      outcome = "no_data";
    } in
    set_stage "finalize" ReportStepStatus.skipped "无需持久化运行状态" (
      mark_target_no_data PayoutKind.referral
        (set_stage "snapshot" ReportStepStatus.success "没有待处理记录" emptied))

report_invalid : RunReport → RunReport
report_invalid r =
    fail "snapshot" "资金记录校验失败。" "请修复数据库中的异常 funding record 后再启动服务。"
      (record r { raw_total = ""; payout_total = ""; outcome = "failed_validation" })

module _ (E : Env) where
  open E use {Decimal}

  -- newState, and the run in memory
  unfoldable pub new_state : Trigger → Task E (Unit {0})
  new_state trigger = do
    id ← (λ s. (E.new_run_id s.history, s))
    t ← now E
    modify (λ s. record s {
      run = record {
        run_id = id;
        trigger = trigger;
        utc_date = E.date_only t;
        targets = [];
        created_at = t;
        updated_at = t;
      };
    })
    modify (λ s. write_report (sync_state E.numbers s.run) s)

  unfoldable pub invalid_records : Failure → Task E (Unit {0})
  unfolding report_invalid
  invalid_records e = do
    report E report_invalid
    run ← gets current_run
    on_error (archive E run "failed_validation") λ a. do
      report E (fail "finalize" "异常 funding records 运行归档失败。" "请检查 data/history 目录并保留服务现场。")
      raise (Failure.fatal (Failure.wrapped "validate records" e))
    report E (set_stage "finalize" ReportStepStatus.success "校验失败现场已归档")
    alert_once E "validation_failed" AlertSeverity.critical "funding snapshot validation failed"
    raise (Failure.fatal e)

  unfoldable pub resolve_token : Bool → Task E (Unit {0})
  resolve_token false = pure tt
  resolve_token true = do
    token ←
        on_error (canonical_usdc E)
          λ e. do report E (fail "snapshot" "Canonical USDC metadata 查询失败。" ""); raise e
    retarget E (λ t. record t { manifest = record (t.manifest) { token = some token } })

  unfoldable pub start_run : List Record → Manifest → Task E (Unit {0})
  unfolding resolve_token set_outcome
  start_run records manifest = do
    payout ← decimal_from_string E manifest.payout_total
    resolve_token (E.is_positive payout)
    report E (set_outcome "completed")
    sync_report E
    report E (
        set_stage "snapshot" ReportStepStatus.success (
          int_text (length records) +++ " 条记录，Referral Payout " +++ E.to_string payout +++ " USDC"))
    on_error (save_active_phase E Phase.prepared)
        λ e. do report E (fail "snapshot" "资金快照持久化失败。" "请检查本地 data 目录和文件系统状态。"); raise e
    sync_report E
    run_active_target E run_fuel

  unfoldable pub after_manifest : List Record → Manifest × Option Failure → Task E (Unit {0})
  unfolding start_run invalid_records
  after_manifest records (manifest, e) = do
    modify (λ s. record s { target = new_target manifest })
    sync_report E
    elim e [ none ↦ start_run records manifest | some x ↦ invalid_records x ]

  unfoldable pub run_new : Trigger → Task E (Unit {0})
  unfolding new_state after_manifest report_no_data
  run_new trigger = do
    records ← on_error (list_pending E) λ e. do
      report E (fail "snapshot" "数据库 pending funding records 查询失败。" "请检查 MySQL 可用性与查询权限。")
      raise (Failure.wrapped "list referral pending records" e)
    elim records [
      | [] ↦ report E report_no_data
      | r ∷ rs ↦ do
        new_state trigger
        after_manifest (r ∷ rs) (
            build_manifest E.numbers
              (record {
                records = r ∷ rs;
                token = none;
                settlement = E.settlement;
                recipient = E.recipient;
              })
              false)
    ]
