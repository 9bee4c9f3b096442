-- ===== src/Funding/Report/Sync.antt =====
-- RunReport.syncState: the report after the persisted run.
use builder_code_bot.Prelude.{
  ◌+◌, Bool, true, false, Option, none, some, List, [], ◌∷◌, String, if◌then◌else◌, length,
}
use builder_code_bot.Prelude.Text.{text_eq, int_text, ◌+++◌}
use builder_code_bot.Decimal.{Decimals}
use builder_code_bot.Funding.Model.{
  Phase, PayoutTargetState, RunState, ActiveTarget, active_payout_target,
}
use builder_code_bot.Funding.Validation.{is_uncertain_payout_block}
use builder_code_bot.Funding.Report.{ReportStepStatus, PayoutReport, RunReport}
use builder_code_bot.Funding.Report.Update.{
  update_target, set_payout_status, set_database_status, set_target_stage,
}

sync_completed : PayoutTargetState → RunReport → RunReport
sync_completed t r = elim t.manifest.records [
  | [] ↦ set_target_stage t.kind "database" ReportStepStatus.skipped "没有待完成记录" (
      set_target_stage t.kind "payout" ReportStepStatus.skipped "没有待处理记录" (
        set_database_status t.kind ReportStepStatus.skipped
          (set_payout_status t.kind ReportStepStatus.skipped r)))
  | _ ∷ _ ↦
      let paid =
        if text_eq t.manifest.payout_total "0"
        then set_target_stage t.kind "payout" ReportStepStatus.skipped "无需付款"
            (set_payout_status t.kind ReportStepStatus.skipped r)
        else set_target_stage t.kind "payout" ReportStepStatus.success "Payout 已确认"
            (set_payout_status t.kind ReportStepStatus.success r) in
      set_target_stage t.kind "database" ReportStepStatus.success
        (int_text (length t.manifest.records) +++ " 条记录已完成")
        (set_database_status t.kind ReportStepStatus.success paid)
]

sync_target_statuses : Phase → PayoutTargetState → RunReport → RunReport
unfolding sync_completed
sync_target_statuses Phase.payout_confirmed t r =
    set_target_stage t.kind "payout" ReportStepStatus.success "Payout 已确认"
      (set_payout_status t.kind ReportStepStatus.success r)
sync_target_statuses Phase.completed t r = sync_completed t r
sync_target_statuses _ t r = r

sync_journal : PayoutTargetState → PayoutReport → PayoutReport
sync_journal t p = elim t.payout [
  | none ↦ p
  | some j ↦ record p {
    settlement_total_before = j.total_before;
    submit_attempts = j.submit_attempts;
    nonce = j.prepared.nonce;
  }
]

sync_payout : PayoutTargetState → PayoutReport → PayoutReport
unfolding sync_journal
sync_payout t p =
    let q = sync_journal t (record p {
      amount = t.manifest.payout_total;
      settlement = t.manifest.settlement;
      recipient = t.manifest.recipient;
    }) in
    record q {
      blocked = is_uncertain_payout_block t;
      confirmation_evidence =
          if text_eq t.confirmation_evidence ""
          then q.confirmation_evidence
          else t.confirmation_evidence;
    }

sync_target : PayoutTargetState → RunReport → RunReport
unfolding sync_payout sync_target_statuses
sync_target t r =
    let counted =
      update_target t.kind
        (λ u. record u {
          records_read = true;
          record_count = length t.manifest.records;
          raw_total = t.manifest.raw_total;
          payout_total = t.manifest.payout_total;
          payout = sync_payout t u.payout;
        })
        r in
    let addressed = record counted {
      record_count = counted.record_count + length t.manifest.records;
      settlement_balance =
          if text_eq counted.settlement_balance.address ""
          then record (counted.settlement_balance) { address = t.manifest.settlement }
          else counted.settlement_balance;
      token = elim counted.token [ none ↦ t.manifest.token | some known ↦ some known ];
    } in
    sync_target_statuses t.phase t addressed

sync_phase : ActiveTarget → Option Phase → Option Phase
sync_phase ActiveTarget.unsupported p = p
sync_phase ActiveTarget.all_completed p = some Phase.completed
sync_phase (ActiveTarget.active t) p = some t.phase

is_empty : List PayoutTargetState → Bool
is_empty [] = true
is_empty (_ ∷ _) = false

sync_targets : List PayoutTargetState → RunReport → RunReport
unfolding sync_target
sync_targets [] r = r
sync_targets (t ∷ ts) r = sync_targets ts (sync_target t r)

module _ (D : Decimals) where
  open D use {Decimal}

  -- An amount that cannot be parsed adds nothing.
  add_text : Decimal → String → Decimal
  add_text total text = elim (D.from_string text) [ none ↦ total | some x ↦ D.add total x ]

  sum_raw : Decimal → List PayoutTargetState → Decimal
  unfolding add_text
  sum_raw total [] = total
  sum_raw total (t ∷ ts) = sum_raw (add_text total t.manifest.raw_total) ts

  sum_payout : Decimal → List PayoutTargetState → Decimal
  unfolding add_text
  sum_payout total [] = total
  sum_payout total (t ∷ ts) = sum_payout (add_text total t.manifest.payout_total) ts

  unfoldable pub sync_state : RunState → RunReport → RunReport
  unfolding sync_phase sync_targets sum_raw sum_payout is_empty
  sync_state run r =
      let started = record r {
        run_id = run.run_id;
        utc_date = run.utc_date;
        phase = sync_phase (active_payout_target run) r.phase;
        record_count = 0;
        records_read = if is_empty run.targets then false else true;
      } in
      let synced = sync_targets run.targets started in
      record synced {
        raw_total = D.string_fixed 18 (sum_raw (D.from_int 0) run.targets);
        payout_total = D.to_string (sum_payout (D.from_int 0) run.targets);
      }
