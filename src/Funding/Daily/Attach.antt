-- ===== src/Funding/Daily/Attach.antt =====
-- attachDailyConsolidation of internal/funding/daily_consolidation.go, on the report. The load of the
-- record is in Funding/Tasks.
use builder_code_bot.Prelude.{
  ℕ, suc, Bool, true, false, not, Option, none, some, List, [], ◌∷◌, ◌++◌, String, length, ltb,
  ◌==◌, if◌then◌else◌,
}
use builder_code_bot.Prelude.Text.{codes_eq, address_key, is_blank, int_text, ◌+++◌}
use builder_code_bot.Decimal.{Decimals}
use builder_code_bot.Funding.Model.{Trigger}
use builder_code_bot.Funding.Report.{
  ReportStepStatus, BuilderReport, DailyConsolidationStatus, DailyConsolidationReport, RunReport,
}
use builder_code_bot.Funding.Report.Update.{set_stage, add_warning}
use builder_code_bot.Funding.Report.Builders.{
  no_daily, set_builder_stage, mark_builder_steps_skipped,
}
use builder_code_bot.Funding.Daily.{DailyConsolidationBuilder, DailyConsolidation}

abbrev pub is_utc : Trigger → Bool
is_utc Trigger.utc_payout = true
is_utc _ = false

abbrev pub is_completed : DailyConsolidationStatus → Bool
is_completed DailyConsolidationStatus.completed = true
is_completed _ = false

abbrev is_warning : ReportStepStatus → Bool
is_warning ReportStepStatus.warning = true
is_warning _ = false

abbrev is_pending : ReportStepStatus → Bool
is_pending ReportStepStatus.pending = true
is_pending _ = false

fallback_summary : String → String → String
fallback_summary value fallback = if is_blank value then fallback else value

-- The map `entries`, in which a later builder of the record replaces an earlier one.
unfoldable pub find_entry :
    List ℕ → List DailyConsolidationBuilder → Option DailyConsolidationBuilder
find_entry key [] = none
find_entry key (b ∷ rest) = elim (find_entry key rest) [
  | some e ↦ some e
  | none ↦ if codes_eq (address_key b.address) key then some b else none
]

unfoldable pub mark_incomplete_builder_actions : BuilderReport → BuilderReport
mark_incomplete_builder_actions b = record b {
  claim_status = if is_pending b.claim_status then ReportStepStatus.warning else b.claim_status;
  claim_summary = if is_pending b.claim_status then "零点任务在执行完成前中断" else b.claim_summary;
  sweep_status = if is_pending b.sweep_status then ReportStepStatus.warning else b.sweep_status;
  sweep_summary = if is_pending b.sweep_status then "零点任务在执行完成前中断" else b.sweep_summary;
}

copy_entry : DailyConsolidationBuilder → BuilderReport → BuilderReport
copy_entry e b = record b {
  claimable_usdc = e.claimable_usdc;
  claimable_observed = e.claimable_observed;
  claimable_query_attempts = e.claimable_query_attempts;
  claim_attempts = e.claim_attempts;
  claim_uncertain = e.claim_uncertain;
  claim_status = e.claim_status;
  claim_summary = e.claim_summary;
  sweep_amount = e.sweep_amount;
  sweep_status = e.sweep_status;
  sweep_summary = e.sweep_summary;
}

-- The counters of the loop, its sum and the warnings that it adds.
pub record Tally (A : Type 0) : Type 0 where
  pub recorded : ℕ
  pub observed : ℕ
  pub uncertain : ℕ
  pub total : A
  pub warnings : List String

abbrev warn_if : Bool → String → List String
warn_if b w = if b then w ∷ [] else []

unfoldable pub add_warnings : List String → RunReport → RunReport
add_warnings [] r = r
add_warnings (w ∷ ws) r = add_warnings ws (add_warning w r)

unfoldable pub mark_missing_daily_consolidation : String → RunReport → RunReport
mark_missing_daily_consolidation warning r =
    let skipped = mark_builder_steps_skipped "UTC 00:00 归集记录不可用" (
      set_stage "sweep" ReportStepStatus.skipped "UTC 00:00 归集记录不可用"
        (set_stage "rewards" ReportStepStatus.skipped "UTC 00:00 归集记录不可用" r)) in
    if is_utc r.trigger then add_warning warning skipped else skipped

-- The summary before its record is found.
abbrev pub bare_summary : String → RunReport → DailyConsolidationReport
bare_summary utc_date r = record no_daily { utc_date = utc_date; builder_count = length r.builders }

-- The warnings of a scheduled payout about an incomplete record.
unfoldable pub record_warnings : DailyConsolidationReport → List String
record_warnings c =
    warn_if (not (c.recorded_builders == c.builder_count)) (
      "UTC 00:00 归集记录仅包含 "
      +++ int_text c.recorded_builders
      +++ "/"
      +++ int_text c.builder_count
      +++ " 个 Builder")
    ++ warn_if (not (c.observed_builders == c.builder_count)) (
        "UTC 00:00 Claimable 仅成功查询 "
        +++ int_text c.observed_builders
        +++ "/"
        +++ int_text c.builder_count
        +++ " 个 Builder，当日对账数据不完整")
    ++ warn_if (not (is_completed c.status)) "UTC 00:00 Claimable 已保存，但 claim 与资金归集任务未完整结束"
    ++ warn_if (ltb 0 c.uncertain_claims)
        ("UTC 00:00 有 " +++ int_text c.uncertain_claims +++ " 个 Builder 的 claim 在有限观察后结果仍不确定，请人工核查")

module _ (D : Decimals) where
  open D use {Decimal, from_int, from_string, to_string, add, is_negative}

  add_claimable : String → Decimal → Decimal
  add_claimable text total = elim (from_string text) [
    | none ↦ total
    | some x ↦ if is_negative x then total else add total x
  ]

  unfoldable pub attach_entry :
      Bool
      → DailyConsolidationBuilder
      → BuilderReport
      → Tally Decimal
      → BuilderReport × Tally Decimal
  unfolding copy_entry mark_incomplete_builder_actions add_claimable fallback_summary
  attach_entry completed e b t =
      let copied = copy_entry e b in
      let b' = if completed then copied else mark_incomplete_builder_actions copied in
      (
        b',
        record {
          recorded = suc t.recorded;
          observed = if e.claimable_observed then suc t.observed else t.observed;
          uncertain = if e.claim_uncertain then suc t.uncertain else t.uncertain;
          total = if e.claimable_observed then add_claimable e.claimable_usdc t.total else t.total;
          warnings =
              t.warnings
              ++ warn_if (not e.claimable_observed) (b.name +++ ": 零点 Claimable 查询失败")
              ++ warn_if (is_warning b'.claim_status)
                  (b.name +++ ": " +++ fallback_summary b'.claim_summary "Reward 领取存在告警")
              ++ warn_if (is_warning b'.sweep_status)
                  (b.name +++ ": " +++ fallback_summary b'.sweep_summary "资金归集存在告警");
        },
      )

  unfoldable pub attach_found :
      Bool
      → Option DailyConsolidationBuilder
      → BuilderReport
      → Tally Decimal
      → BuilderReport × Tally Decimal
  unfolding attach_entry
  attach_found completed none b t = (b, t)
  attach_found completed (some e) b t = attach_entry completed e b t

  unfoldable pub attach_builders :
      DailyConsolidation → List BuilderReport → Tally Decimal → List BuilderReport × Tally Decimal
  unfolding attach_found find_entry
  attach_builders record' [] t = ([], t)
  attach_builders record' (b ∷ bs) t =
      let (b', t') =
        attach_found (is_completed record'.status)
          (find_entry (address_key b.address) record'.builders) b t in
      let (bs', t'') = attach_builders record' bs t' in (b' ∷ bs', t'')

  abbrev pub no_tally : Tally Decimal
  no_tally = record { recorded = 0; observed = 0; uncertain = 0; total = from_int 0; warnings = [] }

  -- The report with the record's builders and the summary.
  unfoldable pub show_record : String → DailyConsolidation → RunReport → RunReport
  unfolding attach_builders add_warnings
  show_record utc_date record' r =
      let (builders, t) = attach_builders record' r.builders no_tally in
      set_builder_stage "sweep" false (
        set_builder_stage "rewards" true
          (record (add_warnings t.warnings (record r { builders = builders })) {
            daily_consolidation = record (bare_summary utc_date r) {
              observed = true;
              status = record'.status;
              claimables_captured_at = record'.claimables_captured_at;
              completed_at = record'.completed_at;
              recorded_builders = t.recorded;
              observed_builders = t.observed;
              uncertain_claims = t.uncertain;
              total_claimable_usdc = if ltb 0 t.observed then to_string t.total else "";
            };
          }))

  unfoldable pub attach_record : String → DailyConsolidation → RunReport → RunReport
  unfolding show_record record_warnings
  attach_record utc_date record' r =
      let shown = show_record utc_date record' r in
      if is_utc r.trigger
      then add_warnings (record_warnings shown.daily_consolidation) shown
      else shown
