-- ===== src/Funding/Report/Finalize.antt =====
-- finalize and reconcileDailyConsolidation of internal/funding/report.go.
use builder_code_bot.Prelude.{
  ℕ, Bool, true, false, ◌&&◌, not, Option, none, some, List, [], ◌∷◌, String, ltb, ◌==◌,
  if◌then◌else◌,
}
use builder_code_bot.Prelude.Text.{text_eq, ◌+++◌}
use builder_code_bot.Decimal.{Decimals}
use builder_code_bot.Funding.Action.{Failure, is_fatal, is_canceled}
use builder_code_bot.Funding.Report.{ReportStatus, DailyConsolidationReport, RunReport}
use builder_code_bot.Funding.Report.Update.{add_warning}

abbrev has_warnings : List String → Bool
has_warnings [] = false
has_warnings (w ∷ ws) = true

-- No error, an error that a retry follows, and the last error.
finalize_success : RunReport → RunReport
finalize_success r = record r {
  status =
      if has_warnings r.warnings
      then ReportStatus.warning
      else if text_eq r.outcome "no_data"
      then ReportStatus.no_data
      else ReportStatus.success;
}

abbrev default_text : String → String → String
default_text text fallback = if text_eq text "" then fallback else text

finalize_retry : RunReport → RunReport
finalize_retry r = record r {
  status = ReportStatus.retrying;
  compact = true;
  failure_summary = default_text r.failure_summary "资金任务未能完成。";
  next_action = default_text r.next_action "服务将在约 1 分钟后自动重试，无需立即人工操作。";
}

finalize_critical : Bool → RunReport → RunReport
finalize_critical fatal r = record r {
  status = ReportStatus.critical;
  outcome =
      if not fatal && (ltb 0 r.attempt && r.attempt == r.max_attempts)
      then "retry_exhausted"
      else r.outcome;
  failure_summary = default_text r.failure_summary "资金任务未能完成。";
  next_action = default_text r.next_action (
      if text_eq r.failure_stage "sweep"
      then "自动重试已耗尽，请检查 Builder 余额、Reward 可见性和 Settlement hold。"
      else "请检查服务日志和当前持久化状态后再决定是否重启。");
}

unfoldable pub retry_available : Failure → RunReport → Bool
retry_available e r =
    not (is_fatal e) && (ltb 0 r.attempt && (ltb 0 r.max_attempts && ltb r.attempt r.max_attempts))

-- Whether every builder of the report has an observed claimable in the record.
unfoldable pub is_complete_record : DailyConsolidationReport → Bool
is_complete_record c =
    c.observed
    && (ltb 0 c.builder_count
        && (c.recorded_builders == c.builder_count && c.observed_builders == c.builder_count))

module _ (D : Decimals) where
  open D use {Decimal, from_string, to_string, sub, less_than}

  reset_reconciliation : DailyConsolidationReport → DailyConsolidationReport
  reset_reconciliation c = record c {
    covers_payout = false;
    below_payout = false;
    shortfall_usdc = "";
  }

  shortfall_warning : Decimal → Decimal → String
  shortfall_warning claimable payout =
      "UTC 00:00 Claimable 合计 "
      +++ to_string claimable
      +++ " USDC，低于 Referral Payout "
      +++ to_string payout
      +++ " USDC，短缺 "
      +++ to_string (sub payout claimable)
      +++ " USDC，请人工核查结算口径"

  compare_totals : Option Decimal → Option Decimal → RunReport → RunReport
  unfolding shortfall_warning
  compare_totals (some claimable) (some payout) r =
      if less_than claimable payout
      then add_warning (shortfall_warning claimable payout) (record r {
        daily_consolidation = record (r.daily_consolidation) {
          below_payout = true;
          shortfall_usdc = to_string (sub payout claimable);
        };
      })
      else record r {
        daily_consolidation = record (r.daily_consolidation) { covers_payout = true };
      }
  compare_totals (some claimable) none r = r
  compare_totals none payout r = r

  unfoldable pub reconcile_daily_consolidation : RunReport → RunReport
  unfolding reset_reconciliation compare_totals is_complete_record
  reconcile_daily_consolidation r =
      let r' = record r { daily_consolidation = reset_reconciliation r.daily_consolidation } in
      if is_complete_record r'.daily_consolidation
      then compare_totals (from_string r'.daily_consolidation.total_claimable_usdc)
          (from_string r'.payout_total) r'
      else r'

  -- Whether the report is delivered, and the report.
  unfoldable pub finalize : ℕ → Option Failure → RunReport → Bool × RunReport
  unfolding finalize_success finalize_retry finalize_critical retry_available
      reconcile_daily_consolidation is_fatal is_canceled
  finalize now none r =
      (true, finalize_success (reconcile_daily_consolidation (record r { finished_at = now })))
  finalize now (some e) r =
      let finished = record r { finished_at = now } in
      let reconciled = reconcile_daily_consolidation finished in
      if is_canceled e
      then (false, finished)
      else if retry_available e reconciled
      then (true, finalize_retry reconciled)
      else (true, finalize_critical (is_fatal e) reconciled)
