-- ===== src/Funding/Daily.antt =====
-- internal/funding/daily_consolidation.go: the record of the daily consolidation, and how it is made
-- from a report.
pub mod Validate
pub mod Valid
pub mod Accepts
pub mod Restored
pub mod Counts
pub mod Attach
use builder_code_bot.Prelude.{ℕ, Bool, List, map, String}
use builder_code_bot.Prelude.Int.{ℤ}
use builder_code_bot.Funding.Report.{
  ReportStepStatus, BuilderReport, DailyConsolidationStatus, RunReport,
}

pub record DailyConsolidationBuilder : Type 0 where
  pub address : String
  pub claimable_usdc : String
  pub claimable_observed : Bool
  pub claimable_query_attempts : ℤ
  pub claim_attempts : ℤ
  pub claim_uncertain : Bool
  pub claim_status : ReportStepStatus
  pub claim_summary : String
  pub sweep_amount : String
  pub sweep_status : ReportStepStatus
  pub sweep_summary : String

pub record DailyConsolidation : Type 0 where
  pub utc_date : String
  pub status : DailyConsolidationStatus
  pub started_at : ℕ
  pub claimables_captured_at : ℕ
  pub completed_at : ℕ
  pub builders : List DailyConsolidationBuilder

abbrev pub daily_builder : BuilderReport → DailyConsolidationBuilder
daily_builder b = record {
  address = b.address;
  claimable_usdc = b.claimable_usdc;
  claimable_observed = b.claimable_observed;
  claimable_query_attempts = b.claimable_query_attempts;
  claim_attempts = b.claim_attempts;
  claim_uncertain = b.claim_uncertain;
  claim_status = b.claim_status;
  claim_summary = b.claim_summary;
  sweep_amount = b.sweep_amount;
  sweep_status = b.sweep_status;
  sweep_summary = b.sweep_summary;
}

-- No caller passes a nil report.
unfoldable pub daily_consolidation_from_report :
    String → DailyConsolidationStatus → ℕ → RunReport → DailyConsolidation
daily_consolidation_from_report utc_date status completed_at r = record {
  utc_date = utc_date;
  status = status;
  started_at = r.started_at;
  claimables_captured_at = r.claimables_captured_at;
  completed_at = completed_at;
  builders = map daily_builder r.builders;
}
