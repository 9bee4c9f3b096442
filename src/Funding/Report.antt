-- ===== src/Funding/Report.antt =====
-- internal/funding/report.go: the report of one run, its stages, its targets and its warnings.
use builder_code_bot.Prelude.{ℕ, Bool, Option, List, String}
use builder_code_bot.Prelude.Int.{ℤ}
use builder_code_bot.Funding.Model.{Trigger, PayoutKind, Phase, Token}
pub mod Update
pub mod Sync
pub mod Builders
pub mod Aggregate
pub mod Finalize

pub data ReportStatus : Type 0 where
  unset success warning no_data retrying critical : ReportStatus

-- `unknown` is a text that names no status, as a stored record may hold one.
pub data ReportStepStatus : Type 0 where
  pending success warning skipped failed : ReportStepStatus
  unknown : String → ReportStepStatus

pub record ReportExecution : Type 0 where
  pub attempt : ℕ
  pub max_attempts : ℕ
  pub recovery : Bool

pub record ReportStage : Type 0 where
  pub key : String
  pub label : String
  pub status : ReportStepStatus
  pub summary : String

-- `final_total`, `final_available` and the other texts are "" until they are observed.
pub record BuilderReport : Type 0 where
  pub name : String
  pub address : String
  pub claimable_usdc : String
  pub claimable_observed : Bool
  pub claimable_query_attempts : ℤ
  pub claim_attempts : ℤ
  pub claim_uncertain : Bool
  pub claim_status : ReportStepStatus
  pub claim_summary : String
  pub sweep_amount : String
  pub sweep_status : ReportStepStatus
  pub sweep_summary : String
  pub final_total : String
  pub final_available : String
  pub rate_limit_remaining : ℕ
  pub rate_limit_observed : Bool
  pub rate_limit_query_failed : Bool
  pub rate_limit_visibility_unconfirmed : Bool

-- `unknown` is a text that names no status; the zero value is `unknown ""`.
pub data DailyConsolidationStatus : Type 0 where
  claimables_captured completed : DailyConsolidationStatus
  unknown : String → DailyConsolidationStatus

pub record DailyConsolidationReport : Type 0 where
  pub utc_date : String
  pub status : DailyConsolidationStatus
  pub claimables_captured_at : ℕ
  pub completed_at : ℕ
  pub total_claimable_usdc : String
  pub builder_count : ℕ
  pub recorded_builders : ℕ
  pub observed_builders : ℕ
  pub uncertain_claims : ℕ
  pub observed : Bool
  pub missing : Bool
  pub load_failed : Bool
  pub covers_payout : Bool
  pub below_payout : Bool
  pub shortfall_usdc : String

pub record PayoutReport : Type 0 where
  pub status : ReportStepStatus
  pub amount : String
  pub settlement : String
  pub recipient : String
  pub settlement_total_before : String
  pub submit_attempts : ℕ
  pub blocked : Bool
  pub confirmation_evidence : String
  pub nonce : ℕ

pub record PayoutTargetReport : Type 0 where
  pub kind : PayoutKind
  pub records_read : Bool
  pub record_count : ℕ
  pub raw_total : String
  pub payout_total : String
  pub payout : PayoutReport
  pub database_status : ReportStepStatus

pub record SettlementBalanceReport : Type 0 where
  pub address : String
  pub total : String
  pub hold : String
  pub available : String
  pub observed : Bool
  pub query_failed : Bool
  pub post_payout_unconfirmed : Bool

-- `submitted_accounts` is a set of address keys. A time is in nanoseconds; 0 stands for Go's zero
-- time, which is before every time that a clock of the program shows.
pub record RunReport : Type 0 where
  pub status : ReportStatus
  pub compact : Bool
  pub trigger : Trigger
  pub outcome : String
  pub attempt : ℕ
  pub max_attempts : ℕ
  pub recovery : Bool
  pub network : String
  pub run_id : String
  pub utc_date : String
  pub phase : Option Phase
  pub started_at : ℕ
  pub claimables_captured_at : ℕ
  pub finished_at : ℕ
  pub record_count : ℕ
  pub records_read : Bool
  pub raw_total : String
  pub payout_total : String
  pub stages : List ReportStage
  pub builders : List BuilderReport
  pub daily_consolidation : DailyConsolidationReport
  pub payouts : List PayoutTargetReport
  pub settlement_balance : SettlementBalanceReport
  pub settlement_rate_limit_remaining : ℕ
  pub settlement_rate_limit_observed : Bool
  pub settlement_rate_limit_query_failed : Bool
  pub settlement_rate_limit_visibility_unconfirmed : Bool
  pub warnings : List String
  pub failure_stage : String
  pub failure_summary : String
  pub next_action : String
  pub token : Option Token
  pub submitted_accounts : List (List ℕ)
