-- ===== src/Funding/Report/Builders.antt =====
-- The parts of internal/funding/report.go that are about the builders and the daily consolidation,
-- and newRunReport.
use builder_code_bot.Prelude.{
  ℕ, suc, Bool, false, Option, none, some, List, [], ◌∷◌, map, String, length, ltb, ◌==◌,
  if◌then◌else◌,
}
use builder_code_bot.Prelude.Int.{pos}
use builder_code_bot.Prelude.Text.{text_eq, ◌+++◌, trim_space, equal_fold, address_key, int_text}
use builder_code_bot.Decimal.{Decimals}
use builder_code_bot.Funding.Model.{Trigger, PayoutKind}
use builder_code_bot.Funding.Report.{
  ReportStatus, ReportStepStatus, ReportExecution, ReportStage, BuilderReport,
  DailyConsolidationStatus, DailyConsolidationReport, RunReport,
}
use builder_code_bot.Funding.Report.Update.{
  update_builder, add_warning, set_stage, target_stage_key, bare_settlement, new_target,
}

abbrev pub no_daily : DailyConsolidationReport
no_daily = record {
  utc_date = "";
  status = DailyConsolidationStatus.unknown "";
  claimables_captured_at = 0;
  completed_at = 0;
  total_claimable_usdc = "";
  builder_count = 0;
  recorded_builders = 0;
  observed_builders = 0;
  uncertain_claims = 0;
  observed = false;
  missing = false;
  load_failed = false;
  covers_payout = false;
  below_payout = false;
  shortfall_usdc = "";
}

abbrev new_stage : String → String → ReportStage
new_stage key label = record {
  key = key;
  label = label;
  status = ReportStepStatus.pending;
  summary = "";
}

-- `names` is the map of names by address key, with "" for a missing key.
unfoldable pub new_builder : (List ℕ → String) → String → BuilderReport
new_builder names address =
    let name = names (address_key address) in
    record {
      name = if text_eq name "" then "Builder" else name;
      address = address;
      claimable_usdc = "";
      claimable_observed = false;
      claimable_query_attempts = pos 0;
      claim_attempts = pos 0;
      claim_uncertain = false;
      claim_status = ReportStepStatus.pending;
      claim_summary = "";
      sweep_amount = "";
      sweep_status = ReportStepStatus.pending;
      sweep_summary = "";
      final_total = "";
      final_available = "";
      rate_limit_remaining = 0;
      rate_limit_observed = false;
      rate_limit_query_failed = false;
      rate_limit_visibility_unconfirmed = false;
    }

unfoldable pub new_run_report :
    ℕ
    → Trigger
    → ReportExecution
    → String
    → List String
    → (List ℕ → String)
    → String
    → String
    → RunReport
unfolding new_builder target_stage_key
new_run_report now trigger execution network builders names settlement recipient =
    let target = new_target PayoutKind.referral in
    record {
      status = ReportStatus.unset;
      compact = false;
      trigger = trigger;
      outcome = "";
      attempt = execution.attempt;
      max_attempts = execution.max_attempts;
      recovery = execution.recovery;
      network = trim_space network;
      run_id = "";
      utc_date = "";
      phase = none;
      started_at = now;
      claimables_captured_at = 0;
      finished_at = 0;
      record_count = 0;
      records_read = false;
      raw_total = "";
      payout_total = "";
      stages =
          new_stage "snapshot" "数据快照"
          ∷ new_stage "rewards" "Reward"
          ∷ new_stage "sweep" "资金归集"
          ∷ new_stage (target_stage_key PayoutKind.referral "payout") "Referral Payout"
          ∷ new_stage (target_stage_key PayoutKind.referral "database") "Referral 数据库"
          ∷ new_stage "finalize" "状态归档"
          ∷ [];
      builders = map (new_builder names) builders;
      daily_consolidation = no_daily;
      payouts =
          record target {
            payout = record (target.payout) { settlement = settlement; recipient = recipient };
          }
          ∷ [];
      settlement_balance = bare_settlement settlement false;
      settlement_rate_limit_remaining = 0;
      settlement_rate_limit_observed = false;
      settlement_rate_limit_query_failed = false;
      settlement_rate_limit_visibility_unconfirmed = false;
      warnings = [];
      failure_stage = "";
      failure_summary = "";
      next_action = "";
      token = none;
      submitted_accounts = [];
    }

find_in : String → List BuilderReport → Option BuilderReport
find_in address [] = none
find_in address (b ∷ rest) = if equal_fold b.address address then some b else find_in address rest

-- What `builder(address)` points at; `none` is nil.
unfoldable pub find_builder : String → RunReport → Option BuilderReport
unfolding find_in
find_builder address r = find_in address r.builders

-- A change of the builder's report and a warning with its name, if it is there.
unfoldable pub warn_builder :
    String → (BuilderReport → BuilderReport) → String → RunReport → RunReport
unfolding find_builder update_builder add_warning
warn_builder address f message r = elim (find_builder address r) [
  | none ↦ r
  | some b ↦ add_warning (b.name +++ ": " +++ message) (update_builder address f r)
]

-- Of each kind of status, how many; `warning` counts the failed ones too.
pub record StepCounts : Type 0 where
  pub success : ℕ
  pub warning : ℕ
  pub skipped : ℕ

abbrev pub step_status : Bool → BuilderReport → ReportStepStatus
step_status claim b = if claim then b.claim_status else b.sweep_status

abbrev pub count_step : ReportStepStatus → StepCounts → StepCounts
count_step ReportStepStatus.failed c = record c { warning = suc c.warning }
count_step ReportStepStatus.warning c = record c { warning = suc c.warning }
count_step ReportStepStatus.success c = record c { success = suc c.success }
count_step ReportStepStatus.skipped c = record c { skipped = suc c.skipped }
count_step ReportStepStatus.pending c = c
count_step (ReportStepStatus.unknown _) c = c

unfoldable pub count_steps : List BuilderReport → Bool → StepCounts
count_steps [] claim = record { success = 0; warning = 0; skipped = 0 }
count_steps (b ∷ builders) claim = count_step (step_status claim b) (count_steps builders claim)

unfoldable pub aggregate_builder_step : List BuilderReport → Bool → ReportStepStatus
unfolding count_steps
aggregate_builder_step builders claim =
    let c = count_steps builders claim in
    if ltb 0 c.warning
    then ReportStepStatus.warning
    else if ltb 0 c.success
    then ReportStepStatus.success
    else if c.skipped == length builders
    then ReportStepStatus.skipped
    else ReportStepStatus.pending

unfoldable pub builder_step_summary : List BuilderReport → Bool → String
unfolding count_steps
builder_step_summary builders claim =
    let c = count_steps builders claim in
    "成功 " +++ int_text c.success +++ "，跳过 " +++ int_text c.skipped +++ "，告警 " +++ int_text c.warning

skip_builder : String → BuilderReport → BuilderReport
skip_builder summary b = record b {
  claim_status = ReportStepStatus.skipped;
  claim_summary = summary;
  sweep_status = ReportStepStatus.skipped;
  sweep_summary = summary;
}

-- setStage with the aggregate of the builders' claims or sweeps
unfoldable pub set_builder_stage : String → Bool → RunReport → RunReport
unfolding set_stage aggregate_builder_step builder_step_summary
set_builder_stage key claim r =
    set_stage key (aggregate_builder_step r.builders claim) (builder_step_summary r.builders claim)
      r

unfoldable pub mark_builder_steps_skipped : String → RunReport → RunReport
unfolding skip_builder
mark_builder_steps_skipped summary r = record r { builders = map (skip_builder summary) r.builders }

action_name : String → String
action_name action =
    if text_eq action "claimable"
    then "零点 Claimable"
    else if text_eq action "claimRewards"
    then "Reward 领取"
    else if text_eq action "spotBalance"
    then "余额"
    else if text_eq action "spotSend"
    then "资金归集"
    else action

outcome_name : String → String
outcome_name outcome =
    if text_eq outcome "query"
    then "查询失败"
    else if text_eq outcome "prepare"
    then "请求准备失败"
    else if text_eq outcome "rejected"
    then "被明确拒绝"
    else if text_eq outcome "unknown"
    then "结果不确定"
    else "未完成"

unfoldable pub builder_action_summary : String → String → String
unfolding action_name outcome_name
builder_action_summary action outcome = action_name action +++ outcome_name outcome

module _ (D : Decimals) where
  open D use {from_string, to_string, from_int, add}

  -- The amount swept so far; a text that does not parse counts as zero.
  unfoldable pub add_sweep_amount : String → BuilderReport → BuilderReport
  add_sweep_amount amount b = if text_eq amount "" then b else elim (from_string amount) [
    | none ↦ b
    | some next ↦ record b {
      sweep_amount = to_string (
          add
            (if text_eq b.sweep_amount ""
              then from_int 0
              else elim (from_string b.sweep_amount) [ none ↦ from_int 0 | some t ↦ t ])
            next);
    }
  ]
