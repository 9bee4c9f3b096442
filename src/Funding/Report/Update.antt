-- ===== src/Funding/Report/Update.antt =====
-- The methods of RunReport that change a stage, a target, the warnings or the failure.
use builder_code_bot.Prelude.{
  ℕ, Bool, true, false, ◌||◌, List, [], ◌∷◌, ◌++◌, String, if◌then◌else◌,
}
use builder_code_bot.Prelude.Text.{
  text_eq, codes_eq, ◌+++◌, address_key, trim_space, equal_fold, is_blank,
}
use builder_code_bot.Funding.Model.{PayoutKind}
use builder_code_bot.Funding.Report.{
  ReportStepStatus, ReportStage, PayoutReport, PayoutTargetReport, BuilderReport,
  SettlementBalanceReport, RunReport,
}

unfoldable pub kind_text : PayoutKind → String
kind_text PayoutKind.referral = "referral"
kind_text (PayoutKind.retired k) = k

unfoldable pub kind_eq : PayoutKind → PayoutKind → Bool
unfolding kind_text
kind_eq k l = text_eq (kind_text k) (kind_text l)

unfoldable pub target_stage_key : PayoutKind → String → String
unfolding kind_text
target_stage_key kind stage = kind_text kind +++ "_" +++ stage

-- setStage writes the first stage with the key, if there is one.
write_stage : String → ReportStepStatus → String → List ReportStage → List ReportStage
write_stage key status summary [] = []
write_stage key status summary (stage ∷ rest) =
    if text_eq stage.key key
    then record stage { status = status; summary = summary } ∷ rest
    else stage ∷ write_stage key status summary rest

unfoldable pub set_stage : String → ReportStepStatus → String → RunReport → RunReport
unfolding write_stage
set_stage key status summary r = record r { stages = write_stage key status summary r.stages }

unfoldable pub set_target_stage :
    PayoutKind → String → ReportStepStatus → String → RunReport → RunReport
unfolding set_stage target_stage_key
set_target_stage kind stage status summary r =
    set_stage (target_stage_key kind stage) status summary r

abbrev new_payout : PayoutReport
new_payout = record {
  status = ReportStepStatus.pending;
  amount = "";
  settlement = "";
  recipient = "";
  settlement_total_before = "";
  submit_attempts = 0;
  blocked = false;
  confirmation_evidence = "";
  nonce = 0;
}

abbrev pub new_target : PayoutKind → PayoutTargetReport
new_target kind = record {
  kind = kind;
  records_read = false;
  record_count = 0;
  raw_total = "";
  payout_total = "";
  payout = new_payout;
  database_status = ReportStepStatus.pending;
}

write_target :
    PayoutKind
    → (PayoutTargetReport → PayoutTargetReport)
    → List PayoutTargetReport
    → List PayoutTargetReport
unfolding kind_eq
write_target kind f [] = f (new_target kind) ∷ []
write_target kind f (t ∷ rest) =
    if kind_eq t.kind kind then f t ∷ rest else t ∷ write_target kind f rest

-- A write through the pointer that `target(kind)` returns: the first target of the kind, or a new
-- one at the end.
unfoldable pub update_target :
    PayoutKind → (PayoutTargetReport → PayoutTargetReport) → RunReport → RunReport
unfolding write_target
update_target kind f r = record r { payouts = write_target kind f r.payouts }

abbrev pub update_payout : PayoutKind → (PayoutReport → PayoutReport) → RunReport → RunReport
update_payout kind f = update_target kind (λ t. record t { payout = f t.payout })

abbrev pub set_payout_status : PayoutKind → ReportStepStatus → RunReport → RunReport
set_payout_status kind status = update_payout kind (λ p. record p { status = status })

abbrev pub set_database_status : PayoutKind → ReportStepStatus → RunReport → RunReport
set_database_status kind status = update_target kind (λ t. record t { database_status = status })

unfoldable pub mark_target_no_data : PayoutKind → RunReport → RunReport
unfolding update_target set_target_stage
mark_target_no_data kind r =
    let marked =
      update_target kind
        (λ t. record t {
          records_read = true;
          record_count = 0;
          raw_total = "0.000000000000000000";
          payout_total = "0";
          payout = record (t.payout) { amount = "0"; status = ReportStepStatus.skipped };
          database_status = ReportStepStatus.skipped;
        })
        r in
    set_target_stage kind "database" ReportStepStatus.skipped "没有待完成记录"
      (set_target_stage kind "payout" ReportStepStatus.skipped "没有待处理记录" marked)

unfoldable pub holds_key : List ℕ → List (List ℕ) → Bool
holds_key k [] = false
holds_key k (j ∷ keys) = codes_eq j k || holds_key k keys

unfoldable pub mark_submitted : String → RunReport → RunReport
unfolding holds_key
mark_submitted address r =
    let k = address_key address in
    record r {
      submitted_accounts =
          if holds_key k r.submitted_accounts
          then r.submitted_accounts
          else k ∷ r.submitted_accounts;
    }

unfoldable pub submitted : String → RunReport → Bool
unfolding holds_key
submitted address r = holds_key (address_key address) r.submitted_accounts

write_builder : String → (BuilderReport → BuilderReport) → List BuilderReport → List BuilderReport
write_builder address f [] = []
write_builder address f (b ∷ rest) =
    if equal_fold b.address address then f b ∷ rest else b ∷ write_builder address f rest

-- A write through the pointer that `builder(address)` returns, if it is not nil.
unfoldable pub update_builder : String → (BuilderReport → BuilderReport) → RunReport → RunReport
unfolding write_builder
update_builder address f r = record r { builders = write_builder address f r.builders }

abbrev holds_text : String → List String → Bool
holds_text m [] = false
holds_text m (w ∷ ws) = text_eq w m || holds_text m ws

unfoldable pub add_warning : String → RunReport → RunReport
add_warning message r =
    let m = trim_space message in
    if text_eq m "" || holds_text m r.warnings
    then r
    else record r { warnings = r.warnings ++ m ∷ [] }

unfoldable pub fail : String → String → String → RunReport → RunReport
unfolding set_stage
fail stage summary next_action r =
    let failed = record r {
      failure_stage = stage;
      failure_summary = summary;
      next_action = next_action;
    } in
    if text_eq stage "" then failed else set_stage stage ReportStepStatus.failed summary failed

unfoldable pub fail_target : PayoutKind → String → String → String → RunReport → RunReport
unfolding update_target set_target_stage target_stage_key
fail_target kind stage summary next_action r =
    let failed = record r {
      failure_stage = target_stage_key kind stage;
      failure_summary = summary;
      next_action = next_action;
    } in
    let marked =
      update_target kind
        (λ t. record t {
          payout =
              if text_eq stage "payout"
              then record (t.payout) { status = ReportStepStatus.failed }
              else t.payout;
          database_status =
              if text_eq stage "database" then ReportStepStatus.failed else t.database_status;
        })
        failed in
    set_target_stage kind stage ReportStepStatus.failed summary marked

find_settlement : PayoutKind → List PayoutTargetReport → String
unfolding kind_eq
find_settlement kind [] = ""
find_settlement kind (t ∷ rest) =
    if kind_eq t.kind kind then t.payout.settlement else find_settlement kind rest

-- A SettlementBalanceReport with an address alone, and the mark that a payout left it open.
abbrev pub bare_settlement : String → Bool → SettlementBalanceReport
bare_settlement address unconfirmed = record {
  address = address;
  total = "";
  hold = "";
  available = "";
  observed = false;
  query_failed = false;
  post_payout_unconfirmed = unconfirmed;
}

-- markSettlementPayoutUnconfirmed of report_observation.go
unfoldable pub mark_settlement_payout_unconfirmed : PayoutKind → RunReport → RunReport
unfolding update_target find_settlement
mark_settlement_payout_unconfirmed kind r =
    if is_blank r.settlement_balance.address
    then (let r' = update_target kind (λ t. t) r in
        record r' { settlement_balance = bare_settlement (find_settlement kind r'.payouts) true })
    else record r { settlement_balance = bare_settlement r.settlement_balance.address true }
