-- ===== src/Tests/Daily.antt =====
-- Concrete daily records.
use builder_code_bot.Prelude.{
  ◌≡◌, refl, ◌↔◌, ◌⊎◌, true, Option, none, some, [], ◌∷◌, map, String, if◌then◌else◌,
}
use builder_code_bot.Prelude.Text.{text_eq}
use builder_code_bot.Funding.Action.{Failure, Result, ok}
use builder_code_bot.Funding.Report.{ReportStepStatus, DailyConsolidationStatus, RunReport}
use builder_code_bot.Funding.Report.Builders.{new_builder}
use builder_code_bot.Funding.Daily.{
  DailyConsolidation, daily_builder, daily_consolidation_from_report,
}
use builder_code_bot.Funding.Daily.Validate.{validate}
use builder_code_bot.Funding.Daily.Accepts.{IsValid, validate_lem}
use builder_code_bot.Funding.Daily.Attach.{attach_record}
use builder_code_bot.Funding.Daily.Restored.{attach_record-daily_consolidation_from_report}
use builder_code_bot.Funding.Daily.Counts.{count_entries, attach_record_counts}
use builder_code_bot.State.Daily.{
  DailyDisk, DailyFaults, load_daily_consolidation, save_daily_consolidation,
}
use builder_code_bot.State.Daily.Answers.{save_daily_consolidation_lem}
use builder_code_bot.Tests.World.{whole_numbers, new_report}
use builder_code_bot.Tests.Codec.{recorded, daily_codec, daily_codec_laws}

abbrev no_faults : DailyFaults
no_faults = record {
  context = none;
  prepare = none;
  prepare_directory = none;
  create = none;
  chmod = none;
  write = none;
  flush = none;
  close = none;
  discard = none;
  install = none;
  sync_directory = none;
  sync = none;
  remove_temp = none;
}

abbrev empty_disk : DailyDisk
empty_disk = record { files = []; temp = none }

abbrev saved : Result (Unit {0}) × DailyDisk
saved =
    save_daily_consolidation whole_numbers (λ _. true) (λ _. Failure.plain "invalid") daily_codec
      no_faults recorded empty_disk

abbrev answer : DailyDisk → String → Result (Option DailyConsolidation)
answer d date =
    load_daily_consolidation whole_numbers (λ _. true) (λ _. Failure.plain "invalid") daily_codec
      none date d

save_daily_consolidation_lem_example :
    (((date : String) → answer saved.1 date ≡ answer empty_disk date)
      ⊎ ((date : String)
          → answer saved.1 date
            ≡ (if text_eq "2026-01-01" date then ok (some recorded) else answer empty_disk date)))
    × (saved.0 ≡ ok tt → answer saved.1 "2026-01-01" ≡ ok (some recorded))
save_daily_consolidation_lem_example =
    save_daily_consolidation_lem whole_numbers (λ _. true) (λ _. Failure.plain "invalid")
      daily_codec daily_codec_laws no_faults recorded empty_disk

validate_lem_example :
    (validate whole_numbers (λ _. true) recorded ≡ none)
    ↔ IsValid whole_numbers (λ _. true) recorded
validate_lem_example = validate_lem whole_numbers (λ _. true) recorded

-- The report of a payout, and that of a consolidation before it.
abbrev before : RunReport
before = record new_report { builders = new_builder (λ _. "") "0xc" ∷ [] }

abbrev consolidated : RunReport
consolidated = record before {
  builders =
      record (new_builder (λ _. "") "0xc") {
        claimable_usdc = "3";
        claimable_observed = true;
        claim_status = ReportStepStatus.success;
      }
      ∷ [];
}

attach_record_counts_example :
    let s = (attach_record whole_numbers "2026-01-01" recorded before).daily_consolidation in
    (s.builder_count ≡ 1)
    × ((s.recorded_builders ≡ count_entries (λ _. true) recorded before.builders)
        × ((s.observed_builders
              ≡ count_entries (λ e. e.claimable_observed) recorded before.builders)
            × (s.uncertain_claims
                ≡ count_entries (λ e. e.claim_uncertain) recorded before.builders)))
attach_record_counts_example = attach_record_counts whole_numbers "2026-01-01" recorded before

attach_record-daily_consolidation_from_report_example :
    let shown =
      attach_record whole_numbers "2026-01-01"
        (daily_consolidation_from_report "2026-01-01" DailyConsolidationStatus.completed 3
          consolidated)
        before in
    (map daily_builder shown.builders ≡ map daily_builder consolidated.builders)
    × (shown.daily_consolidation.recorded_builders ≡ shown.daily_consolidation.builder_count)
unfolding new_builder
attach_record-daily_consolidation_from_report_example =
    attach_record-daily_consolidation_from_report whole_numbers "2026-01-01" 3 consolidated before
      (tt, tt) (refl, tt)
