-- ===== src/Funding/Daily/Validate.antt =====
-- DailyConsolidation.Validate of internal/funding/daily_consolidation.go.
use builder_code_bot.Prelude.{
  ℕ, Bool, true, false, ◌&&◌, ◌||◌, not, Option, none, some, List, [], ◌∷◌, String, ◌==◌,
  if◌then◌else◌,
}
use builder_code_bot.Prelude.Int.{ℤ, pos, negsuc}
use builder_code_bot.Prelude.Text.{codes_eq, address_key, is_blank}
use builder_code_bot.Decimal.{Decimals}
use builder_code_bot.Funding.Report.{ReportStepStatus, DailyConsolidationStatus}
use builder_code_bot.Funding.Daily.{DailyConsolidation, DailyConsolidationBuilder}

-- The errors of the checks, in the code's order.
pub data DailyError : Type 0 where
  invalid_date times_required completion_time invalid_status builders_required : DailyError
  address_required duplicate_address attempts_required invalid_claimable : DailyError
  amount_unobserved invalid_claim_attempts invalid_sweep invalid_step uncertain_step : DailyError

unfoldable pub valid_daily_step : ReportStepStatus → Bool → Bool
valid_daily_step ReportStepStatus.pending allow_pending = allow_pending
valid_daily_step ReportStepStatus.success allow_pending = true
valid_daily_step ReportStepStatus.warning allow_pending = true
valid_daily_step ReportStepStatus.skipped allow_pending = true
valid_daily_step ReportStepStatus.failed allow_pending = false
valid_daily_step (ReportStepStatus.unknown _) allow_pending = false

-- The error of the first check that fails, if one does.
abbrev pub first_error : List (Option DailyError) → Option DailyError
first_error [] = none
first_error (none ∷ checks) = first_error checks
first_error (some e ∷ checks) = some e

abbrev pub require : Bool → DailyError → Option DailyError
require true e = none
require false e = some e

abbrev pub is_warning : ReportStepStatus → Bool
is_warning ReportStepStatus.warning = true
is_warning _ = false

abbrev pub is_positive : ℤ → Bool
is_positive (pos n) = not (n == 0)
is_positive (negsuc n) = false

abbrev pub is_nonnegative : ℤ → Bool
is_nonnegative (pos n) = true
is_nonnegative (negsuc n) = false

abbrev pub holds_address : List ℕ → List (List ℕ) → Bool
holds_address k [] = false
holds_address k (j ∷ keys) = codes_eq j k || holds_address k keys

abbrev pub is_empty : List DailyConsolidationBuilder → Bool
is_empty [] = true
is_empty (b ∷ bs) = false

abbrev pub is_captured : DailyConsolidationStatus → Bool
is_captured DailyConsolidationStatus.claimables_captured = true
is_captured _ = false

module _ (D : Decimals) (is_date : String → Bool) where
  unfoldable pub valid_optional_amount : String → Bool
  valid_optional_amount value =
      if is_blank value
      then true
      else (elim (D.from_string value) [ none ↦ false | some x ↦ not (D.is_negative x) ])

  unfoldable pub valid_required_amount : String → Bool
  unfolding valid_optional_amount
  valid_required_amount value = if is_blank value then false else valid_optional_amount value

  abbrev pub builder_checks :
      Bool → List (List ℕ) → DailyConsolidationBuilder → List (Option DailyError)
  builder_checks captured seen b =
      require (not (codes_eq (address_key b.address) [])) DailyError.address_required
      ∷ require (not (holds_address (address_key b.address) seen)) DailyError.duplicate_address
      ∷ require (is_positive b.claimable_query_attempts) DailyError.attempts_required
      ∷ (if b.claimable_observed
          then require (valid_required_amount b.claimable_usdc) DailyError.invalid_claimable
          else require (is_blank b.claimable_usdc) DailyError.amount_unobserved)
      ∷ require (is_nonnegative b.claim_attempts) DailyError.invalid_claim_attempts
      ∷ require (valid_optional_amount b.sweep_amount) DailyError.invalid_sweep
      ∷ require
          (valid_daily_step b.claim_status captured && valid_daily_step b.sweep_status captured)
          DailyError.invalid_step
      ∷ require (not (b.claim_uncertain && not (is_warning b.claim_status)))
          DailyError.uncertain_step
      ∷ []

  unfoldable pub validate_builder :
      Bool → List (List ℕ) → DailyConsolidationBuilder → Option DailyError
  unfolding valid_required_amount valid_daily_step
  validate_builder captured seen b = first_error (builder_checks captured seen b)

  -- `seen` holds the keys of the builders before.
  unfoldable pub validate_builders :
      Bool → List (List ℕ) → List DailyConsolidationBuilder → Option DailyError
  unfolding validate_builder
  validate_builders captured seen [] = none
  validate_builders captured seen (b ∷ rest) = first_error (
      validate_builder captured seen b
      ∷ validate_builders captured (address_key b.address ∷ seen) rest
      ∷ [])

  -- The completion time is zero exactly before the completion.
  unfoldable pub validate_status : DailyConsolidationStatus → ℕ → Option DailyError
  validate_status DailyConsolidationStatus.claimables_captured completed_at =
      require (completed_at == 0) DailyError.completion_time
  validate_status DailyConsolidationStatus.completed completed_at =
      require (not (completed_at == 0)) DailyError.completion_time
  validate_status (DailyConsolidationStatus.unknown _) completed_at = some DailyError.invalid_status

  unfoldable pub validate : DailyConsolidation → Option DailyError
  unfolding validate_status validate_builders
  validate c = first_error (
      require (is_date c.utc_date) DailyError.invalid_date
      ∷ require (not (c.started_at == 0 || c.claimables_captured_at == 0)) DailyError.times_required
      ∷ validate_status c.status c.completed_at
      ∷ require (not (is_empty c.builders)) DailyError.builders_required
      ∷ validate_builders (is_captured c.status) [] c.builders
      ∷ [])
