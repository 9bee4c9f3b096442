-- ===== src/Funding/Report/Aggregate.antt =====
-- aggregateBuilderStep of internal/funding/report.go, compared with a description of the aggregate.
use builder_code_bot.Prelude.{
  ℕ, suc, ◌≤◌, ◌≡◌, refl, Bool, true, false, ◌&&◌, ◌||◌, List, [], ◌∷◌, length, ltb, ◌==◌, arith,
  if◌then◌else◌,
}
use builder_code_bot.Funding.Report.{ReportStepStatus, BuilderReport}
use builder_code_bot.Funding.Report.Builders.{
  StepCounts, step_status, count_step, count_steps, aggregate_builder_step,
}

abbrev pub is_alarming : ReportStepStatus → Bool
is_alarming ReportStepStatus.failed = true
is_alarming ReportStepStatus.warning = true
is_alarming _ = false

abbrev pub is_success : ReportStepStatus → Bool
is_success ReportStepStatus.success = true
is_success _ = false

abbrev pub is_skipped : ReportStepStatus → Bool
is_skipped ReportStepStatus.skipped = true
is_skipped _ = false

module _ {A : Type 0} where
  abbrev pub any : (A → Bool) → List A → Bool
  any p [] = false
  any p (x ∷ l) = p x || any p l

  abbrev pub all : (A → Bool) → List A → Bool
  all p [] = true
  all p (x ∷ l) = p x && all p l

-- A warning if a step has failed or has one, else success if a step has succeeded, else skipped if
-- all were skipped.
pub described : List BuilderReport → Bool → ReportStepStatus
described l claim =
    if any (λ b. is_alarming (step_status claim b)) l
    then ReportStepStatus.warning
    else if any (λ b. is_success (step_status claim b)) l
    then ReportStepStatus.success
    else if all (λ b. is_skipped (step_status claim b)) l
    then ReportStepStatus.skipped
    else ReportStepStatus.pending

alarming :
    (s : ReportStepStatus) (c : StepCounts)
    → ltb 0 (count_step s c).warning ≡ (is_alarming s || ltb 0 c.warning)
alarming ReportStepStatus.failed c = ground arith
alarming ReportStepStatus.warning c = ground arith
alarming s c = refl

succeeded :
    (s : ReportStepStatus) (c : StepCounts)
    → ltb 0 (count_step s c).success ≡ (is_success s || ltb 0 c.success)
succeeded ReportStepStatus.success c = ground arith
succeeded s c = refl

skipped :
    (s : ReportStepStatus) (c : StepCounts) (n : ℕ)
    → c.skipped ≤ n
    → ((count_step s c).skipped ≤ suc n)
      × (((count_step s c).skipped == suc n) ≡ (is_skipped s && (c.skipped == n)))
skipped ReportStepStatus.skipped c n h = (omega arith, ground arith)
skipped s c n h = (omega arith, ground arith)

module _ (claim : Bool) where
  any_alarming :
      (l : List BuilderReport)
      → ltb 0 (count_steps l claim).warning ≡ any (λ b. is_alarming (step_status claim b)) l
  unfolding count_steps
  any_alarming [] = refl
  any_alarming (b ∷ l) =
      rw (alarming (step_status claim b) (count_steps l claim), any_alarming l) refl

  any_success :
      (l : List BuilderReport)
      → ltb 0 (count_steps l claim).success ≡ any (λ b. is_success (step_status claim b)) l
  unfolding count_steps
  any_success [] = refl
  any_success (b ∷ l) =
      rw (succeeded (step_status claim b) (count_steps l claim), any_success l) refl

  all_skipped :
      (l : List BuilderReport)
      → ((count_steps l claim).skipped ≤ length l)
        × (((count_steps l claim).skipped == length l)
            ≡ all (λ b. is_skipped (step_status claim b)) l)
  unfolding count_steps
  all_skipped [] = (omega arith, refl)
  all_skipped (b ∷ l) =
      let (h, q) = all_skipped l in
      let (k, p) = skipped (step_status claim b) (count_steps l claim) (length l) h in
      (k, rw (p, q) refl)

-- The aggregate of the counters is the described one: a warning if a builder's step has failed or has a
-- warning, else success if one has succeeded, else skipped if all were skipped, else pending.
pub aggregate_builder_step_lem :
    (l : List BuilderReport) (claim : Bool) → aggregate_builder_step l claim ≡ described l claim
unfolding aggregate_builder_step described
aggregate_builder_step_lem l claim =
    rw (any_alarming claim l, any_success claim l, (all_skipped claim l).1) refl
