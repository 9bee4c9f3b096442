-- ===== src/Funding/Consolidation/Parallel.antt =====
-- The rounds in which a goroutine for each builder makes the calls for it, and the warnings about a
-- builder: internal/funding/orchestrator.go.
use builder_code_bot.Prelude.{
  ℕ, zero, suc, Bool, true, false, ◌||◌, List, [], ◌∷◌, String, length, if◌then◌else◌,
}
use builder_code_bot.Prelude.Text.{text_eq, ◌+++◌, trim_space, lower_text}
use builder_code_bot.Prelude.Dict.{Dict}
use builder_code_bot.Funding.Action.{pure, gets, ◌>>=◌, ◌>>◌}
use builder_code_bot.Funding.Env.{AlertSeverity, Env}
use builder_code_bot.Funding.Report.{ReportStepStatus, BuilderReport}
use builder_code_bot.Funding.Report.Builders.{warn_builder, builder_action_summary}
use builder_code_bot.Funding.Session.{Task}
use builder_code_bot.Funding.Progress.{report, alert_once}

module _ {ℓ} {A : Type ℓ} where
  unfoldable pub insert_at : ℕ → A → List A → List A
  insert_at zero x l = x ∷ l
  insert_at (suc n) x [] = x ∷ []
  insert_at (suc n) x (y ∷ l) = y ∷ insert_at n x l

  -- The goroutines in the order in which their calls take place: each one may stand before, between
  -- or behind the ones that were started later, so that every order is one of these.
  unfoldable pub interleave : (ℕ → ℕ) → List A → List A
  unfolding insert_at
  interleave place [] = []
  interleave place (x ∷ l) = insert_at (place (length l)) x (interleave place l)

abbrev pub is_empty : List String → Bool
is_empty [] = true
is_empty (b ∷ bs) = false

-- The round's slot of a builder: what its goroutine sent, or the zero value of the slot.
unfoldable pub slot : {R : Type 0} → R → String → Dict R → R
slot d b [] = d
slot d b ((c, r) ∷ answers) = if text_eq c b then r else slot d b answers

-- What a failed step leaves in the builder's report.
builder_failed : String → String → BuilderReport → BuilderReport
builder_failed action summary b =
    if text_eq action "claimable" || text_eq action "claimRewards"
    then record b { claim_status = ReportStepStatus.warning; claim_summary = summary }
    else record b { sweep_status = ReportStepStatus.warning; sweep_summary = summary }

module _ (E : Env) where
  module _ {R : Type 0} where
    -- One goroutine's calls from the start to the end, then those of the next one. A panic in a
    -- goroutine ends the program.
    unfoldable pub call_all : (String → Task E R) → List String → Task E (Dict R)
    call_all f [] = pure []
    call_all f (b ∷ bs) = do r ← f b; rest ← call_all f bs; pure ((b, r) ∷ rest)

    -- A round: the goroutines of these builders, in the order of the Go scheduler.
    unfoldable pub gather : (String → Task E R) → List String → Task E (Dict R)
    unfolding interleave call_all
    gather f bs = do order ← gets (λ s. interleave (E.schedule s.history) bs); call_all f order

  unfoldable pub builder_failure : String → String → String → Task E (Unit {0})
  unfolding builder_failed
  builder_failure builder action outcome = do
    let summary = builder_action_summary action outcome
    report E (warn_builder builder (builder_failed action summary) summary)
    alert_once E ("builder_" +++ action +++ "_failed:" +++ lower_text (trim_space builder))
        AlertSeverity.warning (action +++ " action did not complete")
