-- ===== src/Tests/Consolidation.antt =====
-- Concrete consolidations, with a store that remembers what it has accepted.
use builder_code_bot.Prelude.{
  ℕ, ap, sym, List, ◌≡◌, refl, ◌≤◌, ◌+◌, ◌*◌, ◌⊎◌, Bool, true, false, Option, none, some, [], ◌∷◌,
  String, if◌then◌else◌,
}
use text.Mathlib.TextPositions.{eq_refl}
use builder_code_bot.Prelude.Int.{ℤ, pos}
use builder_code_bot.Prelude.Text.{text_eq, address_key}
use builder_code_bot.Funding.Model.{PreparedAction, Trigger, Phase, SpotBalanceAmounts}
use builder_code_bot.Funding.Action.{Result, ok, err, panic}
use builder_code_bot.Funding.Env.{Effect, History, Env}
use builder_code_bot.Funding.Daily.{DailyConsolidation}
use builder_code_bot.Funding.Report.{ReportExecution}
use builder_code_bot.Funding.Safety.Journal.{IsJournaled}
use builder_code_bot.Funding.Safety.Whole.{run-IsJournaled, recover-IsJournaled}
use builder_code_bot.Funding.Tasks.{run, recover}
use builder_code_bot.Funding.Consolidation.Costs.{same, submissions, requests}
use builder_code_bot.Funding.Consolidation.Ahead.{
  Ahead, IsStored, here, later, run_daily_consolidation-IsAhead, run_daily_consolidation-Once,
}
use builder_code_bot.Funding.Consolidation.Bound.{
  SignsFor, signed_by, occurrences, run_consolidate_only-submissions,
}
use builder_code_bot.Funding.Consolidation.Run.{run_consolidate_only}
use builder_code_bot.Funding.Consolidation.Daily.{run_daily_consolidation}
use builder_code_bot.Funding.Report.{ReportStepStatus, BuilderReport}
use builder_code_bot.Funding.Report.Builders.{new_builder, aggregate_builder_step}
use builder_code_bot.Funding.Report.Aggregate.{described, aggregate_builder_step_lem}
use builder_code_bot.Funding.Run.{same_spot_balance}
use builder_code_bot.Funding.Consolidation.Sweep.{load_sweep_balance, below_minimum}
use builder_code_bot.Prelude.Dict.{Dict, put}
use builder_code_bot.Funding.Consolidation.Settled.{load_sweep_balance_returns}
use builder_code_bot.Tests.World.{usdc, request, world, start, run_at}

recall : History ℤ → String → Result (Option DailyConsolidation)
recall [] date = ok none
recall (Effect.saved_daily c none ∷ h) date =
    let rest = recall h date in if text_eq c.utc_date date then ok (some c) else rest
recall (e ∷ h) date = recall h date

abbrev remembering : Env
remembering = record world { load_daily = recall }

kept :
    (b : Bool) (c : DailyConsolidation) (rest : Result (Option DailyConsolidation))
    → ¬ (rest ≡ ok none)
    → ¬ ((if b then ok (some c) else rest) ≡ ok none)
kept true c rest q = λ x. cc
kept false c rest q = q

absent :
    (b : Bool) (c : DailyConsolidation) (rest : Result (Option DailyConsolidation))
    → b ≡ true
    → ¬ ((if b then ok (some c) else rest) ≡ ok none)
absent true c rest q = λ x. cc
absent false c rest q = λ x. cc

recalls : (date : String) (h : History ℤ) → IsStored date h → ¬ (recall h date ≡ ok none)
unfolding recall
recalls date _ (here c h p q) x = absent (text_eq c.utc_date date) c _ (rw p (eq_refl date)) x
recalls date _ (later (Effect.saved_daily c none) {h = h} i) x =
    kept (text_eq c.utc_date date) c _ (recalls date h i) x
recalls date _ (later e {h = h} i) x = recalls date h i x

abbrev execution : ReportExecution
execution = record { attempt = 1; max_attempts = 5; recovery = false }

run-IsJournaled_example : IsJournaled (run world Trigger.utc_payout execution start).1.history
run-IsJournaled_example = run-IsJournaled world start Trigger.utc_payout execution tt

-- A run was stored before its request was sent.
abbrev interrupted : Env
interrupted = record world {
  load_current = λ _. record {
    current = some (run_at Phase.payout_prepared 1);
    recovered_from_backup = false;
    error = none;
  };
}

recover-IsJournaled_example : IsJournaled (recover interrupted start).1.history
recover-IsJournaled_example = recover-IsJournaled interrupted start tt

run_daily_consolidation-IsAhead_example :
    Ahead "2026-01-01" [] (run_daily_consolidation world start).1.history
run_daily_consolidation-IsAhead_example = run_daily_consolidation-IsAhead world start

-- What is prepared for an account is signed by it, and every builder has something to claim.
abbrev signing : Env
signing = record world {
  claimable_usdc = λ _ _ _. ok (pos 5);
  prepare_claim = λ _ b n. ok (record request { signer = b; nonce = n });
  prepare_spot_send = λ _ b to token amount n. ok (record request { signer = b; nonce = n });
}

signer_of :
    (b : String) (n : ℕ) (a : PreparedAction)
    → ok (record request { signer = b; nonce = n }) ≡ ok a
    → address_key a.signer ≡ address_key b
signer_of b n a q = sym (ap (λ r. address_key (of_result b r)) q)
  where
    of_result : String → Result PreparedAction → String
    of_result b (ok a) = a.signer
    of_result b (err e) = b
    of_result b panic = b

signing-SignsFor : SignsFor signing
signing-SignsFor = record {
  claims = λ h b n a q. signer_of b n a q;
  sends = λ h b to token amount n a q. signer_of b n a q;
}

run_consolidate_only-submissions_example :
    let p = signed_by "0xc" in
    let n = occurrences "0xc" signing.builders in
    ((requests p (run_consolidate_only signing start).1.history ≤ 4 * n + requests p start.history)
      × (requests p (run_daily_consolidation signing start).1.history
          ≤ 4 * n + requests p start.history))
    × ((submissions (run_consolidate_only signing start).1.history
          ≤ 4 * 2 + submissions start.history)
        × (submissions (run_daily_consolidation signing start).1.history
            ≤ 4 * 2 + submissions start.history))
run_consolidate_only-submissions_example =
    run_consolidate_only-submissions signing start "0xc" signing-SignsFor

run_daily_consolidation-Once_example :
    (submissions (run_daily_consolidation remembering start).1.history ≡ submissions start.history)
    ⊎ (submissions
          (run_daily_consolidation remembering
            (run_daily_consolidation remembering start).1).1.history
        ≡ submissions (run_daily_consolidation remembering start).1.history)
run_daily_consolidation-Once_example =
    run_daily_consolidation-Once remembering start (run_daily_consolidation remembering start).1
      refl recalls same

-- The observation of the builder's claim has ended with 10.
abbrev observed : Dict (SpotBalanceAmounts ℤ)
observed = put "0xc" (record { total = pos 10; available = pos 10 }) []

load_sweep_balance_returns_example :
    (load_sweep_balance world usdc "0xc" (some (pos 10)) 5 none none start).0
    ≡ ok (record { total = pos 20; available = pos 20 })
unfolding same_spot_balance below_minimum
load_sweep_balance_returns_example =
    load_sweep_balance_returns world usdc "0xc" (some (pos 10)) 3
      (record { total = pos 20; available = pos 20 }) start (λ h. refl) (λ h ms. refl) refl refl

-- One builder's claim is skipped and another one's has a warning.
abbrev reported : List BuilderReport
reported =
    record (new_builder (λ _. "") "0xc") { claim_status = ReportStepStatus.skipped }
    ∷ record (new_builder (λ _. "") "0xd") { claim_status = ReportStepStatus.warning }
    ∷ []

aggregate_builder_step_lem_example : aggregate_builder_step reported true ≡ described reported true
aggregate_builder_step_lem_example = aggregate_builder_step_lem reported true
