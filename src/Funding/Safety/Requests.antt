-- ===== src/Funding/Safety/Requests.antt =====
-- The requests of submitPreparedPayout and observeUncertainPayout, with all that follows them.
use builder_code_bot.Prelude.{◌≡◌, refl, sym, ◌∙◌, subst, inl, inr, true, some}
use builder_code_bot.Funding.Model.{PayoutJournal, ActiveTarget, active_payout_target}
use builder_code_bot.Funding.Action.{crash, gets, ◌>>=◌}
use builder_code_bot.Funding.Action.Leads.{Leads-state}
use builder_code_bot.Funding.Action.Same.{Same}
use builder_code_bot.Funding.Env.{Env}
use builder_code_bot.Funding.Session.{Session, Task, current_run}
use builder_code_bot.Funding.Payout.Evidence.{Observed}
use builder_code_bot.Funding.Payout.Submit.{
  after_observation, observe_body, observe_uncertain_payout, submit_prepared_payout, replay_body,
  submit_payout_attempt, replay_fuel,
}
use builder_code_bot.Funding.Run.{dispatch_active, run_active_target, run_fuel}
use builder_code_bot.Funding.Fuel.Again.{
  IsCompleted, no_target, submit_prepared_payout-Same, observe_body-Same,
}
use builder_code_bot.Funding.Fuel.Replay.{IsSpent, observe_body-Spent}
use builder_code_bot.Funding.Safety.Quiet.{IsQuiet, quiet_rules, finish_run-IsQuiet}
use builder_code_bot.Funding.Safety.Quiet.Payout.{
  confirm_payout-IsQuiet, block_uncertain_payout-IsQuiet, observe_loop-IsQuiet,
}
use builder_code_bot.Funding.Safety.Flow.{
  journal_of-IsQuiet, token_of-IsQuiet, decimal_from_string-IsQuiet,
}
use builder_code_bot.Funding.Safety.Sent.{sent, quiet-HasSent, AtMostTwice}
use builder_code_bot.Funding.Safety.Twice.{submit_prepared_payout-Twice}

module _ (E : Env) where
  -- What runActiveTarget does once the target is completed.
  finish_only : ActiveTarget → Task E (Unit {0})
  finish_only (ActiveTarget.active _) = crash
  finish_only a = dispatch_active E crash a

  finish : Task E (Unit {0})
  finish = do run ← gets current_run; finish_only (active_payout_target run)

  finish_only-IsQuiet : (a : ActiveTarget) → IsQuiet (finish_only a)
  unfolding finish_only dispatch_active
  finish_only-IsQuiet ActiveTarget.unsupported = search quiet_rules
  finish_only-IsQuiet ActiveTarget.all_completed = search finish_run-IsQuiet
  finish_only-IsQuiet (ActiveTarget.active _) = search quiet_rules

  finish-IsQuiet : IsQuiet finish
  unfolding finish
  finish-IsQuiet = search (quiet_rules, finish_only-IsQuiet)

  finishes : Same IsCompleted (run_active_target E run_fuel) finish
  unfolding run_active_target dispatch_active finish finish_only ◌>>=◌
  finishes = record { at = λ s h. elim (no_target E s h) [ inl q ↦ rw q refl | inr q ↦ rw q refl ] }

  -- From a target whose journal holds a request, submitPreparedPayout sends nothing, or that request,
  -- or that request twice, and no other one, with all that follows a confirmation included: in every
  -- environment, whatever the exchange, the balances and the store answer.
  pub submit_prepared_payout_sends :
      (s : Session (E.Decimal)) (j : PayoutJournal)
      → s.target.payout ≡ some j
      → AtMostTwice j.prepared
          (sent s.history)
          (sent (submit_prepared_payout E (run_active_target E run_fuel) s).1.history)
  submit_prepared_payout_sends s j h =
      subst (λ x. AtMostTwice j.prepared (sent s.history) (sent x.1.history))
        (sym ((submit_prepared_payout-Same E _ _ finishes).at s tt))
        (Leads-state _
          (submit_prepared_payout-Twice E j.prepared (sent s.history) j finish refl finish-IsQuiet)
          s (record { sends = refl; holds = h }))

  after_observation-IsQuiet : (seen : Observed) → IsQuiet (after_observation E finish crash seen)
  unfolding after_observation
  after_observation-IsQuiet (Observed.confirmed evidence) =
      confirm_payout-IsQuiet E finish evidence finish-IsQuiet
  after_observation-IsQuiet (Observed.exhausted w) =
      search (quiet_rules, journal_of-IsQuiet, block_uncertain_payout-IsQuiet) depth 12

  observing-IsQuiet : IsQuiet (observe_body E finish crash)
  unfolding observe_body
  observing-IsQuiet =
      search
        (
          quiet_rules, journal_of-IsQuiet, token_of-IsQuiet, decimal_from_string-IsQuiet,
          observe_loop-IsQuiet, after_observation-IsQuiet,
        )
        depth 40

  only_observes :
      (replay : Task E (Unit {0})) (s : Session (E.Decimal))
      → IsSpent s
      → observe_body E (run_active_target E run_fuel) replay s ≡ observe_body E finish crash s
  only_observes replay s h =
      (observe_body-Same E (run_active_target E run_fuel) finish replay replay finishes
          (record { at = λ _ _. refl })).at
        s tt
      ∙ (observe_body-Spent E finish replay crash).at s h

  silent :
      (replay : Task E (Unit {0})) (s : Session (E.Decimal))
      → IsSpent s
      → sent (observe_body E (run_active_target E run_fuel) replay s).1.history ≡ sent s.history
  silent replay s h =
      subst (λ x. sent x.1.history ≡ sent s.history) (sym (only_observes replay s h))
        ((quiet-HasSent (sent s.history) (observe_body E finish crash) observing-IsQuiet).at s refl)

  -- Once both attempts are used, observing an uncertain payout, as a recovery does too, sends no
  -- request, in every environment.
  pub observe_uncertain_payout_sends :
      (s : Session (E.Decimal))
      → IsSpent s
      → sent (observe_uncertain_payout E (run_active_target E run_fuel) s).1.history
        ≡ sent s.history
  unfolding observe_uncertain_payout
  observe_uncertain_payout_sends s h =
      silent
        (replay_body E (submit_payout_attempt E replay_fuel (run_active_target E run_fuel) true)) s
        h
