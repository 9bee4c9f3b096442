-- ===== src/Funding/Safety/Tasks.antt =====
-- The write-ahead journal over whole tasks: runNew and recoverState.
use builder_code_bot.Prelude.{
  ◌≡◌, refl, sym, inl, inr, Bool, true, false, Option, none, some, List, ◌∷◌, arith, List-cases, ap,
  ◌∙◌,
}
use builder_code_bot.Funding.Model.{
  Record, Phase, Trigger, PayoutJournal, Manifest, PayoutTargetState, RunState, ActiveTarget,
}
use builder_code_bot.Funding.Action.{Failure}
use builder_code_bot.Funding.Action.Keeps.{keeps_rules, Keeps-bind, Keeps-modify}
use builder_code_bot.Funding.Action.Leads.{
  Leads, Keeps-of_Leads, Leads-gets, Leads-bind, Leads-guard, Leads-modify, Leads-of_Keeps,
  Leads-raise, Leads-weaken,
}
use builder_code_bot.Funding.Env.{Env}
use builder_code_bot.Funding.Session.{Session, Task}
use builder_code_bot.Funding.Validation.{attempts_fit, validate_target_progress}
use builder_code_bot.Funding.Run.{run_fuel}
use builder_code_bot.Funding.Fresh.{
  new_state, invalid_records, resolve_token, start_run, after_manifest, run_new,
}
use builder_code_bot.Funding.Recovery.{
  recover_confirmed, recover_blocked, recover_phase, recover_active, recover_dispatch,
  recover_state, open_run,
}
use builder_code_bot.Funding.Safety.Quiet.{
  alert_once-IsQuiet, finish_run-IsQuiet, now-IsQuiet, canonical_usdc-IsQuiet, sync_report-IsQuiet,
  save_active_phase-IsQuiet, archive-IsQuiet, list_pending-IsQuiet,
}
use builder_code_bot.Funding.Safety.Journal.{IsJournaled, KeepsJournal, quiet-KeepsJournal}
use builder_code_bot.Funding.Safety.Boundary.{IsSafe}
use builder_code_bot.Funding.Safety.Submit.{complete_database-KeepsJournal}
use builder_code_bot.Funding.Safety.Flow.{
  decimal_from_string-IsQuiet, observe_uncertain_payout-KeepsJournal,
}
use builder_code_bot.Funding.Safety.Execute.{IsReserved, submit_prepared_payout-Leads}
use builder_code_bot.Funding.Safety.Runs.{
  Keeps-option, Keeps-list, run_target-KeepsJournal, run_active_target-KeepsJournal,
}

module _ (E : Env) where
  resolve_token-KeepsJournal : (b : Bool) → KeepsJournal (resolve_token E b)
  unfolding resolve_token
  resolve_token-KeepsJournal false = search keeps_rules
  resolve_token-KeepsJournal true =
      search (keeps_rules, quiet-KeepsJournal, canonical_usdc-IsQuiet) depth 12

  start_run-KeepsJournal :
      (records : List Record) (m : Manifest) → KeepsJournal (start_run E records m)
  unfolding start_run
  start_run-KeepsJournal records m =
      search
        (
          keeps_rules, quiet-KeepsJournal, decimal_from_string-IsQuiet, resolve_token-KeepsJournal,
          sync_report-IsQuiet, save_active_phase-IsQuiet, run_active_target-KeepsJournal,
        )
        depth 30

  invalid_records-KeepsJournal : (e : Failure) → KeepsJournal (invalid_records E e)
  unfolding invalid_records
  invalid_records-KeepsJournal e =
      search (keeps_rules, quiet-KeepsJournal, archive-IsQuiet, alert_once-IsQuiet) depth 20

  after_manifest-KeepsJournal :
      (records : List Record) (x : Manifest × Option Failure)
      → KeepsJournal (after_manifest E records x)
  unfolding after_manifest
  after_manifest-KeepsJournal records (m, e) = Keeps-bind _ _ (search keeps_rules) λ _.
      Keeps-bind _ _ (search (quiet-KeepsJournal, sync_report-IsQuiet)) λ _.
        Keeps-option e _ _ (start_run-KeepsJournal records m) λ x. invalid_records-KeepsJournal x

  new_state-KeepsJournal : (t : Trigger) → KeepsJournal (new_state E t)
  unfolding new_state
  new_state-KeepsJournal t =
      Keeps-bind _ _ (record { at = λ s p. p })
        λ id. search (keeps_rules, quiet-KeepsJournal, now-IsQuiet) depth 12

  pub run_new-KeepsJournal : (t : Trigger) → KeepsJournal (run_new E t)
  unfolding run_new
  run_new-KeepsJournal t =
      Keeps-bind _ _ (search (keeps_rules, quiet-KeepsJournal, list_pending-IsQuiet) depth 12)
        λ records. Keeps-list records _ _ (search keeps_rules) λ r rs.
          Keeps-bind _ _ (new_state-KeepsJournal t) λ _. after_manifest-KeepsJournal (r ∷ rs) _

  -- A target in the prepared phase that passes the validation has reserved one attempt.
  reserved :
      (t : PayoutTargetState) (run : RunState) (j : PayoutJournal)
      → t.phase ≡ Phase.payout_prepared
      → validate_target_progress E run t ≡ none
      → t.payout ≡ some j
      → j.submit_attempts ≡ 1
  unfolding validate_target_progress attempts_fit
  reserved t run j phase fits p = ground arith

-- The target that was read passes the validation of the persisted progress.
record IsFit {A : Type 0} (E : Env) (t : PayoutTargetState) (run : RunState) (s : Session A)
    : Type 0 where
  safe : IsJournaled s.history
  fits : validate_target_progress E run t ≡ none
  same : s.target ≡ t

fit-IsReserved :
    {A : Type 0} (E : Env) (t : PayoutTargetState) (run : RunState) (s : Session A)
    → t.phase ≡ Phase.payout_prepared
    → IsFit E t run s
    → IsReserved s
fit-IsReserved E t run s phase h = record {
  safe = h.safe;
  attempted = λ j q. reserved E t run j phase (h.fits) (sym (ap (λ u. u.payout) h.same) ∙ q);
}

module _ (E : Env) where
  recover_confirmed-KeepsJournal : KeepsJournal (recover_confirmed E)
  unfolding recover_confirmed
  recover_confirmed-KeepsJournal =
      search (keeps_rules, complete_database-KeepsJournal, run_active_target-KeepsJournal) depth 20

  recover_blocked-KeepsJournal : KeepsJournal (recover_blocked E)
  unfolding recover_blocked
  recover_blocked-KeepsJournal = search keeps_rules depth 20

  kept :
      (t : PayoutTargetState) (run : RunState) (m : Task E (Unit {0}))
      → KeepsJournal m
      → Leads (IsFit E t run) m IsSafe IsSafe
  kept t run m k = Leads-of_Keeps m (λ s h. h.safe) k

  recover_phase-Leads :
      (t : PayoutTargetState) (run : RunState) (phase : Phase) (backup : Bool)
      → t.phase ≡ phase
      → Leads (IsFit E t run) (recover_phase E phase backup) IsSafe IsSafe
  unfolding recover_phase
  recover_phase-Leads t run Phase.prepared backup e =
      kept t run _ (run_target-KeepsJournal E _ (run_active_target-KeepsJournal E run_fuel))
  recover_phase-Leads t run Phase.payout_prepared true e =
      kept t run _
        (observe_uncertain_payout-KeepsJournal E _ (run_active_target-KeepsJournal E run_fuel))
  recover_phase-Leads t run Phase.payout_prepared false e =
      Leads-weaken _ (λ s h. fit-IsReserved E t run s e h)
        (submit_prepared_payout-Leads E _ (run_active_target-KeepsJournal E run_fuel))
  recover_phase-Leads t run Phase.payout_submitting backup e =
      kept t run _
        (observe_uncertain_payout-KeepsJournal E _ (run_active_target-KeepsJournal E run_fuel))
  recover_phase-Leads t run Phase.payout_replaying backup e =
      kept t run _
        (observe_uncertain_payout-KeepsJournal E _ (run_active_target-KeepsJournal E run_fuel))
  recover_phase-Leads t run Phase.payout_confirmed backup e =
      kept t run _ recover_confirmed-KeepsJournal
  recover_phase-Leads t run Phase.blocked backup e = kept t run _ recover_blocked-KeepsJournal
  recover_phase-Leads t run Phase.completed backup e = kept t run _ (search keeps_rules)
  recover_phase-Leads t run (Phase.other p) backup e = kept t run _ (search keeps_rules)

  recover_active-KeepsJournal : (backup : Bool) → KeepsJournal (recover_active E backup)
  unfolding recover_active
  recover_active-KeepsJournal backup = Keeps-of_Leads _ (
      Leads-gets _ _ λ t. Leads-gets _ _ λ run.
        Leads-bind {Q = IsFit E t run} _ _
          (Leads-guard _ _ (λ s v p. record { safe = p.0.0; fits = v; same = p.0.1 })
            λ x. Leads-raise _ λ s p. p.0.0)
          λ _.
            Leads-bind {Q = IsFit E t run} _ _
              (Leads-modify _ λ s p. record { safe = p.safe; fits = p.fits; same = p.same })
              λ _. recover_phase-Leads t run t.phase backup refl)

  recover_dispatch-KeepsJournal :
      (backup : Bool) (a : ActiveTarget) → KeepsJournal (recover_dispatch E backup a)
  unfolding recover_dispatch
  recover_dispatch-KeepsJournal backup ActiveTarget.unsupported = search keeps_rules
  recover_dispatch-KeepsJournal backup ActiveTarget.all_completed =
      search (quiet-KeepsJournal, finish_run-IsQuiet)
  recover_dispatch-KeepsJournal backup (ActiveTarget.active t) = recover_active-KeepsJournal backup

  opened :
      (run : RunState) (s : Session (E.Decimal))
      → IsJournaled s.history
      → IsJournaled (open_run run s).history
  opened run s h = elim (List-cases run.targets) [ inl q ↦ rw q h | inr (t, rest, q) ↦ rw q h ]

  pub recover_state-KeepsJournal :
      (run : RunState) (backup : Bool) → KeepsJournal (recover_state E run backup)
  unfolding recover_state
  recover_state-KeepsJournal run backup =
      Keeps-bind _ _ (Keeps-modify _ (opened run)) λ _. recover_dispatch-KeepsJournal backup _
