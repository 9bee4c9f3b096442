-- ===== src/Funding/Safety/Execute.antt =====
-- The write-ahead journal from the first attempt's preparation on: executePayout,
-- submitPreparedPayout, runPositive and runActiveTarget.
use builder_code_bot.Prelude.{
  suc, ◌≡◌, refl, false, none, some, List, Option-cases, inl, inr, ap, ◌∙◌,
}
use builder_code_bot.Funding.Model.{
  Phase, PreparedAction, SpotBalanceAmounts, PayoutJournal, PayoutTargetState, RunState,
}
use builder_code_bot.Funding.Action.Keeps.{keeps_rules, Keeps-bind}
use builder_code_bot.Funding.Action.Leads.{
  Leads, Leads-on_error, Leads-bind, Leads-modify, Leads-gets, Leads-guard, Keeps-of_Leads,
  Leads-weaken, Leads-map,
}
use builder_code_bot.Funding.Env.{Env}
use builder_code_bot.Funding.Session.{Session, Task}
use builder_code_bot.Funding.Progress.{sync_report, save_active_phase}
use builder_code_bot.Funding.Payout.Submit.{replay_fuel, submit_prepared_payout, execute_payout}
use builder_code_bot.Funding.Validation.{validate_payout_journal}
use builder_code_bot.Funding.Safety.Quiet.{
  next_nonce-IsQuiet, prepare_spot_send-IsQuiet, alert_once-IsQuiet,
}
use builder_code_bot.Funding.Safety.Journal.{
  IsJournaled, KeepsJournal, quiet-KeepsJournal, IsReady, stored,
}
use builder_code_bot.Funding.Safety.Boundary.{IsSafe, IsStored, save_active_phase-Leads}
use builder_code_bot.Funding.Safety.Replay.{
  IsDue, pending, Leads-failed, save_submitting-Leads, sync_report-Leads,
}
use builder_code_bot.Funding.Safety.Flow.{submit_payout_attempt-Leads, token_of-IsQuiet}

-- A journal that is there has its first attempt reserved.
pub record IsReserved {A : Type 0} (s : Session A) : Type 0 where
  pub safe : IsJournaled s.history
  pub attempted : (j : PayoutJournal) → s.target.payout ≡ some j → j.submit_attempts ≡ 1

reserve : {A : Type 0} (s : Session A) → IsDue 1 s → IsReserved s
reserve s d = record { safe = d.safe; attempted = λ j q. cc }

module _ (E : Env) where
  IsDue-stored :
      (q : PreparedAction) (runs : List RunState) (s : Session (E.Decimal))
      → IsStored 1 q Phase.payout_prepared runs s
      → IsDue 1 s
  IsDue-stored q runs s h = record {
    journal = h.kept.journal;
    journaled = h.kept.journaled;
    attempted = h.kept.attempted;
    safe = h.safe;
  }

  -- The prepared boundary leaves the first attempt due.
  save_prepared-Leads : Leads (IsDue 1) (save_active_phase E Phase.payout_prepared) (IsDue 1) IsSafe
  save_prepared-Leads = record {
    at = λ s d.
        (Leads-map _ (IsDue-stored d.journal.prepared (stored s.history)) (
            save_active_phase-Leads E 1 d.journal.prepared Phase.payout_prepared
              (stored s.history))).at
          s (pending 1 Phase.payout_prepared s d);
  }

  journal-IsDue :
      (t : PayoutTargetState) (s : Session (E.Decimal))
      → validate_payout_journal E t ≡ none
      → IsReserved s
      → s.target ≡ t
      → IsDue 1 s
  unfolding validate_payout_journal
  journal-IsDue t s valid h same = elim (Option-cases t.payout) [
    | inl q ↦ cc
    | inr (j, q) ↦ record {
      journal = j;
      journaled = ap (λ u. u.payout) same ∙ q;
      attempted = h.attempted j (ap (λ u. u.payout) same ∙ q);
      safe = h.safe;
    }
  ]

  pub submit_prepared_payout-Leads :
      (again : Task E (Unit {0}))
      → KeepsJournal again
      → Leads IsReserved (submit_prepared_payout E again) IsSafe IsSafe
  unfolding submit_prepared_payout
  submit_prepared_payout-Leads again ka = Leads-gets _ _ λ t. Leads-gets _ _ λ run.
      Leads-bind {Q = λ s. IsReserved s × (s.target ≡ t)} _ _
        (Leads-guard _ _ (λ s _ p. p.0) λ x. Leads-failed E _ _ λ s p. p.0.0.safe)
        λ _.
          Leads-bind {Q = IsDue 1} _ _
            (Leads-guard _ _ (λ s v p. journal-IsDue t s v p.0 p.1)
              λ x. Leads-failed E _ _ λ s p. p.0.safe)
            λ _.
              Leads-bind {Q = IsReady} _ _
                (Leads-on_error _ _ (save_submitting-Leads E) λ x. Leads-failed E _ _ λ s p. p)
                λ _.
                  Leads-bind {Q = IsReady} _ _ (sync_report-Leads E)
                    λ _. submit_payout_attempt-Leads E (suc replay_fuel) again false ka

  sync-IsDue-Leads : Leads (IsDue 1) (sync_report E) (IsDue 1) IsSafe
  unfolding sync_report
  sync-IsDue-Leads = Leads-modify _ λ s p. record {
    journal = p.journal;
    journaled = p.journaled;
    attempted = p.attempted;
    safe = p.safe;
  }

  pub execute_payout-KeepsJournal :
      (again : Task E (Unit {0})) (before : SpotBalanceAmounts (E.Decimal)) (amount : E.Decimal)
      → KeepsJournal again
      → KeepsJournal (execute_payout E again before amount)
  unfolding execute_payout
  execute_payout-KeepsJournal again before amount ka = Keeps-bind _ _ (search keeps_rules) λ t.
      Keeps-bind _ _ (search keeps_rules) λ _.
        Keeps-bind _ _ (search (quiet-KeepsJournal, token_of-IsQuiet)) λ token.
          Keeps-bind _ _ (search (quiet-KeepsJournal, next_nonce-IsQuiet)) λ nonce.
            Keeps-bind _ _
              (search
                (keeps_rules, quiet-KeepsJournal, prepare_spot_send-IsQuiet, alert_once-IsQuiet)
                depth 12)
              λ prepared. Keeps-bind _ _ (search keeps_rules depth 12) λ _.
                Keeps-bind _ _ (search keeps_rules) λ _. Keeps-of_Leads _ (
                  Leads-bind {Q = IsDue 1} _ _
                    (Leads-modify _ λ s p. record {
                      journal = record {
                        prepared = prepared;
                        total_before = E.to_string before.total;
                        submit_attempts = 1;
                      };
                      journaled = refl;
                      attempted = refl;
                      safe = p;
                    })
                    λ _.
                      Leads-bind {Q = IsDue 1} _ _
                        (Leads-on_error _ _ save_prepared-Leads λ x. Leads-failed E _ _ λ s p. p)
                        λ _.
                          Leads-bind {Q = IsDue 1} _ _ sync-IsDue-Leads
                            λ _. Leads-weaken _ reserve (submit_prepared_payout-Leads again ka))
