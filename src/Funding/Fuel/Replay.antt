-- ===== src/Funding/Fuel/Replay.antt =====
-- The chain of submitPayoutAttempt, observeUncertainPayout and replayPreparedPayout.
use builder_code_bot.Prelude.{
  ℕ, zero, suc, ◌≡◌, refl, Bool, true, false, Option, none, some, String, Option-cases, inl, inr,
  arith,
}
use builder_code_bot.Funding.Model.{
  Phase, Token, SpotBalanceAmounts, PreparedAction, PayoutJournal, PayoutTargetState, RunState,
  SubmitResult, ActiveTarget,
}
use builder_code_bot.Funding.Action.{Failure, Result, ok, err, panic, ◌>>=◌}
use builder_code_bot.Funding.Action.Keeps.{Keeps, keeps_rules, Keeps-bind, Keeps-modify}
use builder_code_bot.Funding.Action.Leads.{Leads-modify}
use builder_code_bot.Funding.Action.Same.{
  Same, Any, Same-bind, Same-then, Same-Keeps, Same-refl, Same-if,
}
use builder_code_bot.Funding.Env.{Env}
use builder_code_bot.Funding.Report.{RunReport}
use builder_code_bot.Funding.Session.{
  Session, Task, write_report, now, save, sleep, spot_balance, check_context, submit,
}
use builder_code_bot.Funding.Progress.{
  report, sync_report, save_state, save_phase, save_active_phase,
}
use builder_code_bot.Funding.Payout.Evidence.{Watch, Observed, after_query, query, observe_loop}
use builder_code_bot.Funding.Payout.Settle.{save_twice}
use builder_code_bot.Funding.Payout.Submit.{
  replay_fuel, set_attempts, allow_exact_replay, settle_attempt, attempt_body, after_observation,
  observe_body, replay_body, submit_payout_attempt, decimal_from_string, journal_of, token_of,
}
use builder_code_bot.Funding.Safety.Runs.{Keeps-option}
use builder_code_bot.Funding.Fuel.Again.{attempt_body-Same, observe_body-Same}

-- Both attempts are used.
pub record IsSpent {A : Type 0} (s : Session A) : Type 0 where
  pub at : (j : PayoutJournal) → s.target.payout ≡ some j → j.submit_attempts ≡ 2

module _ (E : Env) where
  now-IsSpent : Keeps IsSpent (now E)
  unfolding now
  now-IsSpent = record { at = λ s h. record { at = h.at } }

  save-IsSpent : (run : RunState) → Keeps IsSpent (save E run)
  unfolding save
  save-IsSpent run = record { at = λ s h. record { at = h.at } }

  sleep-IsSpent : (ms : ℕ) → Keeps IsSpent (sleep E ms)
  unfolding sleep
  sleep-IsSpent ms = record { at = λ s h. record { at = h.at } }

  spot_balance-IsSpent : (a : String) (t : Token) → Keeps IsSpent (spot_balance E a t)
  unfolding spot_balance
  spot_balance-IsSpent a t = record { at = λ s h. record { at = h.at } }

  check_context-IsSpent : Keeps IsSpent (check_context E)
  unfolding check_context
  check_context-IsSpent = record { at = λ s h. h }

  submit-IsSpent : (p : PreparedAction) → Keeps IsSpent (submit E p)
  unfolding submit
  submit-IsSpent p = record { at = λ s h. record { at = h.at } }

  report-IsSpent : (f : RunReport → RunReport) → Keeps IsSpent (report E f)
  report-IsSpent f = Keeps-modify _ λ s h. record { at = h.at }

  sync_report-IsSpent : Keeps IsSpent (sync_report E)
  unfolding sync_report
  sync_report-IsSpent = Keeps-modify _ λ s h. record { at = h.at }

  save_state-IsSpent : Keeps IsSpent (save_state E)
  unfolding save_state
  save_state-IsSpent = Keeps-bind _ _ now-IsSpent λ t.
      Keeps-bind _ _ (Keeps-modify _ λ s h. record { at = h.at })
        λ _. search (keeps_rules, save-IsSpent)

  save_phase-IsSpent : (phase : Phase) (a : ActiveTarget) → Keeps IsSpent (save_phase E phase a)
  unfolding save_phase
  save_phase-IsSpent phase ActiveTarget.unsupported = search keeps_rules
  save_phase-IsSpent phase ActiveTarget.all_completed = search keeps_rules
  save_phase-IsSpent phase (ActiveTarget.active _) =
      Keeps-bind _ _ (Keeps-modify _ λ s h. record { at = h.at }) λ _. save_state-IsSpent

  save_active_phase-IsSpent : (phase : Phase) → Keeps IsSpent (save_active_phase E phase)
  unfolding save_active_phase
  save_active_phase-IsSpent phase = search (keeps_rules, save_phase-IsSpent)

  after_query-IsSpent :
      (settlement : String) (token : Token) (before amount : E.Decimal)
      (r : Result (SpotBalanceAmounts (E.Decimal))) (w : Watch)
      → Keeps IsSpent (after_query E settlement token before amount r w)
  unfolding after_query
  after_query-IsSpent settlement token before amount (ok b) w = search keeps_rules
  after_query-IsSpent settlement token before amount (err e) w =
      search (keeps_rules, check_context-IsSpent)
  after_query-IsSpent settlement token before amount panic w = search keeps_rules

  query-IsSpent :
      (settlement : String) (token : Token) (before amount : E.Decimal) (w : Watch)
      → Keeps IsSpent (query E settlement token before amount w)
  unfolding query
  query-IsSpent settlement token before amount w =
      search (keeps_rules, after_query-IsSpent, spot_balance-IsSpent)

  observe_loop-IsSpent :
      (settlement : String) (token : Token) (before amount : E.Decimal) (left : ℕ) (w : Watch)
      → Keeps IsSpent (observe_loop E settlement token before amount left w)
  unfolding observe_loop
  observe_loop-IsSpent settlement token before amount zero w = search keeps_rules
  observe_loop-IsSpent settlement token before amount (suc left) w =
      search
        (
          keeps_rules,
          query-IsSpent settlement token before amount,
          sleep-IsSpent,
          observe_loop-IsSpent settlement token before amount left,
        )
        depth 10

  no_second_replay : (phase : Phase) (n : ℕ) → n ≡ 2 → allow_exact_replay phase n ≡ false
  unfolding allow_exact_replay
  no_second_replay phase n h = ground (arith, h)

  after_observation-Spent :
      (again replay repeat : Task E (Unit {0})) (seen : Observed)
      → Same IsSpent (after_observation E again replay seen) (after_observation E again repeat seen)
  unfolding after_observation ◌>>=◌ journal_of
  after_observation-Spent again replay repeat (Observed.confirmed evidence) = Same-refl _
  after_observation-Spent again replay repeat (Observed.exhausted w) = record {
    at = λ s h. elim (Option-cases s.target.payout) [
      | inl q ↦ rw q refl
      | inr (j, q) ↦ rw (q, no_second_replay s.target.phase j.submit_attempts (h.at j q)) refl
    ];
  }

  write_report-IsSpent :
      (f : RunReport → RunReport) (s : Session (E.Decimal)) → IsSpent s → IsSpent (write_report f s)
  write_report-IsSpent f s h = record { at = h.at }

  decimal_from_string-IsSpent : (text : String) → Keeps IsSpent (decimal_from_string E text)
  unfolding decimal_from_string
  decimal_from_string-IsSpent text =
      Keeps-option (E.from_string text) _ _ (search keeps_rules) λ a. search keeps_rules

  journal_of-IsSpent : (t : PayoutTargetState) → Keeps IsSpent (journal_of E t)
  unfolding journal_of
  journal_of-IsSpent t = Keeps-option t.payout _ _ (search keeps_rules) λ a. search keeps_rules

  token_of-IsSpent : (t : PayoutTargetState) → Keeps IsSpent (token_of E t)
  unfolding token_of
  token_of-IsSpent t =
      Keeps-option t.manifest.token _ _ (search keeps_rules) λ a. search keeps_rules

  pub observe_body-Spent :
      (again replay repeat : Task E (Unit {0}))
      → Same IsSpent (observe_body E again replay) (observe_body E again repeat)
  unfolding observe_body
  observe_body-Spent again replay repeat =
      search
        (
          Same-Keeps, keeps_rules, write_report-IsSpent, decimal_from_string-IsSpent,
          journal_of-IsSpent, token_of-IsSpent, observe_loop-IsSpent, after_observation-Spent,
        )
        depth 40

  settle_attempt-Spent :
      (again observe watch : Task E (Unit {0})) (exact : Bool) (r : SubmitResult)
      (e : Option Failure)
      → Same IsSpent observe watch
      → Same IsSpent
          (settle_attempt E again observe exact r e)
          (settle_attempt E again watch exact r e)
  unfolding settle_attempt
  settle_attempt-Spent again observe watch exact r (some e) o = o
  settle_attempt-Spent again observe watch exact r none o = search (Same-if, Same-refl)

  -- Once both attempts are used, the observation never replays: what the replay would do is irrelevant.
  attempt_body-Spent :
      (again replay repeat : Task E (Unit {0}))
      → Same IsSpent
          (attempt_body E again (observe_body E again replay) true)
          (attempt_body E again (observe_body E again repeat) true)
  unfolding attempt_body
  attempt_body-Spent again replay repeat =
      search
        (
          Same-Keeps, keeps_rules, write_report-IsSpent, journal_of-IsSpent, submit-IsSpent,
          settle_attempt-Spent, observe_body-Spent,
        )
        depth 20

  spend :
      (t : PayoutTargetState) (j : PayoutJournal)
      → (set_attempts 2 t).payout ≡ some j
      → j.submit_attempts ≡ 2
  spend t j q = ground arith

  save_twice-IsSpent :
      (phase : Phase) (failed : Failure → Task E (Unit {0}))
      → ((e : Failure) → Keeps IsSpent (failed e))
      → Keeps IsSpent (save_twice E phase failed)
  unfolding save_twice
  save_twice-IsSpent phase failed k = search (keeps_rules, k, save_active_phase-IsSpent) depth 10

  replay_body-Spent :
      (attempt other : Task E (Unit {0}))
      → Same IsSpent attempt other
      → Same Any (replay_body E attempt) (replay_body E other)
  unfolding replay_body
  replay_body-Spent attempt other k = Same-then _ _ _ λ t. Same-then _ _ _ λ _. Same-then _ _ _ λ _.
      Same-bind {Q = IsSpent} _ _ _
        (Leads-modify _ λ s p. record { at = λ j q. spend s.target j q })
        λ _.
          Same-Keeps _ _ _
            (save_twice-IsSpent _ _ λ e. search (keeps_rules, write_report-IsSpent) depth 10)
            λ _. Same-Keeps _ _ _ sync_report-IsSpent λ _. k

  -- One submission and one replay are all: with any larger bound submitPayoutAttempt does the same,
  -- from every state and in every environment, so the bound is never reached.
  pub submit_payout_attempt_enough :
      (n : ℕ) (again : Task E (Unit {0})) (exact_replay : Bool) (s : Session (E.Decimal))
      → submit_payout_attempt E (suc (suc n)) again exact_replay s
        ≡ submit_payout_attempt E (suc replay_fuel) again exact_replay s
  unfolding submit_payout_attempt
  submit_payout_attempt_enough n again exact_replay s =
      (attempt_body-Same E again again _ _ exact_replay (Same-refl again) (
          observe_body-Same E again again _ _ (Same-refl again)
            (replay_body-Spent _ _ (attempt_body-Spent again _ _)))).at
        s tt
