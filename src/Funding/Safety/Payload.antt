-- ===== src/Funding/Safety/Payload.antt =====
-- What leaves the payout journal of the session as it is.
use builder_code_bot.Prelude.{ℕ, zero, suc, ◌≡◌, Option, String}
use builder_code_bot.Funding.Model.{
  Phase, Token, SpotBalanceAmounts, PreparedAction, PayoutJournal, PayoutTargetState, RunState,
  ActiveTarget,
}
use builder_code_bot.Funding.Action.{Failure, Result, ok, err, panic}
use builder_code_bot.Funding.Action.Keeps.{Keeps, keeps_rules, Keeps-bind, Keeps-modify}
use builder_code_bot.Funding.Env.{Env}
use builder_code_bot.Funding.Report.{RunReport}
use builder_code_bot.Funding.Session.{
  Session, Task, write_report, now, save, sleep, spot_balance, check_context, submit,
}
use builder_code_bot.Funding.Progress.{
  report, sync_report, save_state, save_phase, save_active_phase,
}
use builder_code_bot.Funding.Payout.Evidence.{Watch, after_query, query, observe_loop}
use builder_code_bot.Funding.Payout.Settle.{save_twice}
use builder_code_bot.Funding.Payout.Submit.{decimal_from_string, journal_of, token_of}
use builder_code_bot.Funding.Safety.Runs.{Keeps-option}

abbrev pub HasPayout : {A : Type 0} → Option PayoutJournal → Session A → Type 0
HasPayout o s = s.target.payout ≡ o

module _ (E : Env) (o : Option PayoutJournal) where
  pub now-HasPayout : Keeps (HasPayout o) (now E)
  unfolding now
  now-HasPayout = record { at = λ s h. h }

  pub save-HasPayout : (run : RunState) → Keeps (HasPayout o) (save E run)
  unfolding save
  save-HasPayout run = record { at = λ s h. h }

  pub sleep-HasPayout : (ms : ℕ) → Keeps (HasPayout o) (sleep E ms)
  unfolding sleep
  sleep-HasPayout ms = record { at = λ s h. h }

  pub spot_balance-HasPayout : (a : String) (t : Token) → Keeps (HasPayout o) (spot_balance E a t)
  unfolding spot_balance
  spot_balance-HasPayout a t = record { at = λ s h. h }

  pub check_context-HasPayout : Keeps (HasPayout o) (check_context E)
  unfolding check_context
  check_context-HasPayout = record { at = λ s h. h }

  pub submit-HasPayout : (p : PreparedAction) → Keeps (HasPayout o) (submit E p)
  unfolding submit
  submit-HasPayout p = record { at = λ s h. h }

  pub report-HasPayout : (f : RunReport → RunReport) → Keeps (HasPayout o) (report E f)
  report-HasPayout f = Keeps-modify _ λ s h. h

  pub sync_report-HasPayout : Keeps (HasPayout o) (sync_report E)
  unfolding sync_report
  sync_report-HasPayout = Keeps-modify _ λ s h. h

  pub save_state-HasPayout : Keeps (HasPayout o) (save_state E)
  unfolding save_state
  save_state-HasPayout =
      Keeps-bind _ _ now-HasPayout
        λ t. Keeps-bind _ _ (Keeps-modify _ λ s h. h) λ _. search (keeps_rules, save-HasPayout)

  pub save_phase-HasPayout :
      (phase : Phase) (a : ActiveTarget) → Keeps (HasPayout o) (save_phase E phase a)
  unfolding save_phase
  save_phase-HasPayout phase ActiveTarget.unsupported = search keeps_rules
  save_phase-HasPayout phase ActiveTarget.all_completed = search keeps_rules
  save_phase-HasPayout phase (ActiveTarget.active _) =
      Keeps-bind _ _ (Keeps-modify _ λ s h. h) λ _. save_state-HasPayout

  pub save_active_phase-HasPayout :
      (phase : Phase) → Keeps (HasPayout o) (save_active_phase E phase)
  unfolding save_active_phase
  save_active_phase-HasPayout phase = search (keeps_rules, save_phase-HasPayout)

  pub after_query-HasPayout :
      (settlement : String) (token : Token) (before amount : E.Decimal)
      (r : Result (SpotBalanceAmounts (E.Decimal))) (w : Watch)
      → Keeps (HasPayout o) (after_query E settlement token before amount r w)
  unfolding after_query
  after_query-HasPayout settlement token before amount (ok b) w = search keeps_rules
  after_query-HasPayout settlement token before amount (err e) w =
      search (keeps_rules, check_context-HasPayout)
  after_query-HasPayout settlement token before amount panic w = search keeps_rules

  pub query-HasPayout :
      (settlement : String) (token : Token) (before amount : E.Decimal) (w : Watch)
      → Keeps (HasPayout o) (query E settlement token before amount w)
  unfolding query
  query-HasPayout settlement token before amount w =
      search (keeps_rules, after_query-HasPayout, spot_balance-HasPayout)

  pub observe_loop-HasPayout :
      (settlement : String) (token : Token) (before amount : E.Decimal) (left : ℕ) (w : Watch)
      → Keeps (HasPayout o) (observe_loop E settlement token before amount left w)
  unfolding observe_loop
  observe_loop-HasPayout settlement token before amount zero w = search keeps_rules
  observe_loop-HasPayout settlement token before amount (suc left) w =
      search
        (
          keeps_rules,
          query-HasPayout settlement token before amount,
          sleep-HasPayout,
          observe_loop-HasPayout settlement token before amount left,
        )
        depth 10

  pub write_report-HasPayout :
      (f : RunReport → RunReport) (s : Session (E.Decimal))
      → HasPayout o s
      → HasPayout o (write_report f s)
  write_report-HasPayout f s h = h

  pub decimal_from_string-HasPayout :
      (text : String) → Keeps (HasPayout o) (decimal_from_string E text)
  unfolding decimal_from_string
  decimal_from_string-HasPayout text =
      Keeps-option (E.from_string text) _ _ (search keeps_rules) λ a. search keeps_rules

  pub journal_of-HasPayout : (t : PayoutTargetState) → Keeps (HasPayout o) (journal_of E t)
  unfolding journal_of
  journal_of-HasPayout t = Keeps-option t.payout _ _ (search keeps_rules) λ a. search keeps_rules

  pub token_of-HasPayout : (t : PayoutTargetState) → Keeps (HasPayout o) (token_of E t)
  unfolding token_of
  token_of-HasPayout t =
      Keeps-option t.manifest.token _ _ (search keeps_rules) λ a. search keeps_rules

  pub save_twice-HasPayout :
      (phase : Phase) (failed : Failure → Task E (Unit {0}))
      → ((e : Failure) → Keeps (HasPayout o) (failed e))
      → Keeps (HasPayout o) (save_twice E phase failed)
  unfolding save_twice
  save_twice-HasPayout phase failed k =
      search (keeps_rules, k, save_active_phase-HasPayout) depth 10
