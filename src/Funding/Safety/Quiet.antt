-- ===== src/Funding/Safety/Quiet.antt =====
-- The actions that send nothing keep whatever a submission alone can change.
pub mod Payout
pub mod Calls
use builder_code_bot.Prelude.{
  ℕ, zero, suc, ◌≡◌, refl, Bool, true, false, Option, none, some, List, [], ◌∷◌, String, arith,
  if◌then◌else◌,
}
use builder_code_bot.Funding.Model.{
  Phase, PreparedAction, PayoutJournal, PayoutTargetState, RunState, Token, ActiveTarget,
  active_payout_target,
}
use builder_code_bot.Prelude.Text.{◌+++◌}
use builder_code_bot.Funding.Action.{
  Failure, Result, ok, err, panic, Action, pure, raise, crash, gets, lift, on_error, capture,
  modify, when, handle_result, continue, ◌>>=◌,
}
use builder_code_bot.Funding.Env.{AlertSeverity, Effect, History, Env}
use builder_code_bot.Funding.Report.{RunReport}
use builder_code_bot.Funding.Session.{
  Session, Task, sleep, next_nonce, canonical_usdc, spot_balance, prepare_spot_send, save, archive,
  clear, list_pending, complete, now, check_context,
}
use builder_code_bot.Funding.Progress.{
  alert_once, holds_alert, forget_alerts, report, retarget, sync_report, save_state,
  save_active_phase, complete_database, finish_run, save_phase, database_failed,
}

abbrev pub is_submission : {A : Type 0} → Effect A → Bool
is_submission (Effect.submitted p r e) = true
is_submission _ = false

-- The later history adds effects to the earlier one, none of them a submission.
pub data Adds {A : Type 0} (h : History A) : History A → Type 0 where
  none_added : Adds h h
  added : (e : Effect A) {k : History A} → is_submission e ≡ false → Adds h k → Adds h (e ∷ k)

pub Adds-trans : {A : Type 0} {h k l : History A} → Adds h k → Adds k l → Adds h l
Adds-trans p none_added = p
Adds-trans p (added e q r) = added e q (Adds-trans p r)

-- However it ends, the action sends nothing.
pub record IsQuiet {A B : Type 0} (m : Action (Session A) B) : Type 0 where
  pub at : (s : Session A) → Adds s.history (m s).1.history

-- What every effect but a submission keeps is kept by a quiet action.
pub record IsClosed {A : Type 0} (H : History A → Type 0) : Type 0 where
  pub at : (e : Effect A) (h : History A) → is_submission e ≡ false → H h → H (e ∷ h)

pub Adds-keeps :
    {A : Type 0} {H : History A → Type 0} {h k : History A} → IsClosed H → Adds h k → H h → H k
Adds-keeps c none_added p = p
Adds-keeps c (added e q r) p = c.at e _ q (Adds-keeps c r p)

module _ {A B : Type 0} where
  pub IsQuiet-pure : (b : B) → IsQuiet {A = A} (pure b)
  unfolding ◌>>=◌
  IsQuiet-pure b = record { at = λ s. none_added }

  pub IsQuiet-raise : (e : Failure) → IsQuiet {A = A} {B = B} (raise e)
  unfolding ◌>>=◌
  IsQuiet-raise e = record { at = λ s. none_added }

  pub IsQuiet-crash : IsQuiet {A = A} {B = B} crash
  unfolding ◌>>=◌
  IsQuiet-crash = record { at = λ s. none_added }

  pub IsQuiet-gets : (f : Session A → B) → IsQuiet (gets f)
  unfolding ◌>>=◌
  IsQuiet-gets f = record { at = λ s. none_added }

  pub IsQuiet-lift : (r : Result B) → IsQuiet {A = A} (lift r)
  unfolding ◌>>=◌
  IsQuiet-lift r = record { at = λ s. none_added }

  pub IsQuiet-capture : (m : Action (Session A) B) → IsQuiet m → IsQuiet (capture m)
  unfolding ◌>>=◌
  IsQuiet-capture m k = record { at = k.at }

  pub IsQuiet-if :
      (b : Bool) (m n : Action (Session A) B) → IsQuiet m → IsQuiet n → IsQuiet (if b then m else n)
  IsQuiet-if true m n km kn = km
  IsQuiet-if false m n km kn = kn

  handled :
      (r : Result B) (f : Failure → Action (Session A) B) (s : Session A)
      → ((e : Failure) → IsQuiet (f e))
      → Adds s.history (handle_result r f s).1.history
  unfolding handle_result
  handled (ok b) f s k = none_added
  handled (err e) f s k = (k e).at s
  handled panic f s k = none_added

  pub IsQuiet-on_error :
      (m : Action (Session A) B) (f : Failure → Action (Session A) B)
      → IsQuiet m
      → ((e : Failure) → IsQuiet (f e))
      → IsQuiet (on_error m f)
  unfolding on_error
  IsQuiet-on_error m f km kf = record {
    at = λ s. let (r, s') = m s in Adds-trans (km.at s) (handled r f s' kf);
  }

module _ {A B C : Type 0} where
  continued :
      (r : Result B) (f : B → Action (Session A) C) (s : Session A)
      → ((b : B) → IsQuiet (f b))
      → Adds s.history (continue r f s).1.history
  continued (ok b) f s k = (k b).at s
  continued (err e) f s k = none_added
  continued panic f s k = none_added

  pub IsQuiet-bind :
      (m : Action (Session A) B) (f : B → Action (Session A) C)
      → IsQuiet m
      → ((b : B) → IsQuiet (f b))
      → IsQuiet (m >>= f)
  unfolding ◌>>=◌
  IsQuiet-bind m f km kf = record {
    at = λ s. let (r, s') = m s in Adds-trans (km.at s) (continued r f s' kf);
  }

module _ {A : Type 0} where
  -- A write leaves the history as it is.
  pub IsQuiet-modify :
      (f : Session A → Session A)
      → ((s : Session A) → (f s).history ≡ s.history)
      → IsQuiet (modify f)
  unfolding ◌>>=◌
  IsQuiet-modify f k = record { at = λ s. rw k none_added }

  pub IsQuiet-when : (b : Bool) (m : Action (Session A) (Unit {0})) → IsQuiet m → IsQuiet (when b m)
  unfolding ◌>>=◌
  IsQuiet-when true m k = record { at = λ s. k.at s }
  IsQuiet-when false m k = record { at = λ s. none_added }

pub either :
    {A : Type 0} {h : History A} (b : Bool) (m n : Result (Unit {0}) × Session A)
    → Adds h m.1.history
    → Adds h n.1.history
    → Adds h (if b then m else n).1.history
either true m n p q = p
either false m n p q = q

pub ruleset quiet_rules = (
  refl, IsQuiet-pure, IsQuiet-raise, IsQuiet-crash, IsQuiet-gets, IsQuiet-lift, IsQuiet-capture,
  IsQuiet-if, IsQuiet-on_error, IsQuiet-bind, IsQuiet-modify, IsQuiet-when,
)

module _ (E : Env) where
  pub sleep-IsQuiet : (ms : ℕ) → IsQuiet (sleep E ms)
  unfolding sleep
  sleep-IsQuiet ms = record { at = λ s. added _ refl none_added }

  pub save-IsQuiet : (run : RunState) → IsQuiet (save E run)
  unfolding save
  save-IsQuiet run = record { at = λ s. added _ refl none_added }

  pub now-IsQuiet : IsQuiet (now E)
  unfolding now
  now-IsQuiet = record { at = λ s. none_added }

  pub check_context-IsQuiet : IsQuiet (check_context E)
  unfolding check_context
  check_context-IsQuiet = record { at = λ s. none_added }

  pub next_nonce-IsQuiet : IsQuiet (next_nonce E)
  unfolding next_nonce
  next_nonce-IsQuiet = record { at = λ s. added _ refl none_added }

  pub canonical_usdc-IsQuiet : IsQuiet (canonical_usdc E)
  unfolding canonical_usdc
  canonical_usdc-IsQuiet = record { at = λ s. added _ refl none_added }

  pub spot_balance-IsQuiet : (a : String) (t : Token) → IsQuiet (spot_balance E a t)
  unfolding spot_balance
  spot_balance-IsQuiet a t = record { at = λ s. added _ refl none_added }

  pub prepare_spot_send-IsQuiet :
      (a d : String) (t : Token) (x : E.Decimal) (n : ℕ) → IsQuiet (prepare_spot_send E a d t x n)
  unfolding prepare_spot_send
  prepare_spot_send-IsQuiet a d t x n = record { at = λ s. added _ refl none_added }

  pub archive-IsQuiet : (run : RunState) (result : String) → IsQuiet (archive E run result)
  unfolding archive
  archive-IsQuiet run result = record { at = λ s. added _ refl none_added }

  pub clear-IsQuiet : IsQuiet (clear E)
  unfolding clear
  clear-IsQuiet = record { at = λ s. added _ refl none_added }

  pub list_pending-IsQuiet : IsQuiet (list_pending E)
  unfolding list_pending
  list_pending-IsQuiet = record { at = λ s. added _ refl none_added }

  pub complete-IsQuiet : (ids : List ℕ) → IsQuiet (complete E ids)
  unfolding complete
  complete-IsQuiet ids = record { at = λ s. added _ refl none_added }

  pub alert_once-IsQuiet :
      (key : String) (severity : AlertSeverity) (m : String) → IsQuiet (alert_once E key severity m)
  unfolding alert_once
  alert_once-IsQuiet key severity m = record {
    at = λ s.
        either (holds_alert (s.run.run_id +++ ":" +++ key) s.alerts) _ _ none_added
          (added _ refl none_added);
  }

  pub forget_alerts-IsQuiet : IsQuiet (forget_alerts E)
  unfolding forget_alerts
  forget_alerts-IsQuiet = search quiet_rules

  pub report-IsQuiet : (f : RunReport → RunReport) → IsQuiet (report E f)
  report-IsQuiet f = search quiet_rules

  pub retarget-IsQuiet : (f : PayoutTargetState → PayoutTargetState) → IsQuiet (retarget E f)
  retarget-IsQuiet f = search quiet_rules

  pub sync_report-IsQuiet : IsQuiet (sync_report E)
  unfolding sync_report
  sync_report-IsQuiet = search quiet_rules

  pub save_state-IsQuiet : IsQuiet (save_state E)
  unfolding save_state
  save_state-IsQuiet = search (quiet_rules, save-IsQuiet, now-IsQuiet) depth 12

  save_phase-IsQuiet : (phase : Phase) (a : ActiveTarget) → IsQuiet (save_phase E phase a)
  unfolding save_phase
  save_phase-IsQuiet phase ActiveTarget.unsupported = search quiet_rules
  save_phase-IsQuiet phase ActiveTarget.all_completed = search quiet_rules
  save_phase-IsQuiet phase (ActiveTarget.active _) = search (quiet_rules, save_state-IsQuiet)

  pub save_active_phase-IsQuiet : (phase : Phase) → IsQuiet (save_active_phase E phase)
  unfolding save_active_phase
  save_active_phase-IsQuiet phase = search (quiet_rules, save_phase-IsQuiet)

  pub database_failed-IsQuiet : (e : Failure) → IsQuiet (database_failed E e)
  unfolding database_failed
  database_failed-IsQuiet e = search (quiet_rules, alert_once-IsQuiet) depth 12

  pub complete_database-IsQuiet :
      (again : Task E (Unit {0})) → IsQuiet again → IsQuiet (complete_database E again)
  unfolding complete_database
  complete_database-IsQuiet again k =
      search
        (
          quiet_rules, complete-IsQuiet, database_failed-IsQuiet, save_state-IsQuiet,
          sync_report-IsQuiet,
        )
        depth 30

  pub finish_run-IsQuiet : IsQuiet (finish_run E)
  unfolding finish_run
  finish_run-IsQuiet =
      search
        (quiet_rules, archive-IsQuiet, clear-IsQuiet, sync_report-IsQuiet, forget_alerts-IsQuiet)
        depth 30
