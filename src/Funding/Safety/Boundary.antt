-- ===== src/Funding/Safety/Boundary.antt =====
-- A durable boundary: what the store holds once a phase of the payout was saved.
use builder_code_bot.Prelude.{ℕ, ◌≡◌, refl, Option, none, some, List, ◌∷◌, ap}
use builder_code_bot.Funding.Model.{
  Phase, PreparedAction, PayoutJournal, PayoutTargetState, RunState, ActiveTarget,
  active_payout_target,
}
use builder_code_bot.Funding.Action.{Failure, of_error, ◌>>=◌}
use builder_code_bot.Funding.Action.Leads.{Ends, Leads}
use builder_code_bot.Funding.Env.{Effect, Env}
use builder_code_bot.Funding.Session.{Session, current_run, now, save, happen}
use builder_code_bot.Funding.Progress.{save_state, save_phase, save_active_phase}
use builder_code_bot.Funding.Safety.Journal.{IsJournaled, Holds, stored}

-- The target's journal has the request and this many attempts.
pub record HasJournal (attempts : ℕ) (p : PreparedAction) (t : PayoutTargetState) : Type 0 where
  pub journal : PayoutJournal
  pub journaled : t.payout ≡ some journal
  pub request : journal.prepared ≡ p
  pub attempted : journal.submit_attempts ≡ attempts

module _ {A : Type 0} (attempts : ℕ) (p : PreparedAction) (phase : Phase) where
  -- Before a boundary: the journal is in memory, and `runs` are stored.
  pub record IsPending (runs : List RunState) (s : Session A) : Type 0 where
    pub safe : IsJournaled s.history
    pub kept : HasJournal attempts p s.target
    pub runs_stored : stored s.history ≡ runs

  -- After it: one more run is stored, and it holds the journal in the phase.
  pub record IsStored (runs : List RunState) (s : Session A) : Type 0 where
    pub safe : IsJournaled s.history
    pub kept : HasJournal attempts p s.target
    pub run : RunState
    pub holds : Holds phase attempts p run
    pub runs_stored : stored s.history ≡ run ∷ runs

abbrev pub IsSafe : {A : Type 0} → Session A → Type 0
IsSafe s = IsJournaled s.history

saved-Ends :
    {A : Type 0} (attempts : ℕ) (p : PreparedAction) (phase : Phase) (runs : List RunState)
    (e : Option Failure) (s : Session A)
    → HasJournal attempts p s.target
    → s.target.phase ≡ phase
    → IsJournaled s.history
    → stored s.history ≡ runs
    → Ends
        (IsStored attempts p phase runs)
        IsSafe
        (of_error e, happen (Effect.saved (current_run s) e) s)
unfolding stored current_run
saved-Ends attempts p phase runs none s h same safe r = record {
  safe = safe;
  kept = h;
  run = current_run s;
  holds = record {
    target = s.target;
    journal = h.journal;
    sole = refl;
    in_phase = same;
    journaled = h.journaled;
    request = h.request;
    attempted = h.attempted;
  };
  runs_stored = ap (λ l. current_run s ∷ l) r;
}
saved-Ends attempts p phase runs (some e) s h same safe r = safe

module _ (E : Env) (attempts : ℕ) (p : PreparedAction) (phase : Phase) where
  save_state-Ends :
      (runs : List RunState) (s : Session (E.Decimal))
      → HasJournal attempts p s.target
      → s.target.phase ≡ phase
      → IsJournaled s.history
      → stored s.history ≡ runs
      → Ends (IsStored attempts p phase runs) IsSafe (save_state E s)
  unfolding save_state ◌>>=◌ now save
  save_state-Ends runs s h same safe r =
      let s' = record s { run = record (s.run) { updated_at = E.now s.history } } in
      saved-Ends attempts p phase runs (E.save s.history (current_run s')) s' h same safe r

  save_phase-Ends :
      (runs : List RunState) (a : ActiveTarget) (s : Session (E.Decimal))
      → IsPending attempts p phase runs s
      → Ends (IsStored attempts p phase runs) IsSafe (save_phase E phase a s)
  unfolding save_phase ◌>>=◌
  save_phase-Ends runs ActiveTarget.unsupported s h = h.safe
  save_phase-Ends runs ActiveTarget.all_completed s h = h.safe
  save_phase-Ends runs (ActiveTarget.active t) s h =
      save_state-Ends runs (record s { target = record (s.target) { phase = phase } })
        (record {
          journal = h.kept.journal;
          journaled = h.kept.journaled;
          request = h.kept.request;
          attempted = h.kept.attempted;
        })
        refl h.safe h.runs_stored

  pub save_active_phase-Leads :
      (runs : List RunState)
      → Leads
          (IsPending attempts p phase runs)
          (save_active_phase E phase)
          (IsStored attempts p phase runs)
          IsSafe
  unfolding save_active_phase ◌>>=◌
  save_active_phase-Leads runs = record {
    at = λ s h. save_phase-Ends runs (active_payout_target (current_run s)) s h;
  }
