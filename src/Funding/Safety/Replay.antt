-- ===== src/Funding/Safety/Replay.antt =====
-- The two durable boundaries of internal/funding/payout.go: before the first request and before its
-- replay.
use builder_code_bot.Prelude.{ℕ, ◌≡◌, refl, inl, inr, none, some, List, [], ◌∷◌, Option-cases}
use builder_code_bot.Funding.Model.{
  Phase, PreparedAction, PayoutJournal, PayoutTargetState, RunState,
}
use builder_code_bot.Funding.Action.{Failure, on_error, raise, ◌>>=◌, ◌>>◌}
use builder_code_bot.Funding.Action.Leads.{
  Leads, Leads-on_error, Leads-raise, Leads-bind, Leads-modify, Leads-gets, Leads-guard, Leads-map,
  Keeps-of_Leads,
}
use builder_code_bot.Funding.Env.{Env}
use builder_code_bot.Funding.Report.{RunReport}
use builder_code_bot.Funding.Session.{Session, Task, write_target}
use builder_code_bot.Funding.Progress.{report, sync_report, save_active_phase}
use builder_code_bot.Funding.Payout.Settle.{save_twice}
use builder_code_bot.Funding.Payout.Submit.{replay_refused, set_attempts, replay_body}
use builder_code_bot.Funding.Safety.Journal.{
  IsJournaled, KeepsJournal, IsReady, Backed, Holds, stored,
}
use builder_code_bot.Funding.Safety.Boundary.{IsPending, IsStored, IsSafe, save_active_phase-Leads}

-- The journal is in memory with its attempts, and not stored yet.
pub record IsDue {A : Type 0} (attempts : ℕ) (s : Session A) : Type 0 where
  pub journal : PayoutJournal
  pub journaled : s.target.payout ≡ some journal
  pub attempted : journal.submit_attempts ≡ attempts
  pub safe : IsJournaled s.history

-- After a report line the error goes on, and nothing was sent.
module _ (E : Env) where
  pub Leads-failed :
      {P Q : Session (E.Decimal) → Type 0} (f : RunReport → RunReport) (e : Failure)
      → ((s : Session (E.Decimal)) → P s → IsSafe s)
      → Leads P (report E f >> raise {A = Unit {0}} e) Q IsSafe
  unfolding ◌>>=◌
  Leads-failed f e k = record { at = λ s p. k s p }

pub pending :
    {A : Type 0} (attempts : ℕ) (phase : Phase) (s : Session A) (d : IsDue attempts s)
    → IsPending attempts d.journal.prepared phase (stored s.history) s
pending attempts phase s d = record {
  safe = d.safe;
  kept = record {
    journal = d.journal;
    journaled = d.journaled;
    request = refl;
    attempted = d.attempted;
  };
  runs_stored = refl;
}

Backed-first :
    {A : Type 0} (s : Session A) (q : PreparedAction) (runs : List RunState) (run : RunState)
    → Holds Phase.payout_submitting 1 q run
    → stored s.history ≡ run ∷ runs
    → Backed q (stored s.history)
Backed-first s q [] run h e = rw e h
Backed-first s q (_ ∷ _) run h e = rw e (inl h)

IsReady-first :
    {A : Type 0} (q : PreparedAction) (runs : List RunState) (s : Session A)
    → IsStored 1 q Phase.payout_submitting runs s
    → IsReady s
IsReady-first q runs s h = record {
  journal = h.kept.journal;
  journaled = h.kept.journaled;
  backed = rw (h.kept.request) (Backed-first s q runs h.run h.holds h.runs_stored);
  before = h.safe;
}

-- What the first of the two stores leaves is stored again by the second.
IsPending-again :
    {A : Type 0} (n : ℕ) (q : PreparedAction) (phase : Phase) (runs : List RunState) (s : Session A)
    → (h : IsStored n q phase runs s) → IsPending n q phase (h.run ∷ runs) s
IsPending-again n q phase runs s h = record {
  safe = h.safe;
  kept = h.kept;
  runs_stored = h.runs_stored;
}

module _ (E : Env) where
  pub save_submitting-Leads :
      Leads (IsDue 1) (save_active_phase E Phase.payout_submitting) IsReady IsSafe
  save_submitting-Leads = record {
    at = λ s d.
        (Leads-map _ (IsReady-first d.journal.prepared (stored s.history)) (
            save_active_phase-Leads E 1 d.journal.prepared Phase.payout_submitting
              (stored s.history))).at
          s (pending 1 Phase.payout_submitting s d);
  }

IsReady-second :
    {A : Type 0} (q : PreparedAction) (runs : List RunState) (run : RunState) (s : Session A)
    → Holds Phase.payout_replaying 2 q run
    → IsStored 2 q Phase.payout_replaying (run ∷ runs) s
    → IsReady s
IsReady-second q runs run s b h = record {
  journal = h.kept.journal;
  journaled = h.kept.journaled;
  backed = rw (h.kept.request, h.runs_stored) (inr (h.holds, b));
  before = h.safe;
}

-- Whatever the handler of a failed store raises, it sends nothing.
abbrev pub Fails : (E : Env) → (Failure → Task E (Unit {0})) → Type 1
Fails E failed = (Q : Session (E.Decimal) → Type 0) (e : Failure) → Leads IsSafe (failed e) Q IsSafe

module _ (E : Env) (failed : Failure → Task E (Unit {0})) (k : Fails E failed) where
  store_first :
      (q : PreparedAction) (runs : List RunState)
      → Leads
          (IsPending 2 q Phase.payout_replaying runs)
          (on_error (save_active_phase E Phase.payout_replaying) failed)
          (IsStored 2 q Phase.payout_replaying runs)
          IsSafe
  store_first q runs =
      Leads-on_error _ failed (save_active_phase-Leads E 2 q Phase.payout_replaying runs) (k _)

  store_second :
      (q : PreparedAction) (runs : List RunState)
      → Leads
          (IsStored 2 q Phase.payout_replaying runs)
          (on_error (save_active_phase E Phase.payout_replaying) failed)
          IsReady
          IsSafe
  store_second q runs = record {
    at = λ s h.
        (Leads-on_error _ failed
            (Leads-map _ (λ s'. IsReady-second q runs h.run s' h.holds)
              (save_active_phase-Leads E 2 q Phase.payout_replaying (h.run ∷ runs)))
            (k _)).at
          s (IsPending-again 2 q Phase.payout_replaying runs s h);
  }

  pub save_replaying-Leads :
      Leads (IsDue 2) (save_twice E Phase.payout_replaying failed) IsReady IsSafe
  unfolding save_twice
  save_replaying-Leads = record {
    at = λ s d.
        (Leads-bind _ _ (store_first d.journal.prepared (stored s.history))
            λ _. store_second d.journal.prepared (stored s.history)).at
          s (pending 2 Phase.payout_replaying s d);
  }

-- replayPreparedPayout of a target that passed its checks owes the second attempt.
IsDue-again :
    {A : Type 0} (E : Env) (t : PayoutTargetState) (s : Session A)
    → replay_refused E t ≡ none
    → IsSafe s
    → s.target ≡ t
    → IsDue 2 (write_target (λ u. record (set_attempts 2 u) { blocked_reason = "" }) s)
unfolding replay_refused
IsDue-again E t s r safe e = elim (Option-cases t.payout) [
  | inl q ↦ cc
  | inr (j, q) ↦ record {
    journal = record j { submit_attempts = 2 };
    journaled = rw (e, q) refl;
    attempted = refl;
    safe = safe;
  }
]

-- The target that a step read is still the session's.
abbrev Reads : {A : Type 0} → PayoutTargetState → Session A → Type 0
Reads t s = IsSafe s × (s.target ≡ t)

module _ (E : Env) where
  pub sync_report-Leads : Leads IsReady (sync_report E) IsReady IsSafe
  unfolding sync_report
  sync_report-Leads = Leads-modify _ λ s p. record {
    journal = p.journal;
    journaled = p.journaled;
    backed = p.backed;
    before = p.before;
  }

  pub replay_body-KeepsJournal :
      (attempt : Task E (Unit {0}))
      → Leads IsReady attempt IsSafe IsSafe
      → KeepsJournal (replay_body E attempt)
  unfolding replay_body
  replay_body-KeepsJournal attempt k = Keeps-of_Leads _ (
      Leads-gets _ _ λ t.
        Leads-bind {Q = λ s. (replay_refused E t ≡ none) × Reads t s} _ _
          (Leads-guard _ _ (λ s r p. (r, p)) λ x. Leads-raise _ λ s p. p.0)
          λ _.
            Leads-bind {Q = λ s. (replay_refused E t ≡ none) × Reads t s} _ _
              (Leads-guard _ _ (λ s _ p. p) λ x. Leads-raise _ λ s p. p.1.0)
              λ _.
                Leads-bind {Q = IsDue 2} _ _
                  (Leads-modify _ λ s p. IsDue-again E t s p.0 p.1.0 p.1.1)
                  λ _.
                    Leads-bind {Q = IsReady} _ _
                      (save_replaying-Leads E _ λ Q e. Leads-failed E _ _ λ s p. p)
                      λ _. Leads-bind _ _ (sync_report-Leads) λ _. k)
