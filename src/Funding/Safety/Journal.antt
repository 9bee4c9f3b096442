-- ===== src/Funding/Safety/Journal.antt =====
-- The write-ahead journal: what has to be stored before a payout request leaves the process.
use builder_code_bot.Prelude.{ℕ, ◌≡◌, ◌⊎◌, false, none, some, List, [], ◌∷◌}
use builder_code_bot.Funding.Model.{
  Phase, PreparedAction, PayoutJournal, PayoutTargetState, RunState,
}
use builder_code_bot.Funding.Action.{Action}
use builder_code_bot.Funding.Action.Keeps.{Keeps}
use builder_code_bot.Funding.Env.{Effect, History}
use builder_code_bot.Funding.Session.{Session}
use builder_code_bot.Funding.Safety.Quiet.{IsClosed, IsQuiet, Adds-keeps, is_submission}

-- The runs that were stored, the latest first. A store that failed does not count.
unfoldable pub stored : {A : Type 0} → History A → List RunState
stored [] = []
stored (Effect.saved run none ∷ h) = run ∷ stored h
stored (_ ∷ h) = stored h

-- The stored run has the request in its journal, in this phase and with this many attempts.
pub record Holds (phase : Phase) (attempts : ℕ) (p : PreparedAction) (run : RunState) : Type 0 where
  pub target : PayoutTargetState
  pub journal : PayoutJournal
  pub sole : run.targets ≡ target ∷ []
  pub in_phase : target.phase ≡ phase
  pub journaled : target.payout ≡ some journal
  pub request : journal.prepared ≡ p
  pub attempted : journal.submit_attempts ≡ attempts

-- The latest store is the submitting boundary of the request, or the two latest are its replaying
-- boundary.
abbrev pub Backed : PreparedAction → List RunState → Type 0
Backed p [] = ⊥
Backed p (r ∷ []) = Holds Phase.payout_submitting 1 p r
Backed p (r ∷ q ∷ rest) =
    Holds Phase.payout_submitting 1 p r
    ⊎ (Holds Phase.payout_replaying 2 p r × Holds Phase.payout_replaying 2 p q)

-- Every request that was sent was backed when it left.
abbrev pub IsJournaled : {A : Type 0} → History A → Type 0
IsJournaled [] = Unit {0}
IsJournaled (Effect.submitted p r e ∷ h) = Backed p (stored h) × IsJournaled h
IsJournaled (_ ∷ h) = IsJournaled h

closed_at :
    {A : Type 0} (e : Effect A) (h : History A)
    → is_submission e ≡ false
    → IsJournaled h
    → IsJournaled (e ∷ h)
closed_at (Effect.submitted p r x) h q j = cc
closed_at _ h q j = j

pub IsJournaled-closed : {A : Type 0} → IsClosed (IsJournaled {A = A})
IsJournaled-closed = record { at = closed_at }

-- What sends nothing keeps the journal.
abbrev pub KeepsJournal : {A B : Type 0} → Action (Session A) B → Type 0
KeepsJournal m = Keeps (λ s. IsJournaled s.history) m

pub quiet-KeepsJournal : {A B : Type 0} (m : Action (Session A) B) → IsQuiet m → KeepsJournal m
quiet-KeepsJournal m q = record { at = λ s j. Adds-keeps IsJournaled-closed (q.at s) j }

-- The target's journal is backed by what was stored last.
pub record IsReady {A : Type 0} (s : Session A) : Type 0 where
  pub journal : PayoutJournal
  pub journaled : s.target.payout ≡ some journal
  pub backed : Backed journal.prepared (stored s.history)
  pub before : IsJournaled s.history
