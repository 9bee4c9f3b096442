-- ===== src/Funding/Safety/Sent.antt =====
-- What a payout has sent at each of its points, up to one attempt.
use builder_code_bot.Prelude.{◌≡◌, refl, ◌⊎◌, Bool, false, Option, none, some, List, [], ◌∷◌}
use builder_code_bot.Funding.Model.{Phase, PreparedAction, SubmitResult, PayoutJournal}
use builder_code_bot.Funding.Action.{Failure, Action, ◌>>=◌}
use builder_code_bot.Funding.Action.Keeps.{Keeps, keeps_rules}
use builder_code_bot.Funding.Action.Leads.{Leads, Leads-if, Leads-bind, Leads-of_state, Leads-kept}
use builder_code_bot.Funding.Env.{Effect, History, Env}
use builder_code_bot.Funding.Session.{Session, Task, write_report}
use builder_code_bot.Funding.Report.{RunReport}
use builder_code_bot.Funding.Safety.Payload.{
  HasPayout, decimal_from_string-HasPayout, journal_of-HasPayout, token_of-HasPayout,
  observe_loop-HasPayout, save_active_phase-HasPayout, sync_report-HasPayout,
}
use builder_code_bot.Funding.Progress.{save_active_phase, sync_report}
use builder_code_bot.Funding.Payout.Evidence.{Observed}
use builder_code_bot.Funding.Payout.Settle.{exchange_response}
use builder_code_bot.Funding.Payout.Submit.{settle_attempt, after_observation, observe_body}
use builder_code_bot.Funding.Safety.Quiet.{
  is_submission, IsQuiet, Adds-keeps, sync_report-IsQuiet, save_active_phase-IsQuiet,
}
use builder_code_bot.Funding.Safety.Quiet.Payout.{
  confirm_payout-IsQuiet, reject_payout-IsQuiet, block_uncertain_payout-IsQuiet,
  observe_loop-IsQuiet,
}
use builder_code_bot.Funding.Safety.Flow.{
  journal_of-IsQuiet, token_of-IsQuiet, decimal_from_string-IsQuiet,
}

-- The requests that were sent, the latest first.
unfoldable pub sent : {A : Type 0} → History A → List PreparedAction
sent [] = []
sent (Effect.submitted p r e ∷ h) = p ∷ sent h
sent (e ∷ h) = sent h

pub sent_closed :
    {A : Type 0} (l : List PreparedAction) (e : Effect A) (h : History A)
    → is_submission e ≡ false
    → sent h ≡ l
    → sent (e ∷ h) ≡ l
unfolding sent
sent_closed l (Effect.submitted p r x) h q j = cc
sent_closed l _ h q j = j

-- `l` was sent, and nothing since.
abbrev pub HasSent : {A : Type 0} → List PreparedAction → Session A → Type 0
HasSent l s = sent s.history ≡ l

pub quiet-HasSent :
    {A B : Type 0} (l : List PreparedAction) (m : Action (Session A) B)
    → IsQuiet m
    → Keeps (HasSent l) m
quiet-HasSent l m q = record { at = λ s j. Adds-keeps (record { at = sent_closed l }) (q.at s) j }

pub one_more :
    {x y : PreparedAction} {l m : List PreparedAction} → x ≡ y → l ≡ m → (x ∷ l) ≡ (y ∷ m)
one_more e q = rw (e, q) refl

-- The journal and what was sent, at one point of a payout.
pub record IsAt {A : Type 0} (l : List PreparedAction) (o : Option PayoutJournal) (s : Session A)
    : Type 0 where
  pub sends : sent s.history ≡ l
  pub holds : s.target.payout ≡ o

module _ {A B : Type 0} {l : List PreparedAction} {o : Option PayoutJournal} where
  pub steady :
      (m : Action (Session A) B) → Keeps (HasSent l) m → Keeps (HasPayout o) m → Keeps (IsAt l o) m
  steady m ks kp = record {
    at = λ s h. record { sends = ks.at s h.sends; holds = kp.at s h.holds };
  }

  pub steady_quiet :
      (m : Action (Session A) B) → IsQuiet m → Keeps (HasPayout o) m → Keeps (IsAt l o) m
  steady_quiet m q kp = steady m (quiet-HasSent l m q) kp

pub wrote :
    {A : Type 0} {l : List PreparedAction} {o : Option PayoutJournal} (f : RunReport → RunReport)
    (s : Session A)
    → IsAt l o s
    → IsAt l o (write_report f s)
wrote f s h = record { sends = h.sends; holds = h.holds }

-- The payout's requests so far: none, its request, or its request twice, after those before it.
abbrev pub AtMostTwice : PreparedAction → List PreparedAction → List PreparedAction → Type 0
AtMostTwice p before l = (l ≡ before) ⊎ (l ≡ p ∷ before) ⊎ (l ≡ p ∷ p ∷ before)

module _ (E : Env) (p : PreparedAction) (base : List PreparedAction) where
  abbrev pub End : Session (E.Decimal) → Type 0
  End s = AtMostTwice p base (sent s.history)

  -- Every step of the payout is at a point that may be its last.
  abbrev pub EndsWell : List PreparedAction → Type 0
  EndsWell l = (s : Session (E.Decimal)) → sent s.history ≡ l → End s

  module _ (l : List PreparedAction) (o : Option PayoutJournal) (k : EndsWell l) where
    pub next :
        {B : Type 0} (m : Task E B) (f : B → Task E (Unit {0}))
        → Keeps (IsAt l o) m
        → ((b : B) → Leads (IsAt l o) (f b) End End)
        → Leads (IsAt l o) (m >>= f) End End
    next m f h g = Leads-bind {Q = IsAt l o} m f (Leads-kept m (λ s a. k s a.sends) h) g

    pub last : (m : Task E (Unit {0})) → IsQuiet m → Leads (IsAt l o) m End End
    last m q = Leads-of_state m λ s h. k (m s).1 ((quiet-HasSent l m q).at s h.sends)

    pub settle_attempt-Leads :
        (again observe : Task E (Unit {0})) (exact : Bool) (r : SubmitResult) (e : Option Failure)
        → IsQuiet again
        → Leads (IsAt l o) observe End End
        → Leads (IsAt l o) (settle_attempt E again observe exact r e) End End
    unfolding settle_attempt
    settle_attempt-Leads again observe exact r (some e) qa ko = ko
    settle_attempt-Leads again observe exact r none qa ko =
        Leads-if r.accepted _ _ (last _ (confirm_payout-IsQuiet E again exchange_response qa))
          (Leads-if _ _ _ (last _ (reject_payout-IsQuiet E)) ko)

    pub after_observation-Leads :
        (again replay : Task E (Unit {0})) (seen : Observed)
        → IsQuiet again
        → Leads (IsAt l o) replay End End
        → Leads (IsAt l o) (after_observation E again replay seen) End End
    unfolding after_observation
    after_observation-Leads again replay (Observed.confirmed evidence) qa kr =
        last _ (confirm_payout-IsQuiet E again evidence qa)
    after_observation-Leads again replay (Observed.exhausted w) qa kr =
        next _ _ (search keeps_rules) λ t.
          next _ _ (steady_quiet _ (journal_of-IsQuiet E t) (journal_of-HasPayout E o t))
            λ j. Leads-if _ _ _ kr (last _ (block_uncertain_payout-IsQuiet E _ _))

    pub observe_body-Leads :
        (again replay : Task E (Unit {0}))
        → IsQuiet again
        → Leads (IsAt l o) replay End End
        → Leads (IsAt l o) (observe_body E again replay) End End
    unfolding observe_body
    observe_body-Leads again replay qa kr = next _ _ (search keeps_rules) λ t.
        next _ _ (search (keeps_rules, wrote)) λ _.
          next _ _ (search (keeps_rules, wrote) depth 12) λ _.
            next _ _ (steady_quiet _ (journal_of-IsQuiet E t) (journal_of-HasPayout E o t)) λ j.
              next _ _
                (steady_quiet _ (decimal_from_string-IsQuiet E _)
                  (decimal_from_string-HasPayout E o _))
                λ before.
                  next _ _
                    (steady_quiet _ (decimal_from_string-IsQuiet E _)
                      (decimal_from_string-HasPayout E o _))
                    λ amount.
                      next _ _ (steady_quiet _ (token_of-IsQuiet E t) (token_of-HasPayout E o t))
                        λ token. next _ _ (search keeps_rules) λ _.
                          next _ _
                            (steady_quiet _ (observe_loop-IsQuiet E _ _ _ _ _ _)
                              (observe_loop-HasPayout E o _ _ _ _ _ _))
                            λ seen. after_observation-Leads again replay seen qa kr

    pub save_steady : (phase : Phase) → Keeps (IsAt l o) (save_active_phase E phase)
    save_steady phase =
        steady_quiet _ (save_active_phase-IsQuiet E phase) (save_active_phase-HasPayout E o phase)

    pub sync_steady : Keeps (IsAt l o) (sync_report E)
    sync_steady = steady_quiet _ (sync_report-IsQuiet E) (sync_report-HasPayout E o)
