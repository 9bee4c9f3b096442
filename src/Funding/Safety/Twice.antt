-- ===== src/Funding/Safety/Twice.antt =====
-- The requests of submitPayoutAttempt, its replay and submitPreparedPayout.
use builder_code_bot.Prelude.{suc, ◌≡◌, refl, inl, inr, Bool, true, false, Option, some, List, ◌∷◌}
use builder_code_bot.Funding.Model.{PreparedAction, SubmitResult, PayoutJournal, PayoutTargetState}
use builder_code_bot.Funding.Action.{Failure, ◌>>=◌, ◌>>◌}
use builder_code_bot.Funding.Action.Keeps.{keeps_rules}
use builder_code_bot.Funding.Action.Leads.{Leads, Leads-bind, Leads-crash, Leads-modify}
use builder_code_bot.Funding.Env.{Effect, Env}
use builder_code_bot.Funding.Session.{Session, Task, submit, happen, write_target}
use builder_code_bot.Funding.Safety.Payload.{save_twice-HasPayout}
use builder_code_bot.Funding.Progress.{report}
use builder_code_bot.Funding.Payout.Submit.{
  set_attempts, settle_attempt, attempt_body, replay_body, submit_payout_attempt,
  submit_prepared_payout, replay_fuel,
}
use builder_code_bot.Funding.Safety.Quiet.{quiet_rules, IsQuiet}
use builder_code_bot.Funding.Safety.Quiet.Payout.{save_twice-IsQuiet}
use builder_code_bot.Funding.Report.Update.{mark_submitted}
use builder_code_bot.Funding.Safety.Sent.{
  sent, one_more, IsAt, steady_quiet, wrote, End, EndsWell, next, settle_attempt-Leads,
  observe_body-Leads, save_steady, sync_steady,
}

module _ (E : Env) (p : PreparedAction) (base : List PreparedAction) where
  after_submit :
      (l : List PreparedAction) (j : PayoutJournal) (again observe : Task E (Unit {0}))
      (exact : Bool) (t : PayoutTargetState) (r : SubmitResult) (e : Option Failure)
      → EndsWell E p base (p ∷ l)
      → IsQuiet again
      → Leads (IsAt (p ∷ l) (some j)) observe (End E p base) (End E p base)
      → Leads
          (IsAt (p ∷ l) (some j))
          (report E (mark_submitted t.manifest.settlement)
            >> settle_attempt E again observe exact r e)
          (End E p base)
          (End E p base)
  after_submit l j again observe exact t r e k qa ko =
      next E p base (p ∷ l) (some j) k _ _ (search (keeps_rules, wrote))
        λ _. settle_attempt-Leads E p base (p ∷ l) (some j) k again observe exact r e qa ko

  -- A request leaves, and it is the journal's.
  attempt_body-Leads :
      (l : List PreparedAction) (j : PayoutJournal) (again observe : Task E (Unit {0}))
      (exact : Bool)
      → j.prepared ≡ p
      → EndsWell E p base (p ∷ l)
      → IsQuiet again
      → Leads (IsAt (p ∷ l) (some j)) observe (End E p base) (End E p base)
      → Leads (IsAt l (some j)) (attempt_body E again observe exact) (End E p base) (End E p base)
  unfolding attempt_body ◌>>=◌ submit sent
  attempt_body-Leads l j again observe exact e k qa ko = record {
    at = λ s h.
        let (r, x) = E.submit s.history j.prepared in
        let s' : Session (E.Decimal) = record s {
          target = record (s.target) { payout = some j };
        } in
        rw (h.holds) (
          (after_submit l j again observe exact s.target r x k qa ko).at
            (happen (Effect.submitted j.prepared r x) s')
            (record { sends = one_more e h.sends; holds = refl }));
  }

  spent : PayoutJournal → PayoutJournal
  spent j = record j { submit_attempts = 2 }

  reserved_again :
      (l : List PreparedAction) (j : PayoutJournal) (s : Session (E.Decimal))
      → IsAt l (some j) s
      → IsAt l
          (some (spent j))
          (write_target (λ u. record (set_attempts 2 u) { blocked_reason = "" }) s)
  unfolding spent
  reserved_again l j s h = record { sends = h.sends; holds = rw (h.holds) refl }

  replay_body-Leads :
      (l : List PreparedAction) (j : PayoutJournal) (attempt : Task E (Unit {0}))
      → EndsWell E p base l
      → Leads (IsAt l (some (spent j))) attempt (End E p base) (End E p base)
      → Leads (IsAt l (some j)) (replay_body E attempt) (End E p base) (End E p base)
  unfolding replay_body
  replay_body-Leads l j attempt k ka = next E p base l (some j) k _ _ (search keeps_rules) λ t.
      next E p base l (some j) k _ _ (search keeps_rules) λ _.
        next E p base l (some j) k _ _ (search keeps_rules) λ _.
          Leads-bind {Q = IsAt l (some (spent j))} _ _ (Leads-modify _ (reserved_again l j)) λ _.
            next E p base l (some (spent j)) k _ _
              (steady_quiet _ (save_twice-IsQuiet E _ _ λ e. search quiet_rules depth 10)
                (save_twice-HasPayout E _ _ _ λ e. search (keeps_rules) depth 10))
              λ _.
                next E p base l (some (spent j)) k _ _ (sync_steady E p base l (some (spent j)) k)
                  λ _. ka

  none_sent : EndsWell E p base base
  none_sent s h = inl h

  one_sent : EndsWell E p base (p ∷ base)
  one_sent s h = inr (inl h)

  two_sent : EndsWell E p base (p ∷ p ∷ base)
  two_sent s h = inr (inr h)

  -- The replay is the second request, and nothing follows it.
  replay-Leads :
      (j : PayoutJournal) (again : Task E (Unit {0})) (exact : Bool)
      → j.prepared ≡ p
      → IsQuiet again
      → Leads
          (IsAt (p ∷ base) (some j))
          (submit_payout_attempt E 1 again exact)
          (End E p base)
          (End E p base)
  unfolding submit_payout_attempt
  replay-Leads j again exact e qa = attempt_body-Leads (p ∷ base) j again _ exact e two_sent qa (
      observe_body-Leads E p base (p ∷ p ∷ base) (some j) two_sent again _ qa
        (replay_body-Leads (p ∷ p ∷ base) j _ two_sent (Leads-crash λ s h. two_sent s h.sends)))

  submit_payout_attempt-Twice :
      (j : PayoutJournal) (again : Task E (Unit {0})) (exact : Bool)
      → j.prepared ≡ p
      → IsQuiet again
      → Leads
          (IsAt base (some j))
          (submit_payout_attempt E (suc replay_fuel) again exact)
          (End E p base)
          (End E p base)
  unfolding submit_payout_attempt spent
  submit_payout_attempt-Twice j again exact e qa =
      attempt_body-Leads base j again _ exact e one_sent qa (
        observe_body-Leads E p base (p ∷ base) (some j) one_sent again _ qa
          (replay_body-Leads (p ∷ base) j _ one_sent (replay-Leads (spent j) again true e qa)))

  pub submit_prepared_payout-Twice :
      (j : PayoutJournal) (again : Task E (Unit {0}))
      → j.prepared ≡ p
      → IsQuiet again
      → Leads (IsAt base (some j)) (submit_prepared_payout E again) (End E p base) (End E p base)
  unfolding submit_prepared_payout
  submit_prepared_payout-Twice j again e qa =
      next E p base base (some j) none_sent _ _ (search keeps_rules) λ t.
        next E p base base (some j) none_sent _ _ (search keeps_rules) λ run.
          next E p base base (some j) none_sent _ _ (search (keeps_rules, wrote) depth 12) λ _.
            next E p base base (some j) none_sent _ _ (search (keeps_rules, wrote) depth 12) λ _.
              next E p base base (some j) none_sent _ _
                (search (keeps_rules, wrote, save_steady E p base base (some j) none_sent) depth 12)
                λ _.
                  next E p base base (some j) none_sent _ _
                    (sync_steady E p base base (some j) none_sent)
                    λ _. submit_payout_attempt-Twice j again false e qa
