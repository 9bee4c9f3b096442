-- ===== src/Funding/Safety/Flow.antt =====
-- The write-ahead journal through a submission, its observation and its replay.
use builder_code_bot.Prelude.{ℕ, zero, suc, Bool, true, Option, none, some, String}
use builder_code_bot.Funding.Model.{PayoutTargetState}
use builder_code_bot.Funding.Action.Keeps.{keeps_rules}
use builder_code_bot.Funding.Action.Leads.{Leads, Leads-of_state, Leads-of_Keeps}
use builder_code_bot.Funding.Env.{Env}
use builder_code_bot.Funding.Session.{Task}
use builder_code_bot.Funding.Payout.Evidence.{Observed}
use builder_code_bot.Funding.Payout.Submit.{
  decimal_from_string, journal_of, token_of, after_observation, observe_body, submit_payout_attempt,
  observe_uncertain_payout, replay_fuel,
}
use builder_code_bot.Funding.Safety.Quiet.{IsQuiet, quiet_rules}
use builder_code_bot.Funding.Safety.Quiet.Payout.{
  observe_loop-IsQuiet, block_uncertain_payout-IsQuiet,
}
use builder_code_bot.Funding.Safety.Journal.{KeepsJournal, quiet-KeepsJournal, IsReady}
use builder_code_bot.Funding.Safety.Boundary.{IsSafe}
use builder_code_bot.Funding.Safety.Submit.{confirm_payout-KeepsJournal, attempt_body-IsJournaled}
use builder_code_bot.Funding.Safety.Replay.{replay_body-KeepsJournal}

parsed-IsQuiet :
    {A B : Type 0} (o : Option A) (f : A → _) (n : _)
    → IsQuiet {A = B} {B = A} n
    → ((a : A) → IsQuiet (f a))
    → IsQuiet (elim o [ none ↦ n | some a ↦ f a ])
parsed-IsQuiet none f n kn kf = kn
parsed-IsQuiet (some a) f n kn kf = kf a

module _ (E : Env) where
  pub decimal_from_string-IsQuiet : (text : String) → IsQuiet (decimal_from_string E text)
  unfolding decimal_from_string
  decimal_from_string-IsQuiet text =
      parsed-IsQuiet (E.from_string text) _ _ (search quiet_rules) λ a. search quiet_rules

  pub journal_of-IsQuiet : (t : PayoutTargetState) → IsQuiet (journal_of E t)
  unfolding journal_of
  journal_of-IsQuiet t = parsed-IsQuiet t.payout _ _ (search quiet_rules) λ a. search quiet_rules

  pub token_of-IsQuiet : (t : PayoutTargetState) → IsQuiet (token_of E t)
  unfolding token_of
  token_of-IsQuiet t =
      parsed-IsQuiet t.manifest.token _ _ (search quiet_rules) λ a. search quiet_rules

  after_observation-KeepsJournal :
      (again replay : Task E (Unit {0})) (seen : Observed)
      → KeepsJournal again
      → KeepsJournal replay
      → KeepsJournal (after_observation E again replay seen)
  unfolding after_observation
  after_observation-KeepsJournal again replay (Observed.confirmed evidence) ka kr =
      search (confirm_payout-KeepsJournal)
  after_observation-KeepsJournal again replay (Observed.exhausted w) ka kr =
      search (keeps_rules, quiet-KeepsJournal, journal_of-IsQuiet, block_uncertain_payout-IsQuiet)
        depth 20

  observe_body-KeepsJournal :
      (again replay : Task E (Unit {0}))
      → KeepsJournal again
      → KeepsJournal replay
      → KeepsJournal (observe_body E again replay)
  unfolding observe_body
  observe_body-KeepsJournal again replay ka kr =
      search
        (
          keeps_rules, quiet-KeepsJournal, journal_of-IsQuiet, token_of-IsQuiet,
          decimal_from_string-IsQuiet, observe_loop-IsQuiet, after_observation-KeepsJournal,
        )
        depth 40

  pub submit_payout_attempt-Leads :
      (fuel : ℕ) (again : Task E (Unit {0})) (exact : Bool)
      → KeepsJournal again
      → Leads IsReady (submit_payout_attempt E fuel again exact) IsSafe IsSafe
  unfolding submit_payout_attempt
  submit_payout_attempt-Leads zero again exact ka =
      Leads-of_Keeps _ (λ s p. p.before) (search keeps_rules)
  submit_payout_attempt-Leads (suc fuel) again exact ka =
      let kr = replay_body-KeepsJournal E _ (submit_payout_attempt-Leads fuel again true ka) in
      Leads-of_state _ λ s p.
        attempt_body-IsJournaled E again _ exact s ka (observe_body-KeepsJournal again _ ka kr) p

  pub observe_uncertain_payout-KeepsJournal :
      (again : Task E (Unit {0}))
      → KeepsJournal again
      → KeepsJournal (observe_uncertain_payout E again)
  unfolding observe_uncertain_payout
  observe_uncertain_payout-KeepsJournal again ka =
      observe_body-KeepsJournal again _ ka
        (replay_body-KeepsJournal E _ (submit_payout_attempt-Leads replay_fuel again true ka))
