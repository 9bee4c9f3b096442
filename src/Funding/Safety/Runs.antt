-- ===== src/Funding/Safety/Runs.antt =====
-- The write-ahead journal from a prepared target on: runPositive and runActiveTarget.
use builder_code_bot.Prelude.{ℕ, zero, suc, Option, none, some, List, [], ◌∷◌, String, leb}
use builder_code_bot.Funding.Model.{Token, SpotBalanceAmounts, ActiveTarget}
use builder_code_bot.Funding.Action.{Result, ok, err, panic, Action, pure, when, ◌>>◌}
use builder_code_bot.Funding.Action.Keeps.{Keeps, keeps_rules, Keeps-bind}
use builder_code_bot.Funding.Env.{Env}
use builder_code_bot.Funding.Session.{Task, sleep}
use builder_code_bot.Funding.Run.{
  settlement_query_interval, Funds, Funding, count_answer, query_funds, underfunded, unstable,
  not_observed, after_funds, run_positive, run_target, dispatch_active, run_active_target,
}
use builder_code_bot.Funding.Safety.Quiet.{
  sleep-IsQuiet, spot_balance-IsQuiet, alert_once-IsQuiet, finish_run-IsQuiet,
}
use builder_code_bot.Funding.Safety.Journal.{KeepsJournal, quiet-KeepsJournal}
use builder_code_bot.Funding.Safety.Submit.{complete_database-KeepsJournal}
use builder_code_bot.Funding.Safety.Flow.{token_of-IsQuiet, decimal_from_string-IsQuiet}
use builder_code_bot.Funding.Safety.Execute.{execute_payout-KeepsJournal}

module _ {S A B : Type 0} {P : S → Type 0} where
  pub Keeps-option :
      (o : Option A) (n : Action S B) (f : A → Action S B)
      → Keeps P n
      → ((a : A) → Keeps P (f a))
      → Keeps P (elim o [ none ↦ n | some a ↦ f a ])
  Keeps-option none n f kn kf = kn
  Keeps-option (some a) n f kn kf = kf a

  pub Keeps-list :
      (l : List A) (n : Action S B) (f : A → List A → Action S B)
      → Keeps P n
      → ((a : A) (t : List A) → Keeps P (f a t))
      → Keeps P (elim l [ [] ↦ n | a ∷ t ↦ f a t ])
  Keeps-list [] n f kn kf = kn
  Keeps-list (a ∷ t) n f kn kf = kf a t

module _ (E : Env) where
  count_answer-KeepsJournal :
      (payout : E.Decimal) (r : Result (SpotBalanceAmounts (E.Decimal))) (f : Funds (E.Decimal))
      → KeepsJournal (count_answer E payout r f)
  unfolding count_answer
  count_answer-KeepsJournal payout (ok b) f = search keeps_rules
  count_answer-KeepsJournal payout (err e) f = search keeps_rules
  count_answer-KeepsJournal payout panic f = search keeps_rules

  query_funds-KeepsJournal :
      (settlement : String) (token : Token) (payout : E.Decimal) (left : ℕ) (f : Funds (E.Decimal))
      → KeepsJournal (query_funds E settlement token payout left f)
  unfolding query_funds
  query_funds-KeepsJournal settlement token payout zero f = search keeps_rules
  query_funds-KeepsJournal settlement token payout (suc left) f =
      Keeps-bind _ _ (search (keeps_rules, quiet-KeepsJournal, spot_balance-IsQuiet)) λ answer.
        Keeps-bind _ _ (search count_answer-KeepsJournal) λ f'.
          Keeps-option _
            (when (leb 1 left) (sleep E settlement_query_interval)
              >> query_funds E settlement token payout left f')
            (λ balance. pure (Funding.funded balance))
            (Keeps-bind (when (leb 1 left) (sleep E settlement_query_interval)) _
              (search (keeps_rules, quiet-KeepsJournal, sleep-IsQuiet))
              λ _. query_funds-KeepsJournal settlement token payout left f')
            λ b. search keeps_rules

  after_funds-KeepsJournal :
      (again : Task E (Unit {0})) (payout : E.Decimal) (f : Funding (E.Decimal))
      → KeepsJournal again
      → KeepsJournal (after_funds E again payout f)
  unfolding after_funds underfunded unstable not_observed
  after_funds-KeepsJournal again payout (Funding.funded b) ka =
      execute_payout-KeepsJournal E again b payout ka
  after_funds-KeepsJournal again payout (Funding.unfunded f) ka =
      Keeps-option f.seen _ _
        (search (keeps_rules, quiet-KeepsJournal, alert_once-IsQuiet) depth 12)
        λ b. search (keeps_rules, quiet-KeepsJournal, alert_once-IsQuiet) depth 12

  run_positive-KeepsJournal :
      (again : Task E (Unit {0})) → KeepsJournal again → KeepsJournal (run_positive E again)
  unfolding run_positive
  run_positive-KeepsJournal again ka =
      search
        (
          keeps_rules, quiet-KeepsJournal, token_of-IsQuiet, decimal_from_string-IsQuiet,
          query_funds-KeepsJournal, after_funds-KeepsJournal,
        )
        depth 20

  pub run_target-KeepsJournal :
      (again : Task E (Unit {0})) → KeepsJournal again → KeepsJournal (run_target E again)
  unfolding run_target
  run_target-KeepsJournal again ka = Keeps-bind _ _ (search keeps_rules) λ t.
      Keeps-list t.manifest.records _ _ (search (keeps_rules, complete_database-KeepsJournal))
        λ r rs.
          search (keeps_rules, complete_database-KeepsJournal, run_positive-KeepsJournal) depth 12

  dispatch_active-KeepsJournal :
      (again : Task E (Unit {0})) (a : ActiveTarget)
      → KeepsJournal again
      → KeepsJournal (dispatch_active E again a)
  unfolding dispatch_active
  dispatch_active-KeepsJournal again ActiveTarget.unsupported ka = search keeps_rules
  dispatch_active-KeepsJournal again ActiveTarget.all_completed ka =
      search (quiet-KeepsJournal, finish_run-IsQuiet)
  dispatch_active-KeepsJournal again (ActiveTarget.active t) ka = run_target-KeepsJournal again ka

  pub run_active_target-KeepsJournal : (fuel : ℕ) → KeepsJournal (run_active_target E fuel)
  unfolding run_active_target
  run_active_target-KeepsJournal zero = search keeps_rules
  run_active_target-KeepsJournal (suc fuel) =
      let ka = run_active_target-KeepsJournal fuel in
      Keeps-bind _ _ (search keeps_rules) λ run. dispatch_active-KeepsJournal _ _ ka
