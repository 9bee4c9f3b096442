-- ===== src/Tests/Payout.antt =====
-- Concrete inputs for the validation and the observation of payouts.
use builder_code_bot.Prelude.{◌↔◌, ◌≡◌, refl, none, some}
use builder_code_bot.Prelude.Int.{pos, ◌-ℤ◌}
use builder_code_bot.Prelude.Text.{equal_fold}
use builder_code_bot.Funding.Model.{Phase, PayoutJournal, SpotBalanceAmounts}
use builder_code_bot.Funding.Action.{ok, ◌>>=◌}
use builder_code_bot.Funding.Env.{Env}
use builder_code_bot.Funding.Session.{Session, sleep, spot_balance}
use builder_code_bot.Funding.Run.{Funding, no_funds, query_funds, run_active_target, run_fuel}
use builder_code_bot.Funding.Run.Stable.{IsStable, query_funds_funded}
use builder_code_bot.Funding.Payout.Submit.{submit_prepared_payout, observe_uncertain_payout}
use builder_code_bot.Funding.Fuel.Replay.{IsSpent}
use builder_code_bot.Funding.Safety.Sent.{sent, AtMostTwice}
use builder_code_bot.Funding.Safety.Requests.{
  submit_prepared_payout_sends, observe_uncertain_payout_sends,
}
use builder_code_bot.Funding.Validation.{validate_prepared_payout, validate_payout_journal}
use builder_code_bot.Funding.Validation.Sound.{
  IsFaithful, IsFrozen, validate_prepared_payout_lem, validate_payout_journal_lem,
}
use builder_code_bot.Funding.Payout.Evidence.{Watch, Observed, fresh, decreased, observe_loop}
use builder_code_bot.Funding.Payout.Exhausted.{IsTally, observe_loop_exhausted}
use builder_code_bot.Funding.Payout.Watching.{AllGive, balances, observe_loop_confirmed}
use builder_code_bot.Tests.World.{parse_whole, world, usdc, request, target_at, start}

accepted : validate_prepared_payout world (target_at Phase.payout_submitting 1) request ≡ none
unfolding validate_prepared_payout parse_whole equal_fold
accepted = refl

validate_prepared_payout_lem_example :
    (validate_prepared_payout world (target_at Phase.payout_submitting 1) request ≡ none)
    ↔ IsFaithful world (target_at Phase.payout_submitting 1) request
validate_prepared_payout_lem_example =
    validate_prepared_payout_lem world (target_at Phase.payout_submitting 1) request

valid : validate_payout_journal world (target_at Phase.payout_submitting 1) ≡ none
unfolding validate_payout_journal parse_whole equal_fold
valid = refl

validate_payout_journal_lem_example :
    (validate_payout_journal world (target_at Phase.payout_submitting 1) ≡ none) ↔ (
      (j : PayoutJournal) × ((target_at Phase.payout_submitting 1).payout ≡ some j)
      × IsFaithful world (target_at Phase.payout_submitting 1) j.prepared
      × IsFrozen world (target_at Phase.payout_submitting 1) j)
validate_payout_journal_lem_example =
    validate_payout_journal_lem world (target_at Phase.payout_submitting 1)

-- The settlement account holds 15 of the 20 that it had before a payout of 5.
abbrev paid : Env
paid = record world { spot_balance = λ _ _ _. ok (record { total = pos 15; available = pos 15 }) }

confirms :
    (observe_loop paid "0xa" usdc (pos 20) (pos 5) 20 fresh start).0
    ≡ ok (Observed.confirmed decreased)
unfolding observe_loop ◌>>=◌ sleep spot_balance ◌-ℤ◌
confirms = refl

observe_loop_confirmed_example :
    AllGive paid
      (pos 20)
      (pos 5)
      2
      decreased
      (balances (observe_loop paid "0xa" usdc (pos 20) (pos 5) 20 fresh start).1.history)
observe_loop_confirmed_example =
    observe_loop_confirmed paid (pos 20) (pos 5) "0xa" usdc 20 start decreased confirms

-- The settlement account holds the 20 that it had before.
abbrev unpaid : Env
unpaid = record world { spot_balance = λ _ _ _. ok (record { total = pos 20; available = pos 20 }) }

-- Ten balances that have not moved: what a replay asks for.
abbrev unmoved : Watch
unmoved = record fresh { successful = 10 }

exhausts :
    (observe_loop unpaid "0xa" usdc (pos 20) (pos 5) 20 fresh start).0
    ≡ ok (Observed.exhausted unmoved)
unfolding observe_loop ◌>>=◌ sleep spot_balance ◌-ℤ◌
exhausts = refl

observe_loop_exhausted_example :
    IsTally unpaid
      (pos 20)
      (pos 5)
      (balances start.history)
      unmoved
      (balances (observe_loop unpaid "0xa" usdc (pos 20) (pos 5) 20 fresh start).1.history)
observe_loop_exhausted_example =
    observe_loop_exhausted unpaid (pos 20) (pos 5) "0xa" usdc 20 start unmoved exhausts

-- The balance of 15 covers a payout of 5, and two queries find it.
abbrev fifteen : SpotBalanceAmounts (paid.Decimal)
fifteen = record { total = pos 15; available = pos 15 }

funds : (query_funds paid "0xa" usdc (pos 5) 5 no_funds start).0 ≡ ok (Funding.funded fifteen)
unfolding query_funds ◌>>=◌ sleep spot_balance
funds = refl

query_funds_funded_example :
    IsStable paid
      (pos 5)
      fifteen
      (balances (query_funds paid "0xa" usdc (pos 5) 5 no_funds start).1.history)
query_funds_funded_example = query_funds_funded paid (pos 5) "0xa" usdc 5 start fifteen funds

-- The session before the first request, and the one before the replay.
abbrev ready : Session (paid.Decimal)
ready = record start { target = target_at Phase.payout_prepared 1 }

abbrev replaying : Session (paid.Decimal)
replaying = record start { target = target_at Phase.payout_replaying 2 }

submit_prepared_payout_sends_example :
    AtMostTwice request
      (sent ready.history)
      (sent (submit_prepared_payout paid (run_active_target paid run_fuel) ready).1.history)
submit_prepared_payout_sends_example =
    submit_prepared_payout_sends paid ready
      (record { prepared = request; total_before = "20"; submit_attempts = 1 }) refl

replaying-IsSpent : IsSpent replaying
replaying-IsSpent = record { at = λ j q. cc }

observe_uncertain_payout_sends_example :
    sent (observe_uncertain_payout paid (run_active_target paid run_fuel) replaying).1.history
    ≡ sent replaying.history
observe_uncertain_payout_sends_example =
    observe_uncertain_payout_sends paid replaying replaying-IsSpent
