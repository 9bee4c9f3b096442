-- ===== src/Funding/Payout/Evidence.antt =====
-- payoutSettlementBoundaries, payoutSettlementEvidence and the loop of observeUncertainPayout.
use builder_code_bot.Prelude.{
  ℕ, zero, suc, ◌+◌, Bool, true, false, ◌&&◌, not, Option, none, some, String, ltb, leb,
  if◌then◌else◌,
}
use builder_code_bot.Prelude.Text.{text_eq}
use builder_code_bot.Funding.Model.{Token, SpotBalanceAmounts}
use builder_code_bot.Funding.Action.{Result, ok, err, panic, pure, crash, capture, ◌>>=◌, ◌>>◌}
use builder_code_bot.Funding.Env.{Env}
use builder_code_bot.Funding.Session.{Task, sleep, spot_balance, check_context}

abbrev pub observation_attempts : ℕ
observation_attempts = 10

abbrev pub query_attempts : ℕ
query_attempts = 20

abbrev pub required_confirmations : ℕ
required_confirmations = 2

abbrev pub observation_interval : ℕ
observation_interval = 1000

abbrev pub decreased : String
decreased = "settlement_balance_decreased"

abbrev pub decreased_with_fee : String
decreased_with_fee = "settlement_balance_decreased_with_activation_fee"

-- The variables of the loop; `last_evidence` is "" where no evidence was seen last.
pub record Watch : Type 0 where
  pub successful : ℕ
  pub confirmations : ℕ
  pub query_errors : ℕ
  pub all_at_before : Bool
  pub last_evidence : String

abbrev pub fresh : Watch
fresh = record {
  successful = 0;
  confirmations = 0;
  query_errors = 0;
  all_at_before = true;
  last_evidence = "";
}

abbrev failed_query : Watch → Watch
failed_query w = record w {
  confirmations = 0;
  query_errors = w.query_errors + 1;
  last_evidence = "";
}

-- How the loop ends: two equal evidences in a row, or its budget used up.
pub data Observed : Type 0 where
  confirmed : String → Observed
  exhausted : Watch → Observed

module _ (E : Env) where
  open E use {Decimal}

  unfoldable pub without_fee : Decimal → Decimal → Decimal
  without_fee before amount = E.sub before amount

  unfoldable pub with_fee : Decimal → Decimal → Decimal
  unfolding without_fee
  with_fee before amount = E.sub (without_fee before amount) (E.from_int 1)

  -- `none` is the code's ("", false).
  unfoldable pub settlement_evidence : Decimal → Decimal → Decimal → Option String
  unfolding without_fee with_fee
  settlement_evidence total before amount =
      let plain = without_fee before amount in
      let charged = with_fee before amount in
      if not (E.is_negative plain) && E.equal total plain
      then some decreased
      else if not (E.is_negative charged) && E.equal total charged
      then some decreased_with_fee
      else none

  unfoldable pub count_evidence : Option String → Watch → Watch
  count_evidence none w = record w { confirmations = 0; last_evidence = "" }
  count_evidence (some evidence) w =
      if text_eq evidence w.last_evidence
      then record w { confirmations = suc w.confirmations }
      else record w { confirmations = 1; last_evidence = evidence }

  unfoldable pub observe_total : Decimal → Decimal → Decimal → Watch → Watch
  unfolding count_evidence settlement_evidence
  observe_total before amount total w =
      count_evidence (settlement_evidence total before amount) (record w {
        successful = w.successful + 1;
        all_at_before = if E.equal total before then w.all_at_before else false;
      })

  module _ (settlement : String) (token : Token) (before amount : Decimal) where
    -- One query's answer: a failed query is forgiven unless the task's context has ended.
    unfoldable pub after_query : Result (SpotBalanceAmounts Decimal) → Watch → Task E Watch
    unfolding observe_total
    after_query (ok balance) w = pure (observe_total before amount balance.total w)
    after_query (err e) w = do check_context E; pure (failed_query w)
    after_query panic w = crash

    unfoldable pub query : Watch → Task E Watch
    unfolding after_query
    query w = do r ← capture (spot_balance E settlement token); after_query r w

    -- One round: a wait, a query, and the end or the rounds that are left.
    unfoldable pub observe_round : (Watch → Task E Observed) → Watch → Task E Observed
    unfolding query
    observe_round rest w = do
      sleep E observation_interval
      w' ← query w
      if leb required_confirmations w'.confirmations
          then pure (Observed.confirmed w'.last_evidence)
          else rest w'

    -- The loop, with the queries that are left of `query_attempts`.
    unfoldable pub observe_loop : ℕ → Watch → Task E Observed
    unfolding observe_round
    observe_loop zero w = pure (Observed.exhausted w)
    observe_loop (suc left) w =
        if ltb w.successful observation_attempts
        then observe_round (observe_loop left) w
        else pure (Observed.exhausted w)
