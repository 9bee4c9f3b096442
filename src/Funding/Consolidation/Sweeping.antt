-- ===== src/Funding/Consolidation/Sweeping.antt =====
-- How many requests a consolidation sends.
use builder_code_bot.Prelude.{
  refl, true, ℕ, zero, suc, ◌+◌, ◌*◌, Bool, Option, none, List, [], ◌∷◌, String, arith,
}
use builder_code_bot.Prelude.Dict.{Dict}
use builder_code_bot.Funding.Model.{Token, SpotBalanceAmounts, PreparedAction, SubmitResult}
use builder_code_bot.Funding.Action.{Failure, Result, ok, err, panic}
use builder_code_bot.Funding.Env.{Env}
use builder_code_bot.Funding.Session.{Task}
use builder_code_bot.Funding.Safety.Quiet.{
  IsQuiet, sleep-IsQuiet, spot_balance-IsQuiet, check_context-IsQuiet, next_nonce-IsQuiet,
}
use builder_code_bot.Funding.Safety.Quiet.Calls.{call_rules}
use builder_code_bot.Funding.Consolidation.Baselines.{Repeat}
use builder_code_bot.Funding.Consolidation.Sweep.{
  load_sweep_balance, after_submit, after_prepare, after_load, sweep_amount, sweep_attempts,
  sweep_builders, sweep_builder_balances,
}
use builder_code_bot.Funding.Consolidation.Calls.{
  builder_failure-IsQuiet, capture_claim_balance_baselines-IsQuiet,
}
use builder_code_bot.Funding.Consolidation.Costs.{
  Costs, cost, Any, Costs-then, Costs-quiet, Costs-le, Costs-if, Costs-bind, Costs-after,
  Costs-before,
}
use builder_code_bot.Funding.Consolidation.Costs.Calls.{
  Prepared, Costs-submit, Costs-prepare_spot_send,
}
use builder_code_bot.Funding.Consolidation.Watching.{
  record_builder_balance-IsQuiet, observe_claim_balances-IsQuiet,
}
use builder_code_bot.Funding.Consolidation.Spending.{total, IsCharged, claim_builder_rewards-Costs}
use builder_code_bot.Funding.Consolidation.Run.{claim_and_sweep}

module _ (E : Env) where
  open E use {Decimal}

  load_sweep_balance-IsQuiet :
      (token : Token) (b : String) (minimum : Option Decimal) (left : ℕ)
      (seen : Option (Repeat Decimal)) (e : Option Failure)
      → IsQuiet (load_sweep_balance E token b minimum left seen e)
  unfolding load_sweep_balance
  load_sweep_balance-IsQuiet token b minimum zero seen e = search call_rules
  load_sweep_balance-IsQuiet token b minimum (suc left) seen e =
      search
        (
          call_rules,
          spot_balance-IsQuiet,
          sleep-IsQuiet,
          record_builder_balance-IsQuiet,
          load_sweep_balance-IsQuiet token b minimum left,
        )
        depth 16

-- `c` for each of `k`
abbrev pub times : ℕ → ℕ → ℕ
times zero c = 0
times (suc k) c = c + times k c

module _ (E : Env) (p : PreparedAction → Bool) (w : String → ℕ) (charged : IsCharged E p w) where
  open E use {Decimal}

  module _ (b : String) (n : ℕ) (retry : Option Decimal → Task E (Unit {0}))
      (next : (a : Option Decimal) → Costs p n Any (retry a)) where
    quiet-Costs : (m : Task E (Unit {0})) → IsQuiet m → Costs p n Any m
    quiet-Costs m q = Costs-le 0 n _ (omega arith) (Costs-quiet m q)

    quiet-more : (m : Task E (Unit {0})) → IsQuiet m → Costs p (w b + n) Any m
    quiet-more m q = Costs-le 0 (w b + n) _ (omega arith) (Costs-quiet m q)

    after_submit-Costs :
        (u : Bool) (left : ℕ) (x : Decimal) (a : Option Decimal) (r : SubmitResult)
        (e : Option Failure)
        → Costs p n Any (after_submit E retry b u left x a r e)
    unfolding after_submit
    after_submit-Costs u left x a r e =
        search (Costs-if, quiet-Costs, next, call_rules, builder_failure-IsQuiet) depth 20

    after_prepare-Costs :
        (u : Bool) (left : ℕ) (x : Decimal) (a : Option Decimal) (r : Result PreparedAction)
        → Prepared p (w b) r
        → Costs p (w b + n) Any (after_prepare E retry b u left x a r)
    unfolding after_prepare
    after_prepare-Costs u left x a (ok action) fits =
        Costs-bind (w b) n _ _
          (Costs-le (cost p action) (w b) _ (fits action refl) (Costs-submit E action))
          λ (r, e) _.
            Costs-after n _ _ (search call_rules)
              λ _. Costs-after n _ _ (search call_rules) λ _. after_submit-Costs u left x a r e
    after_prepare-Costs u left x a (err e) fits =
        Costs-le n (w b + n) _ (omega arith)
          (search (Costs-if, quiet-Costs, next, builder_failure-IsQuiet) depth 12)
    after_prepare-Costs u left x a panic fits = quiet-more _ (search call_rules)

    after_load-Costs :
        (token : Token) (u : Bool) (left : ℕ) (a : Option Decimal)
        (r : Result (SpotBalanceAmounts Decimal))
        → Costs p (w b + n) Any (after_load E retry token b u left a r)
    unfolding after_load
    after_load-Costs token u left a (ok x) =
        Costs-if (w b + n) (E.is_positive (sweep_amount E x.available a)) _ _
          (λ _. Costs-after (w b + n) _ _ (next_nonce-IsQuiet E) λ nonce.
            Costs-then (w b + n) _ _
              (Costs-prepare_spot_send E b E.settlement token _ nonce (w b)
                (charged.sends b E.settlement token _ nonce))
              λ prepared fits. after_prepare-Costs u left _ a prepared fits)
          λ _. quiet-more _ (search call_rules)
    after_load-Costs token u left a (err e) =
        quiet-more _ (search (call_rules, check_context-IsQuiet, builder_failure-IsQuiet))
    after_load-Costs token u left a panic = quiet-more _ (search call_rules)

  sweep_attempts-Costs :
      (token : Token) (b : String) (floor : Option Decimal) (u : Bool) (left : ℕ)
      (a : Option Decimal)
      → Costs p (times left (w b)) Any (sweep_attempts E token b floor u left a)
  unfolding sweep_attempts
  sweep_attempts-Costs token b floor u zero a = Costs-quiet _ (search call_rules)
  sweep_attempts-Costs token b floor u (suc left) a =
      let most = w b + times left (w b) in
      Costs-after most _ _ (search (call_rules, sleep-IsQuiet)) λ _.
        Costs-after most _ _ (search (call_rules, load_sweep_balance-IsQuiet)) λ r.
          after_load-Costs b (times left (w b)) (sweep_attempts E token b floor u left)
            (sweep_attempts-Costs token b floor u left) token u left a r

  sweep_builders-Costs :
      (token : Token) (x : Dict (SpotBalanceAmounts Decimal)) (u : Dict (Unit {0}))
      (l : List String)
      → Costs p (3 * total w l) Any (sweep_builders E token x u l)
  unfolding sweep_builders
  sweep_builders-Costs token x u [] = Costs-quiet _ (search call_rules)
  sweep_builders-Costs token x u (b ∷ bs) =
      Costs-after (3 * (w b + total w bs)) _ _ (check_context-IsQuiet E) λ _.
        Costs-le (times 3 (w b) + 3 * total w bs) (3 * (w b + total w bs)) _ (omega arith) (
          Costs-bind (times 3 (w b)) (3 * total w bs) _ _ (sweep_attempts-Costs token b _ _ 3 none)
            λ _ _. sweep_builders-Costs token x u bs)

  -- One claim and three sweeps for each builder.
  pub claim_and_sweep-Costs :
      (token : Token) (c : Dict Decimal)
      → Costs p (4 * total w E.builders) Any (claim_and_sweep E token c)
  unfolding claim_and_sweep sweep_builder_balances
  claim_and_sweep-Costs token c =
      let all = total w E.builders in
      Costs-after (4 * all) _ _ (capture_claim_balance_baselines-IsQuiet E token c) λ baselines.
        Costs-le (all + 3 * all) _ _ (omega arith) (
          Costs-bind all (3 * all) _ _ (claim_builder_rewards-Costs E p w charged token c baselines)
            λ targets _.
              Costs-after (3 * all) _ _ (observe_claim_balances-IsQuiet E token targets) λ (x, u).
                Costs-after (3 * all) _ _ (search call_rules) λ _.
                  Costs-before (3 * all) _ _
                    (Costs-after (3 * all) _ _ (check_context-IsQuiet E)
                      λ _. sweep_builders-Costs token x u E.builders)
                    λ _. search call_rules)

-- Every request counts, and each account is charged with one.
pub all-IsCharged : (E : Env) → IsCharged E (λ _. true) (λ _. 1)
all-IsCharged E = record {
  claims = λ b nonce h a q. omega arith;
  sends = λ b to token amount nonce h a q. omega arith;
}
