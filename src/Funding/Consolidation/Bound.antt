-- ===== src/Funding/Consolidation/Bound.antt =====
-- How many requests a whole consolidation sends: internal/funding/consolidation.go and
-- internal/funding/daily_consolidation.go.
use builder_code_bot.Prelude.{
  ℕ, ◌+◌, ◌*◌, ◌≤◌, ◌≡◌, refl, subst, Bool, List, [], ◌∷◌, length, String, arith, if◌then◌else◌,
}
use builder_code_bot.Prelude.Text.{codes_eq, address_key}
use builder_code_bot.Prelude.Dict.{Dict}
use builder_code_bot.Funding.Action.{ok}
use builder_code_bot.Funding.Model.{Trigger, Token, PreparedAction}
use builder_code_bot.Funding.Env.{History, Env}
use builder_code_bot.Funding.Session.{Session, Task}
use builder_code_bot.Funding.Safety.Quiet.{
  IsQuiet, now-IsQuiet, report-IsQuiet, check_context-IsQuiet, forget_alerts-IsQuiet,
}
use builder_code_bot.Funding.Safety.Quiet.Calls.{
  call_rules, load_daily-IsQuiet, observe_user_rate_limits-IsQuiet,
}
use builder_code_bot.Funding.Consolidation.Calls.{
  query_consolidation_token-IsQuiet, capture_builder_claimables-IsQuiet,
}
use builder_code_bot.Funding.Consolidation.Captured.{new_state-IsQuiet, record_daily-IsQuiet}
use builder_code_bot.Funding.Consolidation.Costs.{
  submissions, requests, all_requests, cost, Costs, Any, Costs-after, Costs-before, Costs-skip,
}
use builder_code_bot.Funding.Consolidation.Costs.Calls.{Costs-deferring, Costs-on_option}
use builder_code_bot.Funding.Consolidation.Sweeping.{claim_and_sweep-Costs, all-IsCharged}
use builder_code_bot.Funding.Consolidation.Spending.{total, IsCharged}
use builder_code_bot.Funding.Consolidation.Run.{
  claim_and_sweep, consolidate, run_consolidation, run_consolidate_only,
}
use builder_code_bot.Funding.Consolidation.Daily.{
  start_daily, consolidate_date, run_daily_consolidation,
}

-- What PrepareClaim and PrepareSpotSend prepare for an account is signed by that address, which the client writes
-- in its canonical form.
pub record SignsFor (E : Env) : Type 0 where
  pub claims :
      (h : History (E.Decimal)) (b : String) (nonce : ℕ) (a : PreparedAction)
      → E.prepare_claim h b nonce ≡ ok a
      → address_key a.signer ≡ address_key b
  pub sends :
      (h : History (E.Decimal)) (b to : String) (token : Token) (amount : E.Decimal) (nonce : ℕ)
      (a : PreparedAction)
      → E.prepare_spot_send h b to token amount nonce ≡ ok a
      → address_key a.signer ≡ address_key b

abbrev pub signed_by : String → PreparedAction → Bool
signed_by builder a = codes_eq (address_key a.signer) (address_key builder)

abbrev charge : String → String → ℕ
charge builder b = if codes_eq (address_key b) (address_key builder) then 1 else 0

-- How often a builder's address is in a list.
abbrev pub occurrences : String → List String → ℕ
occurrences builder l = total (charge builder) l

total-length : (l : List String) → total (λ _. 1) l ≡ length l
total-length [] = refl
total-length (b ∷ l) = omega (arith, total-length l)

signed :
    (builder b : String) (a : PreparedAction)
    → address_key a.signer ≡ address_key b
    → cost (signed_by builder) a ≤ charge builder b
signed builder b a q =
    subst (λ k. cost (signed_by builder) a ≤ (if codes_eq k (address_key builder) then 1 else 0)) q
      (omega arith)

one-IsCharged :
    (E : Env) (builder : String) → SignsFor E → IsCharged E (signed_by builder) (charge builder)
one-IsCharged E builder k = record {
  claims = λ b nonce h a q. signed builder b a (k.claims h b nonce a q);
  sends =
      λ b to token amount nonce h a q. signed builder b a (k.sends h b to token amount nonce a q);
}

module _ (E : Env) (p : PreparedAction → Bool) (w : String → ℕ) (charged : IsCharged E p w) where
  open E use {Decimal}

  abbrev CostsFour : {B : Type 0} → Task E B → Type 0
  CostsFour m = Costs p (4 * total w E.builders) Any m

  sweep-Costs : (token : Token) (c : Dict Decimal) → CostsFour (claim_and_sweep E token c)
  sweep-Costs = claim_and_sweep-Costs E p w charged

  consolidate-Costs :
      (on_captured : Task E (Unit {0}))
      → IsQuiet on_captured
      → CostsFour (consolidate E on_captured)
  unfolding consolidate
  consolidate-Costs on_captured q =
      search
        (
          Costs-after, call_rules, query_consolidation_token-IsQuiet,
          capture_builder_claimables-IsQuiet, now-IsQuiet, report-IsQuiet, sweep-Costs,
        )
        depth 20

  run_consolidation-Costs :
      (t : Trigger) (on_captured : Task E (Unit {0}))
      → IsQuiet on_captured
      → CostsFour (run_consolidation E t on_captured)
  unfolding run_consolidation
  run_consolidation-Costs t on_captured q = Costs-after _ _ _ (new_state-IsQuiet E t) λ _.
      Costs-deferring _ _ _
        (search
          (
            Costs-after, Costs-deferring, call_rules, now-IsQuiet, consolidate-Costs,
            observe_user_rate_limits-IsQuiet,
          )
          depth 20)
        λ _. forget_alerts-IsQuiet E

  start_daily-Costs : (d : String) → CostsFour (start_daily E d)
  unfolding start_daily
  start_daily-Costs d =
      Costs-before _ _ _ (run_consolidation-Costs _ _ (record_daily-IsQuiet E _ _ _ _))
        λ _. search (call_rules, now-IsQuiet, record_daily-IsQuiet)

  run_daily-Costs : CostsFour (run_daily_consolidation E)
  unfolding run_daily_consolidation consolidate_date
  run_daily-Costs =
      search
        (
          Costs-after, Costs-on_option, call_rules, check_context-IsQuiet, now-IsQuiet,
          load_daily-IsQuiet, start_daily-Costs, Costs-skip,
        )
        depth 20

  bounded :
      (s : Session Decimal)
      → (requests p (run_consolidate_only E s).1.history
          ≤ 4 * total w E.builders + requests p s.history)
        × (requests p (run_daily_consolidation E s).1.history
            ≤ 4 * total w E.builders + requests p s.history)
  unfolding run_consolidate_only
  bounded s =
      ((run_consolidation-Costs _ _ (search call_rules)).bounded s, run_daily-Costs.bounded s)

module _ (E : Env) (s : Session (E.Decimal)) where
  all_bounded :
      (submissions (run_consolidate_only E s).1.history
        ≤ 4 * length E.builders + submissions s.history)
      × (submissions (run_daily_consolidation E s).1.history
          ≤ 4 * length E.builders + submissions s.history)
  all_bounded =
      let (x, y) = bounded E _ _ (all-IsCharged E) s in
      let n = total-length E.builders in
      let before = all_requests s.history in
      (
        omega (arith, x, n, before, all_requests (run_consolidate_only E s).1.history),
        omega (arith, y, n, before, all_requests (run_daily_consolidation E s).1.history),
      )

  -- In every environment that signs what it prepares for an account with that account, and however it
  -- ends, a consolidation sends at most four requests signed by a builder, its claim and three attempts of
  -- its sweep, for each time that the builder is configured, and at most four for each builder in
  -- all; so does the daily consolidation.
  pub run_consolidate_only-submissions :
      (builder : String)
      → SignsFor E
      → let p = signed_by builder in
        let n = occurrences builder E.builders in
        ((requests p (run_consolidate_only E s).1.history ≤ 4 * n + requests p s.history)
          × (requests p (run_daily_consolidation E s).1.history ≤ 4 * n + requests p s.history))
        × ((submissions (run_consolidate_only E s).1.history
              ≤ 4 * length E.builders + submissions s.history)
            × (submissions (run_daily_consolidation E s).1.history
                ≤ 4 * length E.builders + submissions s.history))
  run_consolidate_only-submissions builder k =
      (bounded E _ _ (one-IsCharged E builder k) s, all_bounded)
