-- ===== src/Funding/Consolidation/Spending.antt =====
-- How many requests the claims of a consolidation send.
use builder_code_bot.Prelude.{
  ℕ, zero, suc, ◌+◌, ◌≤◌, ◌≡◌, refl, Bool, true, false, Option, none, some, List, [], ◌∷◌, String,
  length, arith, if◌then◌else◌,
}
use builder_code_bot.Prelude.Dict.{Dict, find, has_key}
use builder_code_bot.Funding.Model.{Token, PreparedAction, SpotBalanceAmounts, SubmitResult}
use builder_code_bot.Funding.Action.{Failure}
use builder_code_bot.Funding.Env.{History, Env}
use builder_code_bot.Funding.Session.{Task}
use builder_code_bot.Funding.Safety.Quiet.{
  IsQuiet, IsQuiet-bind, check_context-IsQuiet, next_nonce-IsQuiet,
}
use builder_code_bot.Funding.Safety.Quiet.Calls.{call_rules}
use builder_code_bot.Funding.Consolidation.Parallel.{insert_at, interleave, call_all, gather}
use builder_code_bot.Funding.Consolidation.Baselines.{claim_eligible}
use builder_code_bot.Funding.Consolidation.Claims.{
  ClaimAttempt, Target, select_claims, draw_nonces, claim, settle_claim, settle_attempt,
  settle_claims, claim_builder_rewards,
}
use builder_code_bot.Funding.Consolidation.Calls.{builder_failure-IsQuiet}
use builder_code_bot.Funding.Consolidation.Costs.{
  Costs, cost, Any, Costs-le, Costs-pure, Costs-if, Costs-gets, Costs-weaken, Costs-bind,
  Costs-then, Costs-after, Costs-before,
}
use builder_code_bot.Funding.Consolidation.Costs.Calls.{
  Prepared, Costs-on_result, Costs-submit, Costs-prepare_claim,
}

-- What is charged for each text of a list.
abbrev pub total : (String → ℕ) → List String → ℕ
total w [] = 0
total w (b ∷ l) = w b + total w l

total-insert_at :
    (w : String → ℕ) (n : ℕ) (x : String) (l : List String)
    → total w (insert_at n x l) ≡ w x + total w l
unfolding insert_at
total-insert_at w zero x l = refl
total-insert_at w (suc n) x [] = refl
total-insert_at w (suc n) x (y ∷ l) = omega (arith, total-insert_at w n x l)

total-interleave :
    (w : String → ℕ) (f : ℕ → ℕ) (l : List String) → total w (interleave f l) ≡ total w l
unfolding interleave
total-interleave w f [] = refl
total-interleave w f (x ∷ l) =
    omega (arith, total-insert_at w (f (length l)) x (interleave f l), total-interleave w f l)

-- What is prepared for an account costs at most its charge.
pub record IsCharged (E : Env) (p : PreparedAction → Bool) (w : String → ℕ) : Type 0 where
  pub claims :
      (b : String) (nonce : ℕ) (h : History (E.Decimal))
      → Prepared p (w b) (E.prepare_claim h b nonce)
  pub sends :
      (b to : String) (token : Token) (amount : E.Decimal) (nonce : ℕ) (h : History (E.Decimal))
      → Prepared p (w b) (E.prepare_spot_send h b to token amount nonce)

module _ (E : Env) where
  open E use {Decimal}

  settle_claim-IsQuiet :
      (b : String) (t : Target E) (r : SubmitResult) (e : Option Failure)
      → IsQuiet (settle_claim E b t r e)
  unfolding settle_claim
  settle_claim-IsQuiet b t r (some e) = search call_rules depth 12
  settle_claim-IsQuiet b t r none = search (call_rules, builder_failure-IsQuiet) depth 16

  settle_attempt-IsQuiet :
      (b : String) (t : Target E) (a : ClaimAttempt) → IsQuiet (settle_attempt E b t a)
  unfolding settle_attempt
  settle_attempt-IsQuiet b t (ClaimAttempt.prepare_failed e) =
      search (call_rules, builder_failure-IsQuiet)
  settle_attempt-IsQuiet b t (ClaimAttempt.returned r e) = search (call_rules, settle_claim-IsQuiet)

  settle_claims-IsQuiet :
      (token : Token) (c : Dict Decimal) (u : Dict (SpotBalanceAmounts Decimal))
      (round : Dict ClaimAttempt) (l : List String) (t : Dict (Target E))
      → IsQuiet (settle_claims E token c u round l t)
  unfolding settle_claims
  settle_claims-IsQuiet token c u round [] t = search call_rules
  settle_claims-IsQuiet token c u round (b ∷ bs) t =
      search (call_rules, settle_attempt-IsQuiet, settle_claims-IsQuiet token c u round bs) depth 12

  draw_nonces-IsQuiet : (l : List String) → IsQuiet (draw_nonces E l)
  unfolding draw_nonces
  draw_nonces-IsQuiet [] = search call_rules
  draw_nonces-IsQuiet (b ∷ bs) =
      IsQuiet-bind _ _ (next_nonce-IsQuiet E)
        λ n. IsQuiet-bind _ _ (draw_nonces-IsQuiet bs) λ rest. search call_rules

module _ (E : Env) (p : PreparedAction → Bool) (w : String → ℕ) (charged : IsCharged E p w) where
  open E use {Decimal}

  call_all-Costs :
      {R : Type 0} (f : String → Task E R) (l : List String)
      → ((b : String) → Costs p (w b) Any (f b))
      → Costs p (total w l) Any (call_all E f l)
  unfolding call_all
  call_all-Costs f [] k = Costs-pure 0 [] tt
  call_all-Costs f (b ∷ bs) k =
      Costs-bind (w b) (total w bs) _ _ (k b)
        λ r _. Costs-before (total w bs) _ _ (call_all-Costs f bs k) λ rest. search call_rules

  gather-Costs :
      {R : Type 0} (f : String → Task E R) (l : List String)
      → ((b : String) → Costs p (w b) Any (f b))
      → Costs p (total w l) Any (gather E f l)
  unfolding gather
  gather-Costs f l k =
      Costs-then (total w l) _ _
        (Costs-gets {Post = λ order. total w order ≡ total w l} _
          λ s. total-interleave w (E.schedule s.history) l)
        λ order q.
          Costs-le (total w order) (total w l) _ (omega (arith, q)) (call_all-Costs f order k)

  claim-Costs : (n : Dict ℕ) (b : String) → Costs p (w b) Any (claim E n b)
  unfolding claim
  claim-Costs n b =
      Costs-then (w b) _ _ (Costs-prepare_claim E b _ (w b) (charged.claims b _)) λ prepared fits.
        Costs-on_result (w b) prepared _ _
          (λ a q.
            Costs-le (cost p a) (w b) _ (fits a q)
              (Costs-before (cost p a) _ _ (Costs-submit E a) λ (r, e). search call_rules))
          λ e. Costs-pure (w b) _ tt

  -- The chosen builders are charged no more than all.
  abbrev Within : ℕ → List String → Type 0
  Within n l = total w l ≤ n

  Within-chosen :
      {n : ℕ} (known : Bool) (b : String) (rest : List String)
      → Within n rest
      → Within (w b + n) (if known then b ∷ rest else rest)
  Within-chosen true b rest q = omega (arith, q)
  Within-chosen false b rest q = omega (arith, q)

  select_claims-Costs :
      (c : Dict Decimal) (u : Dict (SpotBalanceAmounts Decimal)) (l : List String)
      → Costs p 0 (Within (total w l)) (select_claims E c u l)
  unfolding select_claims
  select_claims-Costs c u [] = Costs-pure 0 [] (omega arith)
  select_claims-Costs c u (b ∷ bs) =
      Costs-if 0 (claim_eligible E (find b c)) _ _
        (λ _.
          Costs-then 0 _ _ (select_claims-Costs c u bs)
            λ rest q. Costs-pure 0 _ (Within-chosen (has_key b u) b rest q))
        λ _.
          Costs-after 0 _ _ (search call_rules)
            λ _. Costs-weaken 0 _ (λ l q. omega (arith, q)) (select_claims-Costs c u bs)

  pub claim_builder_rewards-Costs :
      (token : Token) (c : Dict Decimal) (u : Dict (SpotBalanceAmounts Decimal))
      → Costs p (total w E.builders) Any (claim_builder_rewards E token c u)
  unfolding claim_builder_rewards
  claim_builder_rewards-Costs token c u =
      Costs-then (total w E.builders) _ _ (select_claims-Costs c u E.builders) λ chosen q.
        Costs-after (total w E.builders) _ _ (draw_nonces-IsQuiet E chosen) λ nonces.
          Costs-before (total w E.builders) _ _
            (Costs-le (total w chosen) _ _ q
              (gather-Costs (claim E nonces) chosen (claim-Costs nonces)))
            λ round. search (call_rules, check_context-IsQuiet, settle_claims-IsQuiet) depth 12
