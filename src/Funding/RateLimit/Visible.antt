-- ===== src/Funding/RateLimit/Visible.antt =====
-- What an observation of a rate limit means after an action of the account.
use builder_code_bot.Prelude.{
  ◌<◌, ◌⊎◌, inl, inr, [], ◌∷◌, ap, sym, ◌∙◌, leb, leb→le, Bool-cases, ℕ, zero, suc, ◌+◌, ◌≤◌, ◌≡◌,
  true, false, String, ltb, arith,
}
use builder_code_bot.Funding.Action.{Result, ok, err, panic, pure, capture, ◌>>=◌}
use builder_code_bot.Funding.Action.Gives.{
  Given, Gives, Gives-pure, Gives-crash, Gives-if, Gives-bind,
}
use builder_code_bot.Funding.Env.{Effect, History, Env}
use builder_code_bot.Funding.Session.{Session, Task, sleep}
use builder_code_bot.Funding.RateLimit.{
  RateLimitObservation, needs_visibility_confirmation, unconfirmed, lower_remaining, after_query,
  after_sleep, confirm_visibility, observe_user_rate_limit, user_rate_limit,
}

-- The queries for a rate limit.
abbrev pub limit_queries : {A : Type 0} → History A → ℕ
limit_queries [] = 0
limit_queries (Effect.read_rate_limit a r ∷ h) = suc (limit_queries h)
limit_queries (e ∷ h) = limit_queries h

-- `attempts` of at most three queries; and unless the count is marked as unconfirmed, it is not among
-- the six from 200 on, of which the last action may hide that the account has sunk below 200.
pub record IsReliable (o : RateLimitObservation) : Type 0 where
  pub bounded : o.attempts ≤ 3
  pub visible : o.visibility_unconfirmed ≡ false → (o.remaining < 200) ⊎ (206 ≤ o.remaining)

marked : (o : RateLimitObservation) → o.attempts ≤ 3 → IsReliable (unconfirmed o)
marked o h = record { bounded = h; visible = λ q. cc }

outside : (n : ℕ) → needs_visibility_confirmation n ≡ false → (n < 200) ⊎ (206 ≤ n)
unfolding needs_visibility_confirmation
outside n h = elim (Bool-cases (leb 206 n)) [
  | inl q ↦ inr (leb→le 206 n q)
  | inr q ↦ inl (ground arith)
]

below : (n : ℕ) → ltb n 200 ≡ true → n < 200
below n h = ground arith

lowered : (r : ℕ) (o : RateLimitObservation) → (lower_remaining r o).attempts ≡ o.attempts
unfolding lower_remaining
lowered r o = ground arith

module _ (E : Env) (start : ℕ) where
  -- So many queries since there were `start`.
  abbrev After : ℕ → Session (E.Decimal) → Type 0
  After n s = limit_queries s.history ≡ n + start

  abbrev Counted : RateLimitObservation → Session (E.Decimal) → Type 0
  Counted o s = IsReliable o × After o.attempts s

  given :
      {A : Type 0} (n : ℕ) (r : Result A) (s : Session (E.Decimal))
      → After n s
      → Given (λ _ s. After n s) (r, s)
  given n (ok a) s h = h
  given n (err e) s h = tt
  given n panic s h = tt

  query-Gives :
      (address : String) (n : ℕ)
      → Gives (After n) (user_rate_limit E address) (λ _ s. After (suc n) s)
  unfolding user_rate_limit
  query-Gives address n = record {
    at = λ s h. given (suc n) (E.user_rate_limit s.history address) _ (omega (arith, h));
  }

  captured-Gives :
      (address : String) (n : ℕ)
      → Gives (After n) (capture (user_rate_limit E address)) (λ _ s. After (suc n) s)
  unfolding user_rate_limit ◌>>=◌
  captured-Gives address n = record { at = λ s h. omega (arith, h) }

  slept-Gives : (n ms : ℕ) → Gives (After n) (capture (sleep E ms)) (λ _ s. After n s)
  unfolding sleep ◌>>=◌
  slept-Gives n ms = record { at = λ s h. h }

  after_query-Gives :
      (rest : RateLimitObservation → Task E RateLimitObservation) (r : Result ℕ)
      (o : RateLimitObservation) (left : ℕ)
      → o.attempts + suc left ≤ 3
      → ((o' : RateLimitObservation)
          → o'.attempts + left ≤ 3
          → Gives (After o'.attempts) (rest o') Counted)
      → Gives (After (suc o.attempts)) (after_query E rest r o) Counted
  unfolding after_query
  after_query-Gives rest (err e) o left h k =
      Gives-pure _ λ s q. (marked (record o { attempts = suc o.attempts }) (omega (arith, h)), q)
  after_query-Gives rest panic o left h k = Gives-crash
  after_query-Gives rest (ok n) o left h k =
      let low = lower_remaining n (record o { attempts = suc o.attempts }) in
      let same : low.attempts ≡ suc o.attempts =
        lowered n (record o { attempts = suc o.attempts }) in
      Gives-if (ltb low.remaining 200) (pure low) (rest low)
        (λ q. Gives-pure low λ s c. (
          record { bounded = omega (arith, h, same); visible = λ _. inl (below low.remaining q) },
          c ∙ ap (λ m. m + start) (sym same),
        ))
        λ q. record {
          at = λ s c. (k low (omega (arith, h, same))).at s (c ∙ ap (λ m. m + start) (sym same));
        }

  after_sleep-Gives :
      (rest : RateLimitObservation → Task E RateLimitObservation) (address : String)
      (r : Result (Unit {0})) (o : RateLimitObservation) (left : ℕ)
      → o.attempts + suc left ≤ 3
      → ((o' : RateLimitObservation)
          → o'.attempts + left ≤ 3
          → Gives (After o'.attempts) (rest o') Counted)
      → Gives (After o.attempts) (after_sleep E rest address r o) Counted
  unfolding after_sleep
  after_sleep-Gives rest address (err e) o left h k =
      Gives-pure _ λ s c. (marked o (omega (arith, h)), c)
  after_sleep-Gives rest address panic o left h k = Gives-crash
  after_sleep-Gives rest address (ok _) o left h k =
      Gives-bind _ _ (captured-Gives address o.attempts) λ r. after_query-Gives rest r o left h k

  confirm_visibility-Gives :
      (address : String) (left : ℕ) (o : RateLimitObservation)
      → o.attempts + left ≤ 3
      → Gives (After o.attempts) (confirm_visibility E address left o) Counted
  unfolding confirm_visibility
  confirm_visibility-Gives address zero o h = Gives-pure _ λ s c. (marked o (omega (arith, h)), c)
  confirm_visibility-Gives address (suc left) o h =
      Gives-bind _ _ (slept-Gives o.attempts _) λ r.
        after_sleep-Gives _ address r o left h λ o' q. confirm_visibility-Gives address left o' q

  observed : (address : String) → Gives (After 0) (observe_user_rate_limit E address true) Counted
  unfolding observe_user_rate_limit
  observed address = Gives-bind _ _ (query-Gives address 0) λ n.
      Gives-if (needs_visibility_confirmation n) _ _
        (λ _. confirm_visibility-Gives address 2 _ (omega arith))
        λ q. Gives-pure _ λ s c. (record { bounded = omega arith; visible = λ _. outside n q }, c)

module _ (E : Env) where
  -- After an action of the account, an observation that returns has made as many queries as it reports,
  -- at most three, and either it is marked as unconfirmed or its count is below 200 or at least
  -- 206, outside the six counts that may hide the action: in every environment.
  pub observe_user_rate_limit_lem :
      (address : String) (s : Session (E.Decimal))
      → Given
          (λ o t. IsReliable o × (limit_queries t.history ≡ o.attempts + limit_queries s.history))
          (observe_user_rate_limit E address true s)
  observe_user_rate_limit_lem address s =
      (observed E (limit_queries s.history) address).at s (omega arith)
