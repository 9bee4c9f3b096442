-- ===== src/Funding/RateLimit.antt =====
-- observeUserRateLimit, rateLimitNeedsVisibilityConfirmation and updateRateLimitAlert of
-- internal/funding/rate_limit.go, and RemainingRequests of internal/hyperliquid/info/types.go.
pub mod Latch
pub mod Visible
pub mod Accounts
use builder_code_bot.Prelude.{
  ℕ, zero, suc, ◌+◌, ◌-◌, ◌≤◌, ◌≡◌, Bool, true, false, ◌&&◌, not, Option, none, some, List, [], ◌∷◌,
  String, ltb, leb, if◌then◌else◌,
}
use builder_code_bot.Prelude.Text.{address_key, codes_eq}
use builder_code_bot.Funding.Action.{
  Failure, Result, ok, err, panic, Action, pure, raise, crash, gets, lift, on_error, capture, ◌>>=◌,
  ◌>>◌,
}
use builder_code_bot.Funding.Env.{Effect, Env}
use builder_code_bot.Funding.Session.{Session, Task, sleep, happen}

abbrev pub user_rate_limit_alert_threshold : ℕ
user_rate_limit_alert_threshold = 200

abbrev pub visibility_action_window : ℕ
visibility_action_window = 6

abbrev pub visibility_attempts : ℕ
visibility_attempts = 3

abbrev pub visibility_interval : ℕ
visibility_interval = 1000

-- The subtraction of uint64 does not wrap, since it is guarded.
unfoldable pub remaining_requests : (used cap : ℕ) → ℕ
remaining_requests used cap = if leb cap used then 0 else cap - used

pub record RateLimitObservation : Type 0 where
  pub remaining : ℕ
  pub attempts : ℕ
  pub visibility_unconfirmed : Bool

unfoldable pub needs_visibility_confirmation : ℕ → Bool
needs_visibility_confirmation remaining =
    leb user_rate_limit_alert_threshold remaining
    && ltb remaining (user_rate_limit_alert_threshold + visibility_action_window)

abbrev pub unconfirmed : RateLimitObservation → RateLimitObservation
unconfirmed o = record o { visibility_unconfirmed = true }

-- A later answer can only lower the count.
unfoldable pub lower_remaining : ℕ → RateLimitObservation → RateLimitObservation
lower_remaining remaining o =
    if ltb remaining o.remaining then record o { remaining = remaining } else o

-- The keys of the accounts whose alert is on, `lowLimits`; the result is whether to alert now.
abbrev pub holds_account : List ℕ → List (List ℕ) → Bool
holds_account key [] = false
holds_account key (k ∷ keys) = if codes_eq k key then true else holds_account key keys

abbrev pub delete_account : List ℕ → List (List ℕ) → List (List ℕ)
delete_account key [] = []
delete_account key (k ∷ keys) =
    let rest = delete_account key keys in if codes_eq k key then rest else k ∷ rest

unfoldable pub update_rate_limit_alert : String → Bool → List (List ℕ) → Bool × List (List ℕ)
update_rate_limit_alert address at_risk low_limits =
    let key = address_key address in
    if not at_risk
    then (false, delete_account key low_limits)
    else if holds_account key low_limits
    then (false, low_limits)
    else (true, key ∷ low_limits)

module _ (E : Env) where
  open E use {Decimal}

  -- chain.UserRateLimit, of which RemainingRequests is taken
  unfoldable pub user_rate_limit : String → Task E ℕ
  user_rate_limit address s =
      let r = E.user_rate_limit s.history address in
      (r, happen (Effect.read_rate_limit address r) s)

  -- One more query, after the wait, and what follows it.
  unfoldable pub after_query :
      (RateLimitObservation → Task E RateLimitObservation)
      → Result ℕ
      → RateLimitObservation
      → Task E RateLimitObservation
  unfolding lower_remaining
  after_query rest (err e) o = pure (unconfirmed (record o { attempts = suc o.attempts }))
  after_query rest panic o = crash
  after_query rest (ok remaining) o =
      let o' = lower_remaining remaining (record o { attempts = suc o.attempts }) in
      if ltb o'.remaining user_rate_limit_alert_threshold then pure o' else rest o'

  unfoldable pub after_sleep :
      (RateLimitObservation → Task E RateLimitObservation)
      → String
      → Result (Unit {0})
      → RateLimitObservation
      → Task E RateLimitObservation
  unfolding after_query
  after_sleep rest address (err e) o = pure (unconfirmed o)
  after_sleep rest address panic o = crash
  after_sleep rest address (ok _) o = do
    answer ← capture (user_rate_limit address)
    after_query rest answer o

  -- The attempts from the second to the third.
  unfoldable pub confirm_visibility :
      String → ℕ → RateLimitObservation → Task E RateLimitObservation
  unfolding after_sleep
  confirm_visibility address zero o = pure (unconfirmed o)
  confirm_visibility address (suc left) o = do
    slept ← capture (sleep E visibility_interval)
    after_sleep (confirm_visibility address left) address slept o

  unfoldable pub observe_user_rate_limit : String → Bool → Task E RateLimitObservation
  unfolding needs_visibility_confirmation confirm_visibility
  observe_user_rate_limit address action_submitted = do
    remaining ← user_rate_limit address
    let o : RateLimitObservation = record {
      remaining = remaining;
      attempts = 1;
      visibility_unconfirmed = false;
    }
    if action_submitted && needs_visibility_confirmation remaining
        then confirm_visibility address 2 o
        else pure o
