-- ===== src/Funding/Safety/Quiet/Calls.antt =====
-- The rest of the calls that send nothing, deferred calls, and the actions at the end of a task.
use builder_code_bot.Prelude.{ℕ, zero, suc, refl, Bool, Option, none, some, List, [], ◌∷◌, String}
use builder_code_bot.Prelude.Text.{◌+++◌}
use builder_code_bot.Funding.Model.{Token}
use builder_code_bot.Funding.Action.{
  Failure, Result, ok, err, panic, Action, on_result, on_option, deferring, run_deferred,
  unless_canceled,
}
use builder_code_bot.Funding.Env.{AlertSeverity, Env}
use builder_code_bot.Funding.Daily.{DailyConsolidation}
use builder_code_bot.Funding.Report.{RunReport}
use builder_code_bot.Funding.Session.{
  Session, Task, claimable_usdc, prepare_claim, load_current, load_daily, save_daily, alert,
  deliver,
}
use builder_code_bot.Funding.Progress.{alert_once_for, holds_alert}
use builder_code_bot.Funding.RateLimit.{
  RateLimitObservation, user_rate_limit, after_query, after_sleep, confirm_visibility,
  observe_user_rate_limit,
}
use builder_code_bot.Funding.RateLimit.Accounts.{
  ControlledAccount, latch_alert, after_observation, observe_accounts, observe_user_rate_limits,
}
use builder_code_bot.Funding.FinalBalance.{
  Boundaries, FinalWatch, final_loop, observe_boundaries, observe_with_token, final_token,
  observe_settlement_final_balance,
}
use builder_code_bot.Funding.Safety.Quiet.{
  Adds, none_added, added, Adds-trans, IsQuiet, IsQuiet-pure, IsQuiet-bind, IsQuiet-when,
  quiet_rules, either, sleep-IsQuiet, spot_balance-IsQuiet, canonical_usdc-IsQuiet, now-IsQuiet,
  report-IsQuiet,
}

-- What follows a captured result or an optional value, and what is deferred.
module _ {A B C : Type 0} where
  pub IsQuiet-on_result :
      (r : Result B) (f : B → Action (Session A) C) (g : Failure → Action (Session A) C)
      → ((b : B) → IsQuiet (f b))
      → ((e : Failure) → IsQuiet (g e))
      → IsQuiet (on_result r f g)
  unfolding on_result
  IsQuiet-on_result (ok b) f g kf kg = record { at = λ s. (kf b).at s }
  IsQuiet-on_result (err e) f g kf kg = record { at = λ s. (kg e).at s }
  IsQuiet-on_result panic f g kf kg = record { at = λ s. none_added }

  pub IsQuiet-on_option :
      (o : Option B) (m : Action (Session A) C) (f : B → Action (Session A) C)
      → IsQuiet m
      → ((b : B) → IsQuiet (f b))
      → IsQuiet (on_option o m f)
  unfolding on_option
  IsQuiet-on_option none m f km kf = record { at = λ s. km.at s }
  IsQuiet-on_option (some b) m f km kf = record { at = λ s. (kf b).at s }

module _ {A C : Type 0} where
  deferred :
      (r : Result C) (d : Option Failure → Action (Session A) (Unit {0})) (s : Session A)
      → ((e : Option Failure) → IsQuiet (d e))
      → Adds s.history (run_deferred r d s).1.history
  deferred (ok c) d s k = (k none).at s
  deferred (err e) d s k = (k (some e)).at s
  deferred panic d s k = none_added

  pub IsQuiet-deferring :
      (m : Action (Session A) C) (d : Option Failure → Action (Session A) (Unit {0}))
      → IsQuiet m
      → ((e : Option Failure) → IsQuiet (d e))
      → IsQuiet (deferring m d)
  unfolding deferring
  IsQuiet-deferring m d km kd = record {
    at = λ s. let (r, s') = m s in Adds-trans (km.at s) (deferred r d s' kd);
  }

module _ {A : Type 0} where
  pub IsQuiet-unless_canceled :
      (e : Option Failure) (m : Action (Session A) (Unit {0}))
      → IsQuiet m
      → IsQuiet (unless_canceled e m)
  unfolding unless_canceled
  IsQuiet-unless_canceled none m k = k
  IsQuiet-unless_canceled (some e) m k = IsQuiet-when _ m k

pub ruleset call_rules =
    (quiet_rules, IsQuiet-on_result, IsQuiet-on_option, IsQuiet-deferring, IsQuiet-unless_canceled)

module _ (E : Env) where
  pub claimable_usdc-IsQuiet : (a : String) (t : Token) → IsQuiet (claimable_usdc E a t)
  unfolding claimable_usdc
  claimable_usdc-IsQuiet a t = record { at = λ s. added _ refl none_added }

  pub prepare_claim-IsQuiet : (a : String) (n : ℕ) → IsQuiet (prepare_claim E a n)
  unfolding prepare_claim
  prepare_claim-IsQuiet a n = record { at = λ s. added _ refl none_added }

  pub load_current-IsQuiet : IsQuiet (load_current E)
  unfolding load_current
  load_current-IsQuiet = record { at = λ s. added _ refl none_added }

  pub load_daily-IsQuiet : (d : String) → IsQuiet (load_daily E d)
  unfolding load_daily
  load_daily-IsQuiet d = record { at = λ s. added _ refl none_added }

  pub save_daily-IsQuiet : (c : DailyConsolidation) → IsQuiet (save_daily E c)
  unfolding save_daily
  save_daily-IsQuiet c = record { at = λ s. added _ refl none_added }

  pub alert-IsQuiet : (k : String) (v : AlertSeverity) (m : String) → IsQuiet (alert E k v m)
  unfolding alert
  alert-IsQuiet k v m = record { at = λ s. added _ refl none_added }

  pub deliver-IsQuiet : (r : RunReport) → IsQuiet (deliver E r)
  unfolding deliver
  deliver-IsQuiet r = record { at = λ s. added _ refl none_added }

  pub alert_once_for-IsQuiet :
      (id key : String) (v : AlertSeverity) (m : String) → IsQuiet (alert_once_for E id key v m)
  unfolding alert_once_for
  alert_once_for-IsQuiet id key v m = record {
    at = λ s.
        either (holds_alert (id +++ ":" +++ key) s.alerts) _ _ none_added (added _ refl none_added);
  }

  user_rate_limit-IsQuiet : (a : String) → IsQuiet (user_rate_limit E a)
  unfolding user_rate_limit
  user_rate_limit-IsQuiet a = record { at = λ s. added _ refl none_added }

  after_query-IsQuiet :
      (rest : RateLimitObservation → Task E RateLimitObservation) (r : Result ℕ)
      (o : RateLimitObservation)
      → ((o' : RateLimitObservation) → IsQuiet (rest o'))
      → IsQuiet (after_query E rest r o)
  unfolding after_query
  after_query-IsQuiet rest (ok n) o k = search (quiet_rules, k)
  after_query-IsQuiet rest (err e) o k = search quiet_rules
  after_query-IsQuiet rest panic o k = search quiet_rules

  after_sleep-IsQuiet :
      (rest : RateLimitObservation → Task E RateLimitObservation) (a : String)
      (r : Result (Unit {0})) (o : RateLimitObservation)
      → ((o' : RateLimitObservation) → IsQuiet (rest o'))
      → IsQuiet (after_sleep E rest a r o)
  unfolding after_sleep
  after_sleep-IsQuiet rest a (ok _) o k =
      search (quiet_rules, user_rate_limit-IsQuiet, after_query-IsQuiet, k) depth 12
  after_sleep-IsQuiet rest a (err e) o k = search quiet_rules
  after_sleep-IsQuiet rest a panic o k = search quiet_rules

  confirm_visibility-IsQuiet :
      (a : String) (left : ℕ) (o : RateLimitObservation) → IsQuiet (confirm_visibility E a left o)
  unfolding confirm_visibility
  confirm_visibility-IsQuiet a zero o = search quiet_rules
  confirm_visibility-IsQuiet a (suc left) o =
      search (quiet_rules, sleep-IsQuiet, after_sleep-IsQuiet, confirm_visibility-IsQuiet a left)
        depth 12

  observe_user_rate_limit-IsQuiet :
      (a : String) (b : Bool) → IsQuiet (observe_user_rate_limit E a b)
  unfolding observe_user_rate_limit
  observe_user_rate_limit-IsQuiet a b =
      search (quiet_rules, user_rate_limit-IsQuiet, confirm_visibility-IsQuiet) depth 12

  latch_alert-IsQuiet : (a : String) (b : Bool) → IsQuiet (latch_alert E a b)
  unfolding latch_alert
  latch_alert-IsQuiet a b = record { at = λ s. none_added }

  after_observation-IsQuiet :
      (a : ControlledAccount) (r : Result RateLimitObservation) → IsQuiet (after_observation E a r)
  unfolding after_observation
  after_observation-IsQuiet a (ok o) =
      search (quiet_rules, latch_alert-IsQuiet, alert-IsQuiet) depth 12
  after_observation-IsQuiet a (err e) = search quiet_rules
  after_observation-IsQuiet a panic = search quiet_rules

  observe_accounts-IsQuiet : (l : List ControlledAccount) → IsQuiet (observe_accounts E l)
  unfolding observe_accounts
  observe_accounts-IsQuiet [] = search quiet_rules
  observe_accounts-IsQuiet (a ∷ l) = IsQuiet-bind _ _ (search quiet_rules) λ sent.
      IsQuiet-bind _ _ (search (quiet_rules, observe_user_rate_limit-IsQuiet)) λ answer.
        IsQuiet-bind _ _ (after_observation-IsQuiet a answer) λ _. observe_accounts-IsQuiet l

  pub observe_user_rate_limits-IsQuiet : IsQuiet (observe_user_rate_limits E)
  unfolding observe_user_rate_limits
  observe_user_rate_limits-IsQuiet = search (quiet_rules, observe_accounts-IsQuiet) depth 12

  final_loop-IsQuiet :
      (settlement : String) (t : Token) (l : List (E.Decimal)) (left : ℕ)
      (w : FinalWatch (E.Decimal))
      → IsQuiet (final_loop E settlement t l left w)
  unfolding final_loop
  final_loop-IsQuiet settlement t l zero w = search quiet_rules
  final_loop-IsQuiet settlement t l (suc left) w =
      search
        (call_rules, sleep-IsQuiet, spot_balance-IsQuiet, final_loop-IsQuiet settlement t l left)
        depth 20

  observe_boundaries-IsQuiet :
      (settlement : String) (t : Token) (b : Boundaries (E.Decimal))
      → IsQuiet (observe_boundaries E settlement t b)
  unfolding observe_boundaries
  observe_boundaries-IsQuiet settlement t Boundaries.invalid = search quiet_rules
  observe_boundaries-IsQuiet settlement t Boundaries.not_required =
      search (call_rules, spot_balance-IsQuiet) depth 12
  observe_boundaries-IsQuiet settlement t (Boundaries.totals l) = search final_loop-IsQuiet

  final_token-IsQuiet : (o : Option Token) → IsQuiet (final_token E o)
  unfolding final_token
  final_token-IsQuiet (some t) = search quiet_rules
  final_token-IsQuiet none = search (call_rules, canonical_usdc-IsQuiet) depth 16

  observe_with_token-IsQuiet : (t : Token) → IsQuiet (observe_with_token E t)
  unfolding observe_with_token
  observe_with_token-IsQuiet t = search (quiet_rules, observe_boundaries-IsQuiet) depth 12

  pub observe_settlement_final_balance-IsQuiet : IsQuiet (observe_settlement_final_balance E)
  unfolding observe_settlement_final_balance
  observe_settlement_final_balance-IsQuiet =
      search (call_rules, final_token-IsQuiet, observe_with_token-IsQuiet) depth 16
