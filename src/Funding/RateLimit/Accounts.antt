-- ===== src/Funding/RateLimit/Accounts.antt =====
-- observeUserRateLimits of internal/funding/rate_limit.go: the rate limits of all accounts.
use builder_code_bot.Prelude.{
  Bool, true, ◌||◌, none, some, List, [], ◌∷◌, ◌++◌, map, String, ltb, if◌then◌else◌,
}
use builder_code_bot.Prelude.Text.{◌+++◌, trim_space, lower_text, is_blank, int_text}
use builder_code_bot.Funding.Action.{
  Result, ok, err, panic, pure, crash, gets, capture, when, ◌>>=◌, ◌>>◌,
}
use builder_code_bot.Funding.Env.{AlertSeverity, Env}
use builder_code_bot.Funding.Report.{BuilderReport, RunReport}
use builder_code_bot.Funding.Report.Update.{update_builder, add_warning, submitted}
use builder_code_bot.Funding.Report.Builders.{find_builder}
use builder_code_bot.Funding.Session.{Task, alert}
use builder_code_bot.Funding.Progress.{report}
use builder_code_bot.Funding.RateLimit.{
  RateLimitObservation, user_rate_limit_alert_threshold, observe_user_rate_limit,
  update_rate_limit_alert,
}

pub data AccountKind : Type 0 where
  builder settlement : AccountKind

pub record ControlledAccount : Type 0 where
  pub kind : AccountKind
  pub address : String

kind_text : AccountKind → String
kind_text AccountKind.builder = "builder"
kind_text AccountKind.settlement = "settlement"

unfoldable pub account_label : ControlledAccount → RunReport → String
account_label account r = elim (find_builder account.address r) [
  | some b ↦ b.name
  | none ↦ elim account.kind [
    | AccountKind.builder ↦ "builder"
    | AccountKind.settlement ↦ "Settlement"
  ]
]

-- A write to the builder's report, or to the report where the account is the settlement's.
unfoldable pub write_account :
    ControlledAccount
    → (BuilderReport → BuilderReport)
    → (RunReport → RunReport)
    → RunReport
    → RunReport
write_account account f g r = elim (find_builder account.address r) [
  | some b ↦ update_builder account.address f r
  | none ↦ elim account.kind [ AccountKind.builder ↦ r | AccountKind.settlement ↦ g r ]
]

warn_account : ControlledAccount → String → RunReport → RunReport
unfolding account_label
warn_account account message r = add_warning (account_label account r +++ ": " +++ message) r

unfoldable pub report_query_failed : ControlledAccount → RunReport → RunReport
unfolding write_account warn_account
report_query_failed account r = warn_account account "Rate Limit 查询失败" (
    write_account account (λ b. record b { rate_limit_query_failed = true })
      (λ q. record q { settlement_rate_limit_query_failed = true }) r)

abbrev pub is_low : RateLimitObservation → Bool
is_low o = ltb o.remaining user_rate_limit_alert_threshold

unfoldable pub report_observed : ControlledAccount → RateLimitObservation → RunReport → RunReport
unfolding write_account warn_account
report_observed account o r =
    let observed =
      write_account account
        (λ b. record b {
          rate_limit_observed = true;
          rate_limit_remaining = o.remaining;
          rate_limit_visibility_unconfirmed = o.visibility_unconfirmed;
        })
        (λ q. record q {
          settlement_rate_limit_observed = true;
          settlement_rate_limit_remaining = o.remaining;
          settlement_rate_limit_visibility_unconfirmed = o.visibility_unconfirmed;
        })
        r in
    if is_low o
    then warn_account account ("Rate Limit 仅剩 " +++ int_text o.remaining) observed
    else if o.visibility_unconfirmed
    then warn_account account ("Rate Limit 动作后计数未确认刷新（最低观测值 " +++ int_text o.remaining +++ "）")
        observed
    else observed

alert_message : ControlledAccount → RateLimitObservation → String
unfolding kind_text
alert_message account o =
    (if o.visibility_unconfirmed
      then "Hyperliquid user rate limit may be low because post-action visibility was not confirmed"
      else "Hyperliquid user rate limit is low")
    +++ "\naccount kind: "
    +++ kind_text account.kind
    +++ "\naddress: "
    +++ account.address
    +++ (if o.visibility_unconfirmed
        then "\nlowest observed remaining: "
        else "\nrequests remaining: ")
    +++ int_text o.remaining

module _ (E : Env) where
  -- updateRateLimitAlert on the orchestrator's set
  unfoldable pub latch_alert : String → Bool → Task E Bool
  latch_alert address at_risk s =
      let (now, limits) = update_rate_limit_alert address at_risk s.low_limits in
      (ok now, record s { low_limits = limits })

  unfoldable pub after_observation :
      ControlledAccount → Result RateLimitObservation → Task E (Unit {0})
  unfolding report_query_failed report_observed latch_alert alert_message
  after_observation account (ok o) = do
    report E (report_observed account o)
    alerts ← latch_alert account.address (is_low o || o.visibility_unconfirmed)
    when alerts (
        alert E ("user_rate_limit_low:" +++ lower_text (trim_space account.address))
          AlertSeverity.warning (alert_message account o))
  after_observation account (err e) = report E (report_query_failed account)
  after_observation account panic = crash

  unfoldable pub observe_accounts : List ControlledAccount → Task E (Unit {0})
  unfolding after_observation
  observe_accounts [] = pure tt
  observe_accounts (account ∷ accounts) = do
    sent ← gets (λ s. submitted account.address s.report)
    answer ← capture (observe_user_rate_limit E account.address sent)
    after_observation account answer
    observe_accounts accounts

  abbrev builder_account : String → ControlledAccount
  builder_account address = record { kind = AccountKind.builder; address = address }

  -- The settlement account of the report, or the orchestrator's where the report has none.
  abbrev settlement_account : RunReport → ControlledAccount
  settlement_account r = record {
    kind = AccountKind.settlement;
    address =
        if is_blank r.settlement_balance.address
        then E.settlement
        else r.settlement_balance.address;
  }

  unfoldable pub observe_user_rate_limits : Task E (Unit {0})
  unfolding observe_accounts
  observe_user_rate_limits = do
    last ← gets (λ s. settlement_account s.report)
    observe_accounts (map builder_account E.builders ++ last ∷ [])
