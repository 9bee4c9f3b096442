-- ===== src/Funding/Run.antt =====
-- runPositive and runActiveTarget of internal/funding/orchestrator.go.
pub mod Stable
use builder_code_bot.Prelude.{
  ℕ, zero, suc, Bool, false, ◌&&◌, not, Option, none, some, [], ◌∷◌, String, leb, if◌then◌else◌,
}
use builder_code_bot.Prelude.Text.{text_eq, ◌+++◌}
use builder_code_bot.Funding.Model.{
  PayoutKind, Token, SpotBalanceAmounts, ActiveTarget, active_payout_target,
}
use builder_code_bot.Funding.Action.{
  Failure, Result, ok, err, panic, pure, raise, crash, gets, on_error, capture, when, ◌>>=◌, ◌>>◌,
}
use builder_code_bot.Funding.Env.{AlertSeverity, Env}
use builder_code_bot.Funding.Report.{ReportStepStatus, RunReport}
use builder_code_bot.Funding.Report.Update.{
  fail, fail_target, mark_target_no_data, set_target_stage, set_payout_status,
}
use builder_code_bot.Funding.Session.{current_run, Task, sleep, spot_balance}
use builder_code_bot.Funding.Progress.{report, alert_once, complete_database, finish_run}
use builder_code_bot.Funding.Payout.Submit.{token_of, decimal_from_string, execute_payout}

abbrev settlement_query_attempts : ℕ
settlement_query_attempts = 5

abbrev pub settlement_query_interval : ℕ
settlement_query_interval = 1000

abbrev pub settlement_confirmations : ℕ
settlement_confirmations = 2

-- The variables of runPositive's loop. `seen` is the last balance, `none` until one is observed;
-- `candidate` is the balance that repeats.
pub record Funds (A : Type 0) : Type 0 where
  pub seen : Option (SpotBalanceAmounts A)
  pub candidate : Option (SpotBalanceAmounts A)
  pub stable : ℕ
  pub last_error : Failure
  pub last_sufficient : Bool

abbrev pub no_funds : {A : Type 0} → Funds A
no_funds = record {
  seen = none;
  candidate = none;
  stable = 0;
  last_error = Failure.plain "";
  last_sufficient = false;
}

pub data Funding (A : Type 0) : Type 0 where
  funded : SpotBalanceAmounts A → Funding A
  unfunded : Funds A → Funding A

-- Completing the database ends in a second round, which finds no target left.
abbrev pub run_fuel : ℕ
run_fuel = 2

module _ (E : Env) where
  open E use {Decimal}

  unfoldable pub same_spot_balance :
      SpotBalanceAmounts Decimal → Option (SpotBalanceAmounts Decimal) → Bool
  same_spot_balance left none = false
  same_spot_balance left (some right) =
      E.equal left.total right.total && E.equal left.available right.available

  -- One balance: two equal ones in a row are stable.
  unfoldable pub count_balance :
      Decimal → SpotBalanceAmounts Decimal → Funds Decimal → Funds Decimal
  unfolding same_spot_balance
  count_balance payout balance f =
      let repeats = leb 1 f.stable && same_spot_balance balance f.candidate in
      record f {
        seen = some balance;
        candidate = if repeats then f.candidate else some balance;
        stable = if repeats then suc f.stable else 1;
        last_sufficient = not (E.less_than balance.available payout);
      }

  unfoldable pub count_answer :
      Decimal → Result (SpotBalanceAmounts Decimal) → Funds Decimal → Task E (Funds Decimal)
  unfolding count_balance
  count_answer payout (ok balance) f = pure (count_balance payout balance f)
  count_answer payout (err e) f = pure (record f { stable = 0; last_error = e })
  count_answer payout panic f = crash

  abbrev pub is_funded :
      Result (SpotBalanceAmounts Decimal) → Funds Decimal → Option (SpotBalanceAmounts Decimal)
  is_funded (ok balance) f =
      if f.last_sufficient && leb settlement_confirmations f.stable then some balance else none
  is_funded _ f = none

  unfoldable pub query_funds :
      String → Token → Decimal → ℕ → Funds Decimal → Task E (Funding Decimal)
  unfolding count_answer
  query_funds settlement token payout zero f = pure (Funding.unfunded f)
  query_funds settlement token payout (suc left) f = do
    answer ← capture (spot_balance E settlement token)
    f' ← count_answer payout answer f
    elim (is_funded answer f') [
      | some balance ↦ pure (Funding.funded balance)
      | none ↦ do
        when (leb 1 left) (sleep E settlement_query_interval)
        query_funds settlement token payout left f'
    ]

  unfoldable pub underfunded : Decimal → SpotBalanceAmounts Decimal → Task E (Unit {0})
  underfunded payout settlement = do
    t ← gets (λ s. s.target)
    alert_once E "settlement_underfunded" AlertSeverity.warning
        "settlement available balance is below required payout"
    report E (
        fail_target t.kind "payout"
          ("Settlement 可用余额 "
            +++ E.to_string settlement.available
            +++ " USDC，低于所需的 "
            +++ E.to_string payout
            +++ " USDC。")
          "")
    raise (Failure.plain "settlement available balance is below required payout total")

  unfoldable pub unstable : Task E (Unit {0})
  unstable = do
    t ← gets (λ s. s.target)
    alert_once E "settlement_balance_unstable" AlertSeverity.warning
        "settlement spot balance did not stabilize before payout"
    report E (fail_target t.kind "payout" "Settlement 余额未在有限查询内稳定，未提交 Payout。" "请等待余额索引稳定后重试。")
    raise (Failure.plain "settlement balance did not stabilize before payout")

  unfoldable pub not_observed : Failure → Task E (Unit {0})
  not_observed e = do
    t ← gets (λ s. s.target)
    report E (fail_target t.kind "payout" "Settlement 余额查询失败，无法确认是否满足 Payout。" "")
    alert_once E "settlement_balance_query_failed" AlertSeverity.warning
        "settlement spot balance query failed"
    raise (Failure.wrapped "query settlement spot balance" e)

  unfoldable pub after_funds : Task E (Unit {0}) → Decimal → Funding Decimal → Task E (Unit {0})
  unfolding underfunded unstable not_observed
  after_funds again payout (Funding.funded balance) = execute_payout E again balance payout
  after_funds again payout (Funding.unfunded f) = elim f.seen [
    | none ↦ not_observed f.last_error
    | some balance ↦ if f.last_sufficient then unstable else underfunded payout balance
  ]

  unfoldable pub run_positive : Task E (Unit {0}) → Task E (Unit {0})
  unfolding query_funds after_funds
  run_positive again = do
    t ← gets (λ s. s.target)
    token ← token_of E t
    payout ←
        on_error (decimal_from_string E t.manifest.payout_total) λ e. do
          report E (fail "snapshot" "持久化的 Payout 金额无法解析。" "请保留 current 状态并检查数据完整性。")
          raise e
    funds ← query_funds t.manifest.settlement token payout settlement_query_attempts no_funds
    after_funds again payout funds

  skip_payout : PayoutKind → RunReport → RunReport
  skip_payout kind r =
      set_payout_status kind ReportStepStatus.skipped
        (set_target_stage kind "payout" ReportStepStatus.skipped "无需付款" r)

  -- What a prepared target needs: no record, nothing to pay, or a payout.
  unfoldable pub run_target : Task E (Unit {0}) → Task E (Unit {0})
  unfolding run_positive skip_payout
  run_target again = do
    t ← gets (λ s. s.target)
    elim t.manifest.records [
      | [] ↦ do report E (mark_target_no_data t.kind); complete_database E again
      | _ ∷ _ ↦
          if text_eq t.manifest.payout_total "0"
          then (report E (skip_payout t.kind) >> complete_database E again)
          else run_positive again
    ]

  unfoldable pub dispatch_active : Task E (Unit {0}) → ActiveTarget → Task E (Unit {0})
  unfolding run_target
  dispatch_active again ActiveTarget.unsupported =
      raise
        (Failure.fatal (Failure.plain "funding run must contain only the referral payout target"))
  dispatch_active again ActiveTarget.all_completed = finish_run E
  dispatch_active again (ActiveTarget.active _) = run_target again

  -- runActiveTarget comes back to itself once a target is completed; `zero` stands for a chain of
  -- calls that the code cannot make.
  unfoldable pub run_active_target : ℕ → Task E (Unit {0})
  unfolding dispatch_active
  run_active_target zero = crash
  run_active_target (suc fuel) = do
    run ← gets current_run
    dispatch_active (run_active_target fuel) (active_payout_target run)
