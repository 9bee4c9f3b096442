-- ===== src/Funding/Payout/Submit.antt =====
-- executePayout, submitPreparedPayout, replayPreparedPayout, submitPayoutAttempt and
-- observeUncertainPayout. The code's methods call one another: an observation may authorise the
-- replay, which submits and observes again. Here each takes the one it ends in as an argument, and
-- `submit_payout_attempt` ties the knot on fuel, which is the subject of Funding/Fuel/Replay.
use builder_code_bot.Prelude.{
  ℕ, zero, suc, Bool, true, false, ◌&&◌, not, Option, none, some, String, ◌==◌, if◌then◌else◌,
}
use builder_code_bot.Prelude.Text.{int_text, ◌+++◌}
use builder_code_bot.Funding.Model.{
  Phase, Token, SubmitResult, SpotBalanceAmounts, PayoutJournal, PayoutTargetState,
}
use builder_code_bot.Funding.Action.{
  Failure, of_error, pure, raise, crash, gets, lift, on_error, ◌>>=◌, ◌>>◌,
}
use builder_code_bot.Funding.Env.{AlertSeverity, Env}
use builder_code_bot.Funding.Report.Update.{
  fail_target, mark_submitted, mark_settlement_payout_unconfirmed, update_payout,
}
use builder_code_bot.Funding.Session.{current_run, Task, next_nonce, prepare_spot_send, submit}
use builder_code_bot.Funding.Validation.{
  uncertain_prefix, validate_prepared_payout, validate_payout_journal, validate_target_progress,
}
use builder_code_bot.Funding.Progress.{report, retarget, sync_report, alert_once, save_active_phase}
use builder_code_bot.Funding.Payout.Evidence.{
  observation_attempts, query_attempts, Watch, fresh, Observed, without_fee, observe_loop,
}
use builder_code_bot.Funding.Payout.Settle.{
  exchange_response, confirm_payout, reject_payout, block_uncertain_payout, save_twice,
}

-- The replay is allowed from the first submission alone.
unfoldable pub allow_exact_replay : Phase → ℕ → Bool
allow_exact_replay Phase.payout_submitting attempts = attempts == 1
allow_exact_replay Phase.payout_prepared attempts = attempts == 1
allow_exact_replay _ attempts = false

unfoldable pub block_reason : Watch → ℕ → String
block_reason w attempts =
    uncertain_prefix
    +++ " after "
    +++ int_text w.successful
    +++ " successful settlement balance observations, "
    +++ int_text w.query_errors
    +++ " query errors, and "
    +++ int_text attempts
    +++ " submit attempts"

abbrev pub set_attempts : ℕ → PayoutTargetState → PayoutTargetState
set_attempts n t = elim t.payout [
  | none ↦ t
  | some j ↦ record t { payout = some (record j { submit_attempts = n }) }
]

-- After the replay there is no second one.
abbrev pub replay_fuel : ℕ
replay_fuel = 1

module _ (E : Env) where
  open E use {Decimal}

  -- An error of a validation is reported and returned, as it is or as a FatalError.
  abbrev pub checked : Option Failure → (Failure → Task E (Unit {0})) → Task E (Unit {0})
  checked e failed = on_error (lift (of_error e)) failed

  -- decimalFromString
  unfoldable pub decimal_from_string : String → Task E Decimal
  decimal_from_string text = elim (E.from_string text) [
    | none ↦ raise (Failure.wrapped "parse persisted payout total" (Failure.external "decimal"))
    | some x ↦ pure x
  ]

  -- `target.Payout`, of which a nil pointer would panic
  unfoldable pub journal_of : PayoutTargetState → Task E PayoutJournal
  journal_of t = elim t.payout [ none ↦ crash | some j ↦ pure j ]

  unfoldable pub token_of : PayoutTargetState → Task E Token
  token_of t = elim t.manifest.token [ none ↦ crash | some token ↦ pure token ]

  -- What follows a Submit: its result and its error decide.
  unfoldable pub settle_attempt :
      Task E (Unit {0})
      → Task E (Unit {0})
      → Bool
      → SubmitResult
      → Option Failure
      → Task E (Unit {0})
  settle_attempt again observe exact_replay result (some e) = observe
  settle_attempt again observe exact_replay result none =
      if result.accepted
      then confirm_payout E again exchange_response
      else if not exact_replay && result.rejected
      then reject_payout E
      else observe

  unfoldable pub attempt_body : Task E (Unit {0}) → Task E (Unit {0}) → Bool → Task E (Unit {0})
  unfolding settle_attempt journal_of
  attempt_body again observe exact_replay = do
    t ← gets (λ s. s.target)
    journal ← journal_of t
    answer ← submit E journal.prepared
    report E (mark_submitted t.manifest.settlement)
    settle_attempt again observe exact_replay answer.0 answer.1

  unfoldable pub replay_refused : PayoutTargetState → Option Failure
  replay_refused t = elim t.payout [
    | none ↦ some (Failure.plain "exact payout replay is not eligible")
    | some j ↦
        if j.submit_attempts == 1
        then none
        else some (Failure.plain "exact payout replay is not eligible")
  ]

  -- replayPreparedPayout: both snapshots hold the second attempt before the request leaves.
  unfoldable pub replay_body : Task E (Unit {0}) → Task E (Unit {0})
  unfolding replay_refused
  replay_body attempt = do
    t ← gets (λ s. s.target)
    checked (replay_refused t) λ e. raise (Failure.fatal e)
    checked (validate_payout_journal E t)
        λ e. raise (Failure.fatal (Failure.wrapped "validate exact payout replay" e))
    retarget E (λ u. record (set_attempts 2 u) { blocked_reason = "" })
    save_twice E Phase.payout_replaying λ e. do
      report E
          (fail_target t.kind "payout" "Exact replay 边界持久化失败，未继续发送。" "请保留 current 状态并人工核查；禁止构造新请求。")
      raise (Failure.fatal (Failure.wrapped "persist exact payout replay boundary" e))
    sync_report E
    attempt

  -- The end of the observation: confirmed, replayed or blocked.
  unfoldable pub after_observation :
      Task E (Unit {0}) → Task E (Unit {0}) → Observed → Task E (Unit {0})
  unfolding allow_exact_replay block_reason journal_of
  after_observation again replay (Observed.confirmed evidence) = confirm_payout E again evidence
  after_observation again replay (Observed.exhausted w) = do
    t ← gets (λ s. s.target)
    journal ← journal_of t
    let replays =
        allow_exact_replay t.phase journal.submit_attempts
        && w.successful == observation_attempts
        && w.all_at_before
    let reason = block_reason w journal.submit_attempts
    if replays then replay else block_uncertain_payout E reason "payout_ambiguous"

  unfoldable pub negative_boundary : Decimal → Decimal → Option Failure
  negative_boundary before amount =
      if E.is_negative (without_fee E before amount)
      then some (Failure.plain "expected post-payout settlement total is negative")
      else none

  unfoldable pub observe_body : Task E (Unit {0}) → Task E (Unit {0}) → Task E (Unit {0})
  unfolding after_observation decimal_from_string journal_of token_of negative_boundary
  observe_body again replay = do
    t ← gets (λ s. s.target)
    report E (mark_settlement_payout_unconfirmed t.kind)
    checked (validate_payout_journal E t) λ e. do
      report E (fail_target t.kind "payout" "持久化的 Payout journal 未通过安全校验。" "请保留 current 状态，禁止直接重发。")
      raise (Failure.fatal (Failure.wrapped "validate uncertain payout journal" e))
    journal ← journal_of t
    before ← decimal_from_string journal.total_before
    amount ← decimal_from_string t.manifest.payout_total
    token ← token_of t
    checked (negative_boundary before amount) raise
    seen ← observe_loop E t.manifest.settlement token before amount query_attempts fresh
    after_observation again replay seen

  -- `zero` stands for a chain of calls that the code cannot make.
  unfoldable pub submit_payout_attempt : ℕ → Task E (Unit {0}) → Bool → Task E (Unit {0})
  unfolding attempt_body observe_body replay_body
  submit_payout_attempt zero again exact_replay = crash
  submit_payout_attempt (suc fuel) again exact_replay =
      attempt_body again (observe_body again (replay_body (submit_payout_attempt fuel again true)))
        exact_replay

  unfoldable pub observe_uncertain_payout : Task E (Unit {0}) → Task E (Unit {0})
  unfolding submit_payout_attempt observe_body replay_body
  observe_uncertain_payout again =
      observe_body again (replay_body (submit_payout_attempt replay_fuel again true))

  unfoldable pub submit_prepared_payout : Task E (Unit {0}) → Task E (Unit {0})
  unfolding submit_payout_attempt
  submit_prepared_payout again = do
    t ← gets (λ s. s.target)
    run ← gets current_run
    checked (validate_target_progress E run t) λ e. do
      report E (fail_target t.kind "payout" "Payout 目标状态未通过安全校验。" "请保留 current 状态，禁止直接重发。")
      raise (Failure.fatal e)
    checked (validate_payout_journal E t) λ e. do
      report E (fail_target t.kind "payout" "持久化的 Payout journal 未通过安全校验。" "请保留 current 状态，禁止直接重发。")
      raise e
    on_error (save_active_phase E Phase.payout_submitting) λ e. do
      report E
          (fail_target t.kind "payout" "无法持久化 Payout submitting 边界，付款未提交。" "请检查 data 目录和文件系统状态。")
      raise e
    sync_report E
    submit_payout_attempt (suc replay_fuel) again false

  unfoldable pub execute_payout :
      Task E (Unit {0}) → SpotBalanceAmounts Decimal → Decimal → Task E (Unit {0})
  unfolding submit_prepared_payout token_of
  execute_payout again before amount = do
    t ← gets (λ s. s.target)
    report E (
        update_payout t.kind (λ p. record p {
          amount = E.to_string amount;
          settlement_total_before = E.to_string before.total;
        }))
    token ← token_of t
    nonce ← next_nonce E
    prepared ←
        on_error (prepare_spot_send E t.manifest.settlement t.manifest.recipient token amount nonce)
          λ e. do
            alert_once E "payout_prepare_failed" AlertSeverity.warning
                "final payout preparation failed"
            report E (
                fail_target t.kind "payout" "Payout 请求准备失败。" "请检查 Settlement signer、Token 和收款地址配置。")
            raise e
    checked (validate_prepared_payout E t prepared) λ e. do
      report E (fail_target t.kind "payout" "Payout 请求未通过安全校验。" "请保留现场并检查不可变 Manifest 和签名请求。")
      raise e
    report E (update_payout t.kind (λ p. record p { nonce = prepared.nonce }))
    retarget E (λ u. record u {
      payout = some (record {
        prepared = prepared;
        total_before = E.to_string before.total;
        submit_attempts = 1;
      });
    })
    on_error (save_active_phase E Phase.payout_prepared) λ e. do
      report E (fail_target t.kind "payout" "Payout 意图持久化失败，付款未开始。" "请检查 data 目录和文件系统状态。")
      raise e
    sync_report E
    submit_prepared_payout again
