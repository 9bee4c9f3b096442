-- ===== src/Funding/Session.antt =====
-- The state of one funding task in memory, and the calls of the environment as actions on it.
use builder_code_bot.Prelude.{ℕ, Option, List, [], ◌∷◌, String}
use builder_code_bot.Funding.Model.{
  Record, Token, PreparedAction, SubmitResult, SpotBalanceAmounts, PayoutTargetState, RunState,
}
use builder_code_bot.Funding.Daily.{DailyConsolidation}
use builder_code_bot.Funding.Action.{Failure, ok, of_error, Action}
use builder_code_bot.Funding.Env.{AlertSeverity, LoadedState, Effect, History, Env}
use builder_code_bot.Funding.Report.{RunReport}

-- `run` is the RunState and `target` the PayoutTargetState that the code points at. The pointer
-- leads into `run.targets`, of which it is the only element whenever activePayoutTarget has
-- accepted the run; so the session holds that element here, and `current_run` reads the run with
-- it. `alerts` are the keys of the orchestrator's alert set,
-- `low_limits` those of its set of accounts with a low rate limit.
pub record Session (A : Type 0) : Type 0 where
  pub run : RunState
  pub target : PayoutTargetState
  pub report : RunReport
  pub alerts : List String
  pub low_limits : List (List ℕ)
  pub history : History A

unfoldable pub current_run : {A : Type 0} → Session A → RunState
current_run s = record s.run { targets = s.target ∷ [] }

abbrev pub write_report : {A : Type 0} → (RunReport → RunReport) → Session A → Session A
write_report f s = record s { report = f s.report }

abbrev pub write_target :
    {A : Type 0} → (PayoutTargetState → PayoutTargetState) → Session A → Session A
write_target f s = record s { target = f s.target }

abbrev pub happen : {A : Type 0} → Effect A → Session A → Session A
happen e s = record s { history = e ∷ s.history }

module _ (E : Env) where
  open E use {Decimal}

  abbrev pub Task : Type 0 → Type 0
  Task = Action (Session Decimal)

  unfoldable pub check_context : Task (Unit {0})
  check_context s = (of_error (E.context_error s.history), s)

  unfoldable pub now : Task ℕ
  now s = (ok (E.now s.history), s)

  unfoldable pub next_nonce : Task ℕ
  next_nonce s = let n = E.next_nonce s.history in (ok n, happen (Effect.drew_nonce n) s)

  unfoldable pub sleep : ℕ → Task (Unit {0})
  sleep ms s = let e = E.sleep s.history ms in (of_error e, happen (Effect.slept ms e) s)

  unfoldable pub canonical_usdc : Task Token
  canonical_usdc s = let r = E.canonical_usdc s.history in (r, happen (Effect.read_token r) s)

  unfoldable pub spot_balance : String → Token → Task (SpotBalanceAmounts Decimal)
  spot_balance address token s =
      let r = E.spot_balance s.history address token in
      (r, happen (Effect.read_balance address r) s)

  unfoldable pub claimable_usdc : String → Token → Task Decimal
  claimable_usdc address token s =
      let r = E.claimable_usdc s.history address token in
      (r, happen (Effect.read_claimable address r) s)

  unfoldable pub prepare_claim : String → ℕ → Task PreparedAction
  prepare_claim address nonce s =
      let r = E.prepare_claim s.history address nonce in
      (r, happen (Effect.prepared_claim address r) s)

  unfoldable pub prepare_spot_send : String → String → Token → Decimal → ℕ → Task PreparedAction
  prepare_spot_send address destination token amount nonce s =
      let r = E.prepare_spot_send s.history address destination token amount nonce in
      (r, happen (Effect.prepared_send address destination amount r) s)

  -- The result and the error come back together.
  unfoldable pub submit : PreparedAction → Task (SubmitResult × Option Failure)
  submit action s =
      let (r, e) = E.submit s.history action in (ok (r, e), happen (Effect.submitted action r e) s)

  -- The loaded state, its metadata and the error come back together.
  unfoldable pub load_current : Task LoadedState
  load_current s = let r = E.load_current s.history in (ok r, happen (Effect.loaded_state r) s)

  -- o.alert
  unfoldable pub alert : String → AlertSeverity → String → Task (Unit {0})
  alert key severity message s = (ok tt, happen (Effect.alerted key severity message) s)

  -- Notifier.Report
  unfoldable pub deliver : RunReport → Task (Unit {0})
  deliver r s = (ok tt, happen (Effect.reported r) s)

  unfoldable pub save : RunState → Task (Unit {0})
  save run s = let e = E.save s.history run in (of_error e, happen (Effect.saved run e) s)

  unfoldable pub archive : RunState → String → Task (Unit {0})
  archive run result s =
      let e = E.archive s.history run result in
      (of_error e, happen (Effect.archived run result e) s)

  unfoldable pub clear : Task (Unit {0})
  clear s = let e = E.clear s.history in (of_error e, happen (Effect.cleared e) s)

  unfoldable pub list_pending : Task (List Record)
  list_pending s = let r = E.list_pending s.history in (r, happen (Effect.listed r) s)

  unfoldable pub complete : List ℕ → Task (Unit {0})
  complete ids s =
      let e = E.complete s.history ids in (of_error e, happen (Effect.completed ids e) s)

  unfoldable pub load_daily : String → Task (Option DailyConsolidation)
  load_daily date s =
      let r = E.load_daily s.history date in (r, happen (Effect.loaded_daily date r) s)

  unfoldable pub save_daily : DailyConsolidation → Task (Unit {0})
  save_daily c s =
      let e = E.save_daily s.history c in (of_error e, happen (Effect.saved_daily c e) s)
