-- ===== src/Funding/Env.antt =====
-- internal/funding/ports.go: what the funding code calls. An environment answers each call as a
-- function of all that happened before, so a theorem for every environment covers every chain,
-- state store, database, clock and task context.
use builder_code_bot.Prelude.{ℕ, Bool, Option, List, String}
use builder_code_bot.Decimal.{Decimals}
use builder_code_bot.Funding.Model.{
  Record, Token, PreparedAction, SubmitResult, SpotBalanceAmounts, RunState,
}
use builder_code_bot.Funding.Daily.{DailyConsolidation}
use builder_code_bot.Funding.Report.{RunReport}
use builder_code_bot.Funding.Action.{Failure, Result}

pub data AlertSeverity : Type 0 where
  warning critical : AlertSeverity

-- The results of StateStore.LoadWithMetadata that the program uses beyond its log.
pub record LoadedState : Type 0 where
  pub current : Option RunState
  pub recovered_from_backup : Bool
  pub error : Option Failure

-- One call and its answer; `none` is a nil error. `A` is the type of amounts.
pub data Effect (A : Type 0) : Type 0 where
  slept : ℕ → Option Failure → Effect A
  drew_nonce : ℕ → Effect A
  read_token : Result Token → Effect A
  read_balance : String → Result (SpotBalanceAmounts A) → Effect A
  read_claimable : String → Result A → Effect A
  read_rate_limit : String → Result ℕ → Effect A
  prepared_claim : String → Result PreparedAction → Effect A
  prepared_send : String → String → A → Result PreparedAction → Effect A
  submitted : PreparedAction → SubmitResult → Option Failure → Effect A
  loaded_state : LoadedState → Effect A
  saved : RunState → Option Failure → Effect A
  archived : RunState → String → Option Failure → Effect A
  cleared : Option Failure → Effect A
  listed : Result (List Record) → Effect A
  completed : List ℕ → Option Failure → Effect A
  loaded_daily : String → Result (Option DailyConsolidation) → Effect A
  saved_daily : DailyConsolidation → Option Failure → Effect A
  reported : RunReport → Effect A
  alerted : String → AlertSeverity → String → Effect A

-- The latest effect comes first.
abbrev pub History : Type 0 → Type 0
History A = List (Effect A)

-- The part of a request body that validatePreparedPayout decodes by encoding/json.
pub record RequestBody : Type 0 where
  pub action_type : String
  pub destination : String
  pub token : String
  pub amount : String
  pub time : ℕ
  pub nonce : ℕ

-- ports.go's interfaces, the task context and encoding/json. Durations are milliseconds.
pub record Env : Type 1 where
  pub numbers : Decimals
  pub open numbers use *
  -- ctx.Err()
  pub context_error : History Decimal → Option Failure
  -- Clock.Now, NonceSource.Next and Sleeper.Sleep
  pub now : History Decimal → ℕ
  pub next_nonce : History Decimal → ℕ
  pub sleep : History Decimal → ℕ → Option Failure
  -- Chain
  pub canonical_usdc : History Decimal → Result Token
  pub claimable_usdc : History Decimal → String → Token → Result Decimal
  pub spot_balance : History Decimal → String → Token → Result (SpotBalanceAmounts Decimal)
  pub user_rate_limit : History Decimal → String → Result ℕ
  pub prepare_claim : History Decimal → String → ℕ → Result PreparedAction
  pub prepare_spot_send :
      History Decimal → String → String → Token → Decimal → ℕ → Result PreparedAction
  pub submit : History Decimal → PreparedAction → SubmitResult × Option Failure
  -- StateStore
  pub load_current : History Decimal → LoadedState
  pub save : History Decimal → RunState → Option Failure
  pub archive : History Decimal → RunState → String → Option Failure
  pub clear : History Decimal → Option Failure
  -- Repository
  pub list_pending : History Decimal → Result (List Record)
  pub complete : History Decimal → List ℕ → Option Failure
  -- DailyConsolidationStore
  pub load_daily : History Decimal → String → Result (Option DailyConsolidation)
  pub save_daily : History Decimal → DailyConsolidation → Option Failure
  -- the accounts that NewOrchestrator was given
  pub settlement : String
  pub recipient : String
  pub builders : List String
  pub builder_name : List ℕ → String
  pub network : String
  -- where the Go scheduler puts the next goroutine among those that are already in line
  pub schedule : History Decimal → ℕ → ℕ
  -- NewRunID's random bytes, and Format(time.DateOnly) of a time in UTC
  pub new_run_id : History Decimal → Result String
  pub date_only : ℕ → String
  -- whether time.Parse(time.DateOnly) reads a text that Format gives back
  pub is_date : String → Bool
  -- json.Unmarshal of a request body
  pub decode_body : List ℕ → Option RequestBody
  -- json.Unmarshal of a rejection: its status and its raw response, and of that response as a text
  pub decode_rejection : List ℕ → Option (String × List ℕ)
  pub decode_text : List ℕ → Option String
