-- ===== src/Lib.antt =====
-- A verification library for builder-code-bot, a service that collects builder rewards and pays
-- them out once a day from a settlement account.
--
-- The program. internal/scheduler starts the tasks; internal/funding runs a payout as a state
-- machine: runNew freezes the pending records in a manifest, runPositive waits for a stable
-- settlement balance, executePayout prepares a signed request, and submitPreparedPayout sends it.
-- If the answer is uncertain, observeUncertainPayout watches the balance and confirms, replays the
-- same request once, or blocks. Each phase is saved by internal/state before the next step, and
-- recovery.go goes on from what was saved. A consolidation (consolidation.go,
-- daily_consolidation.go) claims the builders' rewards and sweeps their balances to the settlement
-- account; the daily one stores its record before it claims, and the payout's report shows that
-- record. internal/hyperliquid/signing draws the nonces and encodes the actions that are signed.
--
-- How it is modelled:
-- - Prelude: numbers, texts, lists. Decimal: the decimal library, which is not part of the
--   repository, as a record of the operations that the program calls.
-- - Funding/Model: internal/funding/model.go, and the exchange's and info client's data types.
--   Funding/Action: errors, panics and a method's state; Action/Keeps, Leads, Gives and Same are
--   the rules by which actions keep predicates and agree with one another.
-- - Funding/Env: internal/funding/ports.go. An environment answers each call as a function of all
--   that happened before, so a statement for every environment is one for every chain, store,
--   database, clock and cancellation. Funding/Session: the state of one task, with the history of
--   its calls.
-- - Funding/Report: internal/funding/report.go. Funding/Validation: action_validation.go.
--   Funding/Amount: amount.go and manifest.go. Funding/Progress: the parts of orchestrator.go that
--   all paths share. Funding/Payout (Evidence, Settle, Submit): payout.go. Funding/Run and
--   Funding/Fresh: runPositive, runActiveTarget and runNew of orchestrator.go. Funding/Recovery:
--   recoverState. Funding/RateLimit: rate_limit.go. Funding/FinalBalance: report_observation.go.
--   Report/Builders and Report/Finalize: the aggregation over the builders, newRunReport, finalize
--   and reconcileDailyConsolidation of report.go; Report/Aggregate is about the first of these.
--   Funding/Tasks: Run, RunScheduled and Recover of recovery.go with their deferred calls, and
--   loadCurrent.
-- - Funding/Daily (Validate, Attach): the record of daily_consolidation.go, its validation, and how
--   a report shows it; Daily/Valid, Accepts, Restored and Counts are about them.
--   Funding/Consolidation: Claimables, Baselines, Claims, Observe and Sweep are
--   captureBuilderClaimables, captureClaimBalanceBaselines, claimBuilderRewards,
--   observeClaimBalances and sweepBuilderBalances of orchestrator.go; Parallel holds the rounds of
--   goroutines; Run and Daily are runConsolidation and RunDailyConsolidation. Calls, Costs,
--   Spending, Watching, Sweeping, Captured, Ahead and Bound are about the requests that a
--   consolidation sends, where Bound counts those of one builder under the condition that the
--   client signs with the address it prepares for, as signer of
--   internal/hyperliquid/exchange/client.go does, Settled about the balance of a sweep.
--   Prelude/Dict: Go's maps with text keys.
-- - Funding/Safety: the write-ahead journal. Safety/Quiet collects the actions that send nothing;
--   Boundary and Replay are the durable boundaries; Flow, Execute, Runs, Tasks and Whole follow the
--   calls; Sent, Twice and Requests count what is sent. Payout/Watching and Payout/Exhausted are
--   about the balances behind a confirmation and a replay, Run/Stable about those before a payout.
-- - Amount/Sorted is about a manifest's records, RateLimit/Latch and RateLimit/Visible about alerts
--   and about a count that an action may still lower.
-- - Funding/Fuel: the bounds on the two chains of calls that come back to themselves.
-- - State: internal/state/envelope.go and store.go. Every call of the file system may fail, and the
--   two snapshots are recorded after each change of them. State/Daily:
--   internal/state/daily_consolidation.go, with Daily/Kept and Daily/Answers about what a save
--   leaves. encoding/json and crypto/sha256 are parameters.
-- - Scheduler: internal/scheduler/scheduler.go. Signing/Nonce:
--   internal/hyperliquid/signing/nonce.go. Signing/Msgpack:
--   internal/hyperliquid/signing/msgpack.go; Msgpack/Decode is a reader of the format, Back and
--   Whole set the encoder against it, and Packable is about its errors.
-- - Mysql/Retry: internal/repository/mysql/retry.go.
-- - Tests: concrete inputs.
--
-- Bounds and fuel. submitPayoutAttempt and observeUncertainPayout call one another through the
-- replay; the model gives that chain 2 rounds. runActiveTarget and completeDatabase do too; the
-- model gives that chain 2 rounds. Funding/Fuel compares these bounds with larger ones. The loops
-- over queries are structural, with the code's constants. The scheduler's loop runs over a list of
-- turns of any length. A nonce wraps at 64 bits; times are nanoseconds since 1970 as natural
-- numbers.
--
-- Goroutines. A round starts one goroutine for each builder. The model runs their calls one
-- goroutine after the other, in an order that the environment chooses from all orders. A panic ends
-- the program and leaves its deferred calls out. Time 0 is Go's zero time.
--
-- Not modelled: log lines; hashing and signing of requests, HTTP, SQL and mail, which are I/O or
-- third-party code; the rendering of reports; configuration and secrets; the checks of
-- NewOrchestrator and NewConsolidator, so that every interface is there. A session holds the only
-- payout target of a run in a field of its own, which is where the code's pointer leads.
pub mod Prelude
pub mod Decimal
pub mod Signing
pub mod Scheduler
pub mod State
pub mod Mysql
pub mod Funding
pub mod Tests
