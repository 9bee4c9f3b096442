-- ===== src/Funding/Consolidation.antt =====
-- internal/funding/consolidation.go and the consolidation in internal/funding/orchestrator.go: the
-- builders' rewards are claimed and their balances are swept to the settlement account.
pub mod Parallel
pub mod Claimables
pub mod Baselines
pub mod Claims
pub mod Observe
pub mod Sweep
pub mod Run
pub mod Daily
pub mod Calls
pub mod Costs
pub mod Spending
pub mod Watching
pub mod Sweeping
pub mod Settled
pub mod Captured
pub mod Ahead
pub mod Bound
