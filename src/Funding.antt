-- ===== src/Funding.antt =====
-- internal/funding: the funding orchestrator.
pub mod Model
pub mod Action
pub mod Report
pub mod Daily
pub mod Env
pub mod Session
pub mod Validation
pub mod Progress
pub mod Amount
pub mod Payout
pub mod Run
pub mod Fresh
pub mod Recovery
pub mod RateLimit
pub mod Consolidation
pub mod FinalBalance
pub mod Tasks
pub mod Fuel
pub mod Safety
