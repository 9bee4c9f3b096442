-- ===== src/Funding/Safety.antt =====
-- The safety of the payouts of internal/funding.
pub mod Boundary
pub mod Flow
pub mod Journal
pub mod Quiet
pub mod Replay
pub mod Submit
pub mod Execute
pub mod Runs
pub mod Tasks
pub mod WriteAhead
pub mod Whole
pub mod Sent
pub mod Twice
pub mod Payload
pub mod Requests
