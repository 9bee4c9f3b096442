-- ===== src/Funding/Payout.antt =====
-- internal/funding/payout.go: preparing, submitting, observing and settling the final payout.
pub mod Evidence
pub mod Exhausted
pub mod Settle
pub mod Submit
pub mod Watching
