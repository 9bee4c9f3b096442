-- ===== src/State.antt =====
-- internal/state: the snapshots of a run on disk.
pub mod Envelope
pub mod Store
pub mod Daily
