-- ===== src/Funding/Fuel.antt =====
-- The fuel of the funding model, compared with more of it.
pub mod Again
pub mod Replay
