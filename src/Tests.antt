-- ===== src/Tests.antt =====
-- Concrete inputs for the theorems, and tests of the definitions.
pub mod World
pub mod Funding
pub mod Services
pub mod Payout
pub mod Consolidation
pub mod Codec
pub mod Daily
pub mod Msgpack
