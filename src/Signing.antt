-- ===== src/Signing.antt =====
-- internal/hyperliquid/signing: nonces and the msgpack encoding.
pub mod Nonce
pub mod Msgpack
