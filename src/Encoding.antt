-- ===== src/Encoding.antt =====
-- dcb-layer/src/encoding.rs: tag canonicalisation, keys and event values.
pub mod Tags
pub mod Keys
pub mod Values
