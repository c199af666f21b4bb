-- ===== src/Core/Encoding.antt =====
-- crates/ls-core/src/encoding.rs.
pub mod Hex
pub mod B64
mod Examples
