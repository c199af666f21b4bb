-- ===== src/Core.antt =====
-- crates/ls-core.
pub mod Encoding
pub mod Time
pub mod Aead
pub mod Token
pub mod Shamir
