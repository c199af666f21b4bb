-- ===== src/Server.antt =====
-- crates/ls-server: the vault and what it stands on.
pub mod Errors
pub mod Validate
pub mod Setting
pub mod Codec
pub mod RateLimit
pub mod Vault
