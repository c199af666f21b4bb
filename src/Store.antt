-- ===== src/Store.antt =====
-- crates/ls-store.
pub mod Event
pub mod State
pub mod Log
