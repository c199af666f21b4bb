-- ===== src/Json.antt =====
-- crates/ls-json: a value, its rendering, and a strict parser.
pub mod Value
pub mod Printer
pub mod Parser
mod Examples
pub mod RoundTrip
pub mod Sound
