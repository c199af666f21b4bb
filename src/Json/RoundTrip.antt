-- ===== src/Json/RoundTrip.antt =====
-- What crates/ls-json/src/value.rs prints, crates/ls-json/src/parser.rs reads back.
pub mod Numbers
pub mod Strings
pub mod Values
pub mod Nested
pub mod Whole
pub mod Utf8
