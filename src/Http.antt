-- ===== src/Http.antt =====
-- crates/ls-http: `Limits` and `HttpError` in lib.rs, and how request.rs reads a request.
-- `Io`, which reading never returns, is left out.
pub mod Head
pub mod Parts
pub mod Request
pub mod Framing
pub mod Cut
mod Examples
use localsecrets.Common.{ℕ, Text}

-- The deadline is in the unit that the clock counts in.
pub record Limits : Type 0 where
  pub max_head : ℕ
  pub max_headers : ℕ
  pub max_body : ℕ
  pub head_deadline : ℕ

pub data HttpError : Type 0 where
  incomplete : HttpError
  timed_out : HttpError
  malformed : Text → HttpError
  unsupported_version : Text → HttpError
  ambiguous_length : HttpError
  ambiguous_host : HttpError
  unsupported_transfer_encoding : HttpError
  incomplete_body : HttpError
  body_too_large : (declared limit : ℕ) → HttpError
  head_too_large : HttpError
  too_many_headers : HttpError
