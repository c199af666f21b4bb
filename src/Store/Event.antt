-- ===== src/Store/Event.antt =====
-- crates/ls-store/src/event.rs: the events, as recorded. The child Json renders them.
pub mod Json
use localsecrets.Common.{Bool, true, false, Option, Bytes, Text}
use localsecrets.Core.Time.{Timestamp}

pub record Sealed : Type 0 where
  pub nonce : Bytes
  pub ciphertext : Bytes

pub data TokenKind : Type 0 where
  root session machine : TokenKind

-- `==` on `TokenKind`.
abbrev pub kind_eq : TokenKind → TokenKind → Bool
kind_eq root root = true
kind_eq session session = true
kind_eq machine machine = true
kind_eq _ _ = false

-- The fields stand in the source's order.
pub data Event : Type 0 where
  user_created : (id email password_hash : Text) (created_at : Timestamp) → Event
  token_issued :
      (id : Text) (token_hash : Bytes) (kind : TokenKind)
      (user_id project_id environment_id label : Option Text) (expires_at : Option Timestamp)
      (created_at : Timestamp)
      → Event
  token_revoked : (id : Text) (at : Timestamp) → Event
  project_created : (id slug name : Text) (data_key : Sealed) (created_at : Timestamp) → Event
  environment_created : (id project_id slug name : Text) (created_at : Timestamp) → Event
  secret_set : (project_id environment_id key : Text) (value : Sealed) (at : Timestamp) → Event
  secret_deleted : (project_id environment_id key : Text) (at : Timestamp) → Event
  audited : (at : Timestamp) (actor action target outcome : Text) → Event
