-- ===== src/Server/Setting.antt =====
-- What crates/ls-server/src/vault.rs stands on: the clock, the disk, the random numbers, and the
-- cryptography of other crates. A moment of the program is a number, its turn: what is read or
-- written at a turn is up to these functions, which are arguments of all that follows.
use localsecrets.Common.{ℕ, ◌≡◌, Bool, Option, some, Bytes, Text, length}
use localsecrets.Common.Results.{Result}
use localsecrets.Core.Time.{Timestamp}
use localsecrets.Core.Aead.{Cipher}
use localsecrets.Store.Event.{Event}
use localsecrets.Store.Log.{Disk}

-- `PasswordError`, as far as the vault looks at it.
pub data PasswordError : Type 0 where
  entropy refused : PasswordError

-- `Event::to_bytes` and `Event::from_bytes`: what was rendered reads back, for the events that
-- have a rendering (their texts are UTF-8 and their moments are in range).
pub record EventCodec : Type 1 where
  pub to_bytes : Event → Bytes
  pub from_bytes : Bytes → Option Event
  pub IsWritable : Event → Type 0
  pub from_bytes-to_bytes : (e : Event) → IsWritable e → from_bytes (to_bytes e) ≡ some e

pub record Setting : Type 1 where
  pub cipher : Cipher
  pub codec : EventCodec
  pub sha256 : Bytes → Bytes
  -- `password::hash`, with the salt that it draws; `password::verify`.
  pub password_hash : Text → Option Bytes → Result Text PasswordError
  pub password_verify : Text → Text → Bool
  pub now : (turn : ℕ) → Timestamp
  pub random : (turn size : ℕ) → Option Bytes
  -- `random::fill` fills the whole of what it is given.
  pub random_length :
      (turn size : ℕ) (bytes : Bytes) → random turn size ≡ some bytes → length bytes ≡ size
  pub disk : (turn : ℕ) → Disk
