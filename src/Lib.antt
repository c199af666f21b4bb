-- ===== src/Lib.antt =====
-- localsecrets keeps secrets in an encrypted, append-only log: crates/ls-core (encodings,
-- cryptography, time), crates/ls-json (JSON), crates/ls-http (requests), crates/ls-store (events, the
-- state they fold to, the log on disk), crates/ls-server (the vault, its HTTP
-- interface). Here are the parts that decide what is kept, who may read it and what survives a
-- crash.
--
-- Core.Encoding is crates/ls-core/src/encoding.rs: B64 and Hex, each with its Laws.
-- Core.Aead is crates/ls-core/src/crypto/aead.rs: `Aad`, `DataKey` and `Envelope`. AES-256-GCM is
-- a parameter, the record `Cipher`, whose one law is that what was encrypted decrypts.
-- Core.Time is crates/ls-core/src/time.rs: a moment and its bounded arithmetic; its children Civil
-- (the calendar), Era (its arithmetic) and Rfc3339 (`to_rfc3339`, `parse_rfc3339`).
-- Core.Shamir is crates/ls-core/src/crypto/shamir.rs: the field of 256 elements, `split` and
-- `combine`, with the random coefficients an argument.
-- Core.Token is crates/ls-core/src/crypto/token.rs, with SHA-256 a parameter.
--
-- Json is crates/ls-json/src: Value is value.rs and the constants of lib.rs, Printer is
-- `Display for Value`, and Parser is parser.rs, with Scalars for strings and numbers and Values for
-- what nests. A parser is what is left to read and the depth; `string` is `read_string`. RoundTrip
-- and Sound hold the proofs. The parser runs on fuel, which JsonError reports as `out_of_fuel`.
-- How an `f64` is printed and read is a parameter, `FloatText`.
--
-- Http is crates/ls-http/src/request.rs and the limits and errors of lib.rs: Head is `read_head` and
-- `read_body` over the chunks of a reader, Parts the request line, a header and the target, Request
-- `Request::read` and the lookups. The clock is an argument. Framing and Cut hold the proofs.
--
-- Store.Event and Store.State are crates/ls-store/src/event.rs and state.rs: `Event`, the records
-- of `State`, `State::apply` (`apply`) and its lookups. A fold of events is `apply_all`.
-- Store.Event.Json renders events and reads them: `to_value`, and in Reading `from_value`,
-- `to_bytes` and `from_bytes`; Server.Codec hands these to the vault.
-- Store.Log and Store.Log.Sealed are crates/ls-store/src/log.rs. A `Log` carries the bytes of its
-- file; a write takes what the disk makes of it (`Disk`), the random bytes that a seal draws are
-- an argument, and an error is a value of `Result`. `open` is `open_log`, since `open` is a word
-- of the language.
--
-- Server.Validate and Server.RateLimit are crates/ls-server/src/validate.rs and rate_limit.rs.
-- Server.Vault is vault.rs: `Caller`, `Capability`, `Vault`, `commit` and the checks; its children
-- Secrets and Accounts hold the operations and Keys the sealing, the unsealing and the replay of
-- the log. What the vault stands on is one parameter, `Setting`: the cipher, the hashes, the
-- rendering of events (an interface with a round trip as its law), and the clock, the disk and the
-- random numbers, which answer at each turn as they like; the field `turn` of a vault counts the
-- turns. An operation gives a result and the vault it leaves. Steps and Moves reduce the operations
-- on secrets and accounts to a run of commits, Moves.Runs adds what else may happen to a vault, and
-- Outcomes reads a success backwards.
--
-- Texts and byte strings are lists of numbers, the bytes that the Rust strings hold. Numbers are
-- natural numbers; a width is written out as a remainder where the source casts. The loops over
-- the file run on fuel, the length of the file; a record takes at least one byte of it.
--
-- Not modelled: passwords and randomness (other crates), logging, the command line and sockets
-- (input and output); the HTTP responses, threads and client, the routing, the printed form of a
-- share, and of the vault its creation, the change of its keys and its audit trail.
mod Common
pub mod Core
pub mod Json
pub mod Http
pub mod Store
pub mod Server
