-- ===== src/Server/Validate.antt =====
-- crates/ls-server/src/validate.rs.
pub mod Names
mod Examples
use localsecrets.Common.{
  ℕ, Bool, true, false, not, ◌&&◌, ◌||◌, Option, none, some, [], ◌∷◌, Text, codes, length, ltb, leb,
  ◌==◌, if◌then◌else◌, trim, to_ascii_lowercase,
}
use localsecrets.Common.Results.{Result, ok, err}
use localsecrets.Server.Errors.{VaultError, invalid}

abbrev pub max_slug : ℕ
max_slug = 64

abbrev pub max_key : ℕ
max_key = 256

abbrev pub max_email : ℕ
max_email = 254

-- `bytes().all`.
unfoldable pub every : (ℕ → Bool) → Text → Bool
every test [] = true
every test (b ∷ rest) = test b && every test rest

abbrev pub is_ascii_lowercase : ℕ → Bool
is_ascii_lowercase b = leb b'a' b && leb b b'z'

abbrev pub is_ascii_uppercase : ℕ → Bool
is_ascii_uppercase b = leb b'A' b && leb b b'Z'

abbrev pub is_ascii_digit : ℕ → Bool
is_ascii_digit b = leb b'0' b && leb b b'9'

-- `starts_with` and `ends_with`, of one character.
unfoldable pub starts_with : ℕ → Text → Bool
starts_with c [] = false
starts_with c (b ∷ rest) = b == c

unfoldable pub ends_with : ℕ → Text → Bool
ends_with c [] = false
ends_with c (b ∷ []) = b == c
ends_with c (b ∷ b' ∷ rest) = ends_with c (b' ∷ rest)

abbrev pub slug_byte : ℕ → Bool
slug_byte b = is_ascii_lowercase b || is_ascii_digit b || b == b'-'

unfoldable pub slug : Text → Text → Result Text VaultError
slug input what =
    if length input == 0 || ltb max_slug (length input)
    then err (invalid what)
    else if starts_with b'-' input || ends_with b'-' input
    then err (invalid what)
    else if not (every slug_byte input)
    then err (invalid what)
    else ok input

abbrev pub key_byte : ℕ → Bool
key_byte b =
    is_ascii_lowercase b
    || is_ascii_uppercase b
    || is_ascii_digit b
    || b == b'_'
    || b == b'.'
    || b == b'-'

unfoldable pub secret_key : Text → Result Text VaultError
secret_key input =
    if length input == 0 || ltb max_key (length input)
    then err (invalid (codes "secret key"))
    else if not (every key_byte input)
    then err (invalid (codes "secret key"))
    else ok input

-- `split_once`, at one character.
unfoldable pub split_once : ℕ → Text → Option (Text × Text)
split_once c [] = none
split_once c (b ∷ rest) =
    let later = split_once c rest in
    if b == c
    then some ([], rest)
    else elim later [ none ↦ none | some halves ↦ some (b ∷ halves.0, halves.1) ]

-- `trimmed.bytes().any(|b| b <= b' ' || b == 0x7f)`, negated.
abbrev pub printable_byte : ℕ → Bool
printable_byte b = not (leb b b' ' || b == 0x7f)

-- The checks on the two halves of an address.
abbrev pub halves_ok : Text × Text → Bool
halves_ok (local, domain) =
    not (length local == 0) && not (length domain == 0) && every (λ b. not (b == b'@')) domain

unfoldable pub email : Text → Result Text VaultError
email input =
    let trimmed = to_ascii_lowercase (trim input) in
    if ltb (length trimmed) 3 || ltb max_email (length trimmed)
    then err (invalid (codes "email"))
    else elim (split_once b'@' trimmed) [
      | none ↦ err (invalid (codes "email"))
      | some halves ↦
          if not (halves_ok halves)
          then err (invalid (codes "email"))
          else if not (every printable_byte trimmed)
          then err (invalid (codes "email"))
          else ok trimmed
    ]
