-- ===== src/Json/Parser.antt =====
-- crates/ls-json/src/parser.rs: `Parser` and its small steps. The position is told by what is left
-- of the bytes. The child Scalars reads strings and numbers, Values the nested values.
pub mod Scalars
pub mod Values
use localsecrets.Common.{
  ℕ, suc, ◌+◌, ◌-◌, ◌≤◌, ◌≡◌, Bool, true, false, ◌&&◌, ◌||◌, Option, none, some, List, [], ◌∷◌,
  Bytes, Text, length, drop, has_prefix, ◌==◌, leb, ltb, if◌then◌else◌,
}
use localsecrets.Common.Results.{Result, ok, err}
use localsecrets.Json.Value.{Value, JsonError, unexpected_end, too_deep, unexpected, max_depth}

-- `rest` is `bytes[position..]`.
pub record Parser : Type 0 where
  pub bytes : Bytes
  pub rest : Bytes
  pub depth : ℕ

abbrev pub position : Parser → ℕ
position p = length p.bytes - length p.rest

abbrev pub move_to : Parser → Bytes → Parser
move_to p rest = record p { rest = rest }

abbrev pub at : Bytes → ℕ → Bytes → Parser
at bytes depth rest = record { bytes = bytes; rest = rest; depth = depth }

-- A method with `&mut self`; after an error the parser is not used again.
abbrev pub Reader {ℓ} : Type ℓ → Type ℓ
Reader A = Parser → Result (A × Parser) JsonError

abbrev pub and_then {ℓ κ} :
    {A : Type ℓ} {B : Type κ}
    → Result (A × Parser) JsonError
    → (A → Reader B)
    → Result (B × Parser) JsonError
and_then (ok (a, p)) f = f a p
and_then (err e) f = err e

infixl 5 ◌>>=◌ ◌>>◌
abbrev pub ◌>>=◌ {ℓ κ} : {A : Type ℓ} {B : Type κ} → Reader A → (A → Reader B) → Reader B
◌>>=◌ m f p = and_then (m p) f

abbrev pub ◌>>◌ {ℓ} : {B : Type ℓ} → Reader (Unit {0}) → Reader B → Reader B
m >> k = m >>= λ _. k

abbrev pub pure {ℓ} : {A : Type ℓ} → A → Reader A
pure a p = ok (a, p)

abbrev pub run {ℓ} : {A : Type ℓ} → Parser → Reader A → Result (A × Parser) JsonError
run p m = m p

abbrev pub fail_with {ℓ} : {A : Type ℓ} → JsonError → Reader A
fail_with e p = err e

-- `option.ok_or(e)?`
abbrev pub ok_or {ℓ} : {A : Type ℓ} → JsonError → Option A → Reader A
ok_or e none p = err e
ok_or e (some a) p = ok (a, p)

abbrev pub unexpected_at : Parser → JsonError
unexpected_at p = unexpected (position p)

unfoldable pub at_end : Bytes → Bool
at_end [] = true
at_end (b ∷ bs) = false

-- `peek() == Some(byte)`.
unfoldable pub looking_at : ℕ → Bytes → Bool
looking_at byte [] = false
looking_at byte (b ∷ bs) = b == byte

-- `bump().ok_or(UnexpectedEnd)?`
unfoldable pub bump : Reader ℕ
bump p = elim p.rest [ [] ↦ err unexpected_end | b ∷ bs ↦ ok (b, move_to p bs) ]

-- The error is at the byte that was read.
unfoldable pub expect : ℕ → Reader (Unit {0})
unfolding bump
expect byte p = elim (bump p) [
  | ok (found, p') ↦ if found == byte then ok (tt, p') else err (unexpected_at p)
  | err e ↦ err e
]

unfoldable pub is_white : ℕ → Bool
is_white b = b == 0x20 || b == 0x9 || b == 0xa || b == 0xd

unfoldable pub after_white : Bytes → Bytes
unfolding is_white
after_white [] = []
after_white (b ∷ bs) = let rest = after_white bs in if is_white b then rest else b ∷ bs

unfoldable pub skip_whitespace : Reader (Unit {0})
unfolding after_white
skip_whitespace p = ok (tt, move_to p (after_white p.rest))

unfoldable pub literal : Text → Value → Reader Value
unfolding has_prefix
literal word value p =
    if has_prefix word p.rest
    then ok (value, move_to p (drop (length word) p.rest))
    else err (unexpected_at p)

-- `self.position += 1`, where a byte was seen.
unfoldable pub skip_byte : Reader (Unit {0})
skip_byte p = ok (tt, move_to p (drop 1 p.rest))

unfoldable pub enter : Reader (Unit {0})
enter p =
    if ltb max_depth (p.depth + 1) then err too_deep else ok (tt, record p { depth = p.depth + 1 })

-- `self.depth -= 1`.
unfoldable pub leave : Reader (Unit {0})
leave p = ok (tt, record p { depth = p.depth - 1 })

unfoldable pub is_digit : ℕ → Bool
is_digit b = leb b'0' b && leb b b'9'
