-- ===== src/Http/Parts.antt =====
-- crates/ls-http/src/request.rs: the request line, a header, `Content-Length`, the target.
use localsecrets.Common.{
  ℕ, ◌+◌, ◌-◌, ◌*◌, ◌^◌, Bool, true, false, not, ◌&&◌, ◌||◌, List, Option, none, some, [], ◌∷◌,
  Bytes, Text, has_prefix, codes, to_ascii_lowercase, bytes_eq, read_from, ◌==◌, ltb, leb,
  if◌then◌else◌,
}
use mathlib.Core.List.{reverse}
use localsecrets.Common.Utf8.{is_utf8}
use localsecrets.Common.Results.{Result, ok, err, ◌>>=◌, ◌>>◌}
use localsecrets.Http.{HttpError, malformed, unsupported_version}

abbrev pub all : (ℕ → Bool) → Bytes → Bool
all test [] = true
all test (b ∷ bs) = test b && all test bs

abbrev pub any : (ℕ → Bool) → Bytes → Bool
any test [] = false
any test (b ∷ bs) = test b || any test bs

abbrev pub is_empty : Bytes → Bool
is_empty [] = true
is_empty (b ∷ bs) = false

-- A byte in front of the first piece.
abbrev pub on_first : ℕ → List Bytes → List Bytes
on_first b [] = (b ∷ []) ∷ []
on_first b (piece ∷ pieces) = (b ∷ piece) ∷ pieces

-- `split`, which finds one piece at least.
unfoldable pub split : ℕ → Bytes → List Bytes
split at [] = [] ∷ []
split at (b ∷ bs) = let pieces = split at bs in if b == at then [] ∷ pieces else on_first b pieces

-- `split_once`, and a `find` with the two pieces beside it.
unfoldable pub split_once : ℕ → Bytes → Option (Bytes × Bytes)
split_once at [] = none
split_once at (b ∷ bs) = elim (b == at) [
  | true ↦ some ([], bs)
  | false ↦ elim (split_once at bs) [ none ↦ none | some pair ↦ some (b ∷ pair.0, pair.1) ]
]

unfoldable pub strip_cr : Bytes → Result Bytes HttpError
strip_cr line = elim (reverse line) [
  | [] ↦ ok []
  | b ∷ bs ↦
      if b == 13 then ok (reverse bs) else err (malformed (codes "line does not end with CRLF"))
]

-- `char::is_ascii_alphanumeric`, and the listed marks.
unfoldable pub is_token_byte : ℕ → Bool
is_token_byte b =
    leb b'0' b && leb b b'9'
    || leb b'A' b && leb b b'Z'
    || leb b'a' b && leb b b'z'
    || any (λ mark. b == mark) (codes "!#$%&'*+-.^_`|~")

abbrev pub check_version : Text → Result (Unit {0}) HttpError
check_version version =
    if bytes_eq version (codes "HTTP/1.1") || bytes_eq version (codes "HTTP/1.0")
    then ok tt
    else if has_prefix (codes "HTTP/") version
    then err (unsupported_version version)
    else err (malformed (codes "version"))

abbrev pub request_words : List Text → Result (Text × Text) HttpError
request_words [] = err (malformed (codes "missing target"))
request_words (method ∷ []) = err (malformed (codes "missing target"))
request_words (method ∷ target ∷ []) = err (malformed (codes "missing version"))
request_words (method ∷ target ∷ version ∷ []) =
    if is_empty method || not (all is_token_byte method)
    then err (malformed (codes "method"))
    else if not (has_prefix (codes "/") target)
    then err (malformed (codes "target must be an absolute path"))
    else (check_version version >> ok (method, target))
request_words (method ∷ target ∷ version ∷ word ∷ words) =
    err (malformed (codes "extra words in request line"))

unfoldable pub parse_request_line : Bytes → Result (Text × Text) HttpError
unfolding split is_token_byte
parse_request_line line =
    if is_utf8 line then request_words (split 32 line) else err (malformed (codes "request line"))

-- `trim_matches([' ', '\t'])`.
abbrev pub is_blank : ℕ → Bool
is_blank b = b == 32 || b == 9

abbrev pub trim_front : Bytes → Bytes
trim_front [] = []
trim_front (b ∷ bs) = if is_blank b then trim_front bs else b ∷ bs

abbrev pub trim_blanks : Bytes → Bytes
trim_blanks text = reverse (trim_front (reverse (trim_front text)))

abbrev pub is_folded : Bytes → Bool
is_folded [] = false
is_folded (b ∷ bs) = is_blank b

abbrev pub header_of : Option (Text × Text) → Result (Text × Text) HttpError
header_of none = err (malformed (codes "header without a colon"))
header_of (some (name, raw)) =
    if is_empty name || not (all is_token_byte name)
    then err (malformed (codes "header name"))
    else if any (λ b. ltb b 0x20 && not (b == 9)) (trim_blanks raw)
    then err (malformed (codes "control character in header value"))
    else ok (to_ascii_lowercase name, trim_blanks raw)

unfoldable pub parse_header : Bytes → Result (Text × Text) HttpError
unfolding split_once is_token_byte
parse_header line =
    if is_folded line
    then err (malformed (codes "folded header line"))
    else if is_utf8 line
    then header_of (split_once b':' line)
    else err (malformed (codes "header encoding"))

-- `usize::from_str` of digits, where a `usize` has 64 bits.
unfoldable pub parse_content_length : Text → Result ℕ HttpError
unfolding read_from
parse_content_length value =
    if is_empty value || not (all (λ b. leb b'0' b && leb b b'9') value)
    then err (malformed (codes "Content-Length"))
    else if ltb (read_from 0 value) (2 ^ 64)
    then ok (read_from 0 value)
    else err (malformed (codes "Content-Length"))

unfoldable pub hex_value : ℕ → Option ℕ
hex_value b =
    if leb b'0' b && leb b b'9'
    then some (b - b'0')
    else if leb b'a' b && leb b b'f'
    then some (b - b'a' + 10)
    else if leb b'A' b && leb b b'F'
    then some (b - b'A' + 10)
    else none

abbrev pub escape_of : Option ℕ → Option ℕ → Result ℕ HttpError
escape_of (some high) (some low) = ok (high * 16 + low)
escape_of (some high) none = err (malformed (codes "percent escape"))
escape_of none low = err (malformed (codes "percent escape"))

abbrev pub plain_byte : Bool → ℕ → ℕ
plain_byte plus_is_space b = if plus_is_space && b == b'+' then 32 else b

-- The loop of `percent_decode`.
unfoldable pub decode_bytes : Bool → Bytes → Result Bytes HttpError
unfolding hex_value
decode_bytes plus [] = ok []
decode_bytes plus (b ∷ []) = elim (b == b'%') [
  | true ↦ err (malformed (codes "truncated percent escape"))
  | false ↦ ok (plain_byte plus b ∷ [])
]
decode_bytes plus (b ∷ c ∷ []) = elim (b == b'%') [
  | true ↦ err (malformed (codes "truncated percent escape"))
  | false ↦ decode_bytes plus (c ∷ []) >>= λ out. ok (plain_byte plus b ∷ out)
]
decode_bytes plus (b ∷ c ∷ d ∷ rest) = elim (b == b'%') [
  | true ↦ escape_of (hex_value c) (hex_value d) >>= λ byte.
      decode_bytes plus rest >>= λ out. ok (byte ∷ out)
  | false ↦ decode_bytes plus (c ∷ d ∷ rest) >>= λ out. ok (plain_byte plus b ∷ out)
]

unfoldable pub percent_decode : Bool → Text → Result Text HttpError
unfolding decode_bytes
percent_decode plus input = decode_bytes plus input >>= λ out.
    if any (λ b. b == 0) out
    then err (malformed (codes "null byte in target"))
    else if is_utf8 out
    then ok out
    else err (malformed (codes "target is not valid UTF-8"))

-- A pair without `=` is a key without a value.
abbrev pub key_value : Text → Option (Text × Text) → Text × Text
key_value pair none = (pair, [])
key_value pair (some parts) = parts

unfoldable pub query_of : List Text → Result (List (Text × Text)) HttpError
unfolding percent_decode split_once
query_of [] = ok []
query_of ([] ∷ pairs) = query_of pairs
query_of ((b ∷ bs) ∷ pairs) = do
  let parts = key_value (b ∷ bs) (split_once b'=' (b ∷ bs))
  key ← percent_decode true parts.0
  value ← percent_decode true parts.1
  query ← query_of pairs
  ok ((key, value) ∷ query)

abbrev pub query_pairs : Option (Text × Text) → List Text
query_pairs none = []
query_pairs (some parts) = split b'&' parts.1

abbrev pub path_of : Text → Option (Text × Text) → Text
path_of target none = target
path_of target (some parts) = parts.0

unfoldable pub split_target : Text → Result (Text × List (Text × Text)) HttpError
unfolding percent_decode query_of split_once split
split_target target = do
  path ← percent_decode false (path_of target (split_once b'?' target))
  query ← query_of (query_pairs (split_once b'?' target))
  ok (path, query)
