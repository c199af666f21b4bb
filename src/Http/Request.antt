-- ===== src/Http/Request.antt =====
-- crates/ls-http/src/request.rs: `Request`, `read` and the lookups.
use localsecrets.Common.{
  ℕ, Bool, true, false, ◌&&◌, List, Option, none, some, [], ◌∷◌, ◌++◌, Bytes, Text, codes, length,
  find, bytes_eq, to_ascii_lowercase, ◌==◌, ltb, if◌then◌else◌, ◌||◌,
}
use localsecrets.Common.Utf8.{is_utf8}
use localsecrets.Common.Results.{Result, ok, err, ◌>>=◌}
use localsecrets.Http.{
  Limits, HttpError, incomplete, ambiguous_length, ambiguous_host, unsupported_transfer_encoding,
  body_too_large, too_many_headers,
}
use localsecrets.Http.Head.{Reader, read_head, read_body}
use localsecrets.Http.Parts.{
  split, strip_cr, parse_request_line, parse_header, parse_content_length, split_target,
}

pub record Request : Type 0 where
  pub method : Text
  pub path : Text
  pub query : List (Text × Text)
  pub headers : List (Text × Text)
  pub body : Bytes

-- What `read` gathers from the header lines.
pub record Gathered : Type 0 where
  pub headers : List (Text × Text)
  pub content_length : Option ℕ
  pub seen_host : Bool

abbrev pub nothing_gathered : Gathered
nothing_gathered = record { headers = []; content_length = none; seen_host = false }

abbrev pub is_host : Text → Bool
is_host name = bytes_eq name (codes "host")

abbrev pub is_transfer_encoding : Text → Bool
is_transfer_encoding name = bytes_eq name (codes "transfer-encoding")

abbrev pub is_content_length : Text → Bool
is_content_length name = bytes_eq name (codes "content-length")

-- `if name == "content-length"`: the length known behind the header.
abbrev pub next_length : Bool → Option ℕ → Text → Result (Option ℕ) HttpError
next_length false seen value = ok seen
next_length true (some n) value = err ambiguous_length
next_length true none value = parse_content_length value >>= λ n. ok (some n)

-- The three tests of a header's name, and its push.
unfoldable pub add_header : Gathered → Text → Text → Result Gathered HttpError
add_header g name value =
    if is_host name && g.seen_host
    then err ambiguous_host
    else if is_transfer_encoding name
    then err unsupported_transfer_encoding
    else next_length (is_content_length name) g.content_length value >>= λ known. ok (record {
      headers = g.headers ++ (name, value) ∷ [];
      content_length = known;
      seen_host = is_host name || g.seen_host;
    })

module _ (limits : Limits) where
  -- One round of the loop over the lines behind the first, on a line that is not empty.
  unfoldable pub gather_line : Gathered → Bytes → Result Gathered HttpError
  gather_line g line =
      if length g.headers == limits.max_headers
      then err too_many_headers
      else parse_header line >>= λ header. add_header g header.0 header.1

  unfoldable pub gather : Gathered → List Bytes → Result Gathered HttpError
  gather g [] = ok g
  gather g (raw ∷ lines) = strip_cr raw >>= λ line. elim line [
    | [] ↦ ok g
    | b ∷ bs ↦ gather_line g (b ∷ bs) >>= λ longer. gather longer lines
  ]

  module _ (clock : ℕ → ℕ) where
    unfoldable pub body_of : Option ℕ → Reader → ℕ → Result Bytes HttpError
    body_of none reader turn = ok []
    body_of (some declared) reader turn =
        if declared == 0
        then ok []
        else if ltb limits.max_body declared
        then err (body_too_large declared limits.max_body)
        else read_body limits clock reader turn declared

    unfoldable pub read_lines : List Bytes → Reader → ℕ → Result Request HttpError
    read_lines [] reader turn = err incomplete
    read_lines (first ∷ lines) reader turn = do
      request_line ← strip_cr first
      (method, target) ← parse_request_line request_line
      gathered ← gather nothing_gathered lines
      (path, query) ← split_target target
      body ← body_of gathered.content_length reader turn
      ok (record {
        method = method;
        path = path;
        query = query;
        headers = gathered.headers;
        body = body;
      })

    -- `Request::read`.
    unfoldable pub read : Reader → Result Request HttpError
    read reader = do
      (head, rest, turn) ← read_head limits clock reader 0 []
      read_lines (split 10 head) rest turn

abbrev pub snd_of : Option (Text × Text) → Option Text
snd_of none = none
snd_of (some pair) = some pair.1

unfoldable pub header : Request → Text → Option Text
header r name = snd_of (find (λ pair. bytes_eq pair.0 (to_ascii_lowercase name)) r.headers)

unfoldable pub query_value : Request → Text → Option Text
query_value r name = snd_of (find (λ pair. bytes_eq pair.0 name) r.query)

unfoldable pub body_text : Request → Option Text
body_text r = if is_utf8 r.body then some r.body else none
