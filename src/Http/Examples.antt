-- ===== src/Http/Examples.antt =====
-- Requests to crates/ls-http, read whole and in pieces.
use localsecrets.Common.{
  find, has_prefix, bytes_eq, lower, ℕ, ◌+◌, ◌≡◌, refl, some, [], ◌∷◌, ◌++◌, arith, Bytes, codes,
  length, ◌-◌, take,
}
use localsecrets.Common.Utf8.{is_utf8}
use localsecrets.Common.Results.{ok, err}
use localsecrets.Http.{Limits, ambiguous_length, body_too_large, incomplete_body}
use localsecrets.Http.Head.{Reader, arrived, interrupted, terminator_at, read_head, read_body}
use localsecrets.Http.Parts.{
  strip_cr, parse_request_line, parse_header, parse_content_length, split_target,
}
use localsecrets.Http.Request.{
  Request, add_header, gather_line, gather, body_of, read_lines, read, header,
}
use localsecrets.Http.Cut.Body.{read_body-take}
use localsecrets.Http.Cut.Chunks.{bytes_of, IsCut, read_head-IsCut}
use localsecrets.Http.Framing.Whole.{IsDelimited, read-IsDelimited}

abbrev limits : Limits
limits = record { max_head = 200; max_headers = 3; max_body = 8; head_deadline = 10 }

abbrev clock : ℕ → ℕ
clock n = 5

abbrev crlf : Bytes
crlf = 13 ∷ 10 ∷ []

abbrev post : Bytes
post =
    codes "POST /v1/a%20b?q=1+2&r HTTP/1.1"
    ++ crlf
    ++ codes "Host: h"
    ++ crlf
    ++ codes "Content-Length: 2"
    ++ crlf

-- The blank line comes in two pieces, and the body in two more.
abbrev pieces : Reader
pieces =
    arrived (post ++ 13 ∷ []) ∷ interrupted ∷ arrived (10 ∷ codes "o") ∷ arrived (codes "k") ∷ []

abbrev posted : Request
posted = record {
  method = codes "POST";
  path = codes "/v1/a b";
  query = (codes "q", codes "1 2") ∷ (codes "r", []) ∷ [];
  headers = (codes "host", codes "h") ∷ (codes "content-length", codes "2") ∷ [];
  body = codes "ok";
}

read-pieces : read limits clock pieces ≡ ok posted
unfolding read read_head read_lines read_body gather gather_line add_header body_of strip_cr
    parse_request_line parse_header parse_content_length split_target has_prefix is_utf8 bytes_eq
    lower
read-pieces = refl

-- A length given twice, a transfer encoding, and a body too long.
abbrev with_headers : Bytes → Reader
with_headers lines = arrived (codes "GET / HTTP/1.1" ++ crlf ++ lines ++ crlf) ∷ []

read-same_length :
    read limits clock
      (with_headers (codes "Content-Length: 2" ++ crlf ++ codes "content-length: 2" ++ crlf))
    ≡ err ambiguous_length
unfolding read read_head read_lines read_body gather gather_line add_header body_of strip_cr
    parse_request_line parse_header parse_content_length split_target has_prefix is_utf8 bytes_eq
    lower
read-same_length = refl

read-too_long :
    read limits clock (with_headers (codes "Content-Length: 9" ++ crlf)) ≡ err (body_too_large 9 8)
unfolding read read_head read_lines read_body gather gather_line add_header body_of strip_cr
    parse_request_line parse_header parse_content_length split_target has_prefix is_utf8 bytes_eq
    lower
read-too_long = refl

header-host : header posted (codes "HOST") ≡ some (codes "h")
unfolding header bytes_eq lower find
header-host = refl

read_head-IsCut_example :
    IsCut (length post + 2) (bytes_of pieces) (read_head limits clock pieces 0 [])
unfolding terminator_at has_prefix
read_head-IsCut_example =
    read_head-IsCut limits clock pieces (length post - 2) (λ n. omega arith)
      (omega arith, (omega arith, (omega arith, tt))) refl (omega arith)

read-IsDelimited_example : IsDelimited limits posted
read-IsDelimited_example = read-IsDelimited limits clock pieces posted read-pieces

-- An interrupted call is made again for the head, and ends the request for the body.
read_body-interrupted :
    read_body limits clock (arrived (codes "o") ∷ interrupted ∷ arrived (codes "k") ∷ []) 0 2
    ≡ err incomplete_body
unfolding read_body
read_body-interrupted = refl

abbrev body_pieces : Reader
body_pieces = arrived (codes "ab") ∷ arrived (codes "cde") ∷ []

read_body-take_example : read_body limits clock body_pieces 1 4 ≡ ok (take 4 (bytes_of body_pieces))
read_body-take_example =
    read_body-take limits clock body_pieces 1 4 (λ n. omega arith) (omega arith, (omega arith, tt))
      (omega arith)
