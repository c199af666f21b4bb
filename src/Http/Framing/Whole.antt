-- ===== src/Http/Framing/Whole.antt =====
-- What `Request::read` of crates/ls-http/src/request.rs returns, headers and body.
use localsecrets.Common.{
  ℕ, ◌-◌, ◌≤◌, ◌≡◌, refl, subst, Bool, true, false, ◌⊎◌, inl, inr, List, Option, none, some, [],
  ◌∷◌, ◌++◌, arith, Bytes, Text, codes, length, ltb, leb, ◌==◌, if◌then◌else◌, suc, length-take,
  length-append,
}
use localsecrets.Common.Results.{Result, ok, err, ok_elim}
use localsecrets.Http.{Limits, HttpError, timed_out, incomplete_body}
use localsecrets.Http.Head.{Reader, arrived, interrupted, failed, read_head, read_body, is_late}
use localsecrets.Http.Parts.{
  split, strip_cr, parse_request_line, split_target, parse_content_length,
}
use localsecrets.Http.Request.{Request, nothing_gathered, gather, body_of, read_lines, read}
use localsecrets.Http.Framing.{
  values_of, Declares, IsFramed, gather-IsFramed, unless_refused, count_of,
}

or_else {ℓ} :
    {A : Type ℓ} {a : A} (b : Bool) (x : A) (r : Result A HttpError)
    → (if b then ok x else r) ≡ ok a
    → ((b ≡ true) × (x ≡ a)) ⊎ ((b ≡ false) × (r ≡ ok a))
or_else true x r h = inl (refl, cc)
or_else false x r h = inr (refl, h)

none_wanted : (wanted : ℕ) (body : Bytes) → (wanted == 0) ≡ true → [] ≡ body → length body ≡ wanted
none_wanted wanted body nothing empty = subst (λ b. length b ≡ wanted) empty (ground arith)

no_more :
    (wanted : ℕ) (late : Bool) (body : Bytes)
    → (if wanted == 0 then ok [] else if late then err timed_out else err incomplete_body) ≡ ok body
    → length body ≡ wanted
no_more wanted late body h = elim (or_else (wanted == 0) _ _ h) [
  | inl (nothing, empty) ↦ none_wanted wanted body nothing empty
  | inr (some_left, goes_on) ↦
      let p = unless_refused late _ _ goes_on in
      let never : err incomplete_body ≡ ok body = p.1 in cc
]

-- As many headers as allowed, no `Transfer-Encoding`, at most one `Host`, and a body that is as long
-- as the one `Content-Length` says and no longer than allowed, or empty where there is none.
abbrev pub IsDelimited : Limits → Request → Type 0
IsDelimited limits r =
    (length r.headers ≤ limits.max_headers)
    × (values_of (codes "transfer-encoding") r.headers ≡ [])
    × (length (values_of (codes "host") r.headers) ≤ 1)
    × (((values_of (codes "content-length") r.headers ≡ []) × (r.body ≡ []))
        ⊎ ((value : Text) × (values_of (codes "content-length") r.headers ≡ value ∷ [])
            × (parse_content_length value ≡ ok (length r.body))
            × (length r.body ≤ limits.max_body)))

at_most_one : (b : Bool) (values : List Text) → length values ≡ count_of b → length values ≤ 1
at_most_one true values h = omega arith
at_most_one false values h = omega arith

module _ (limits : Limits) (clock : ℕ → ℕ) where
  length-read_body :
      (reader : Reader) (turn wanted : ℕ) (body : Bytes)
      → read_body limits clock reader turn wanted ≡ ok body
      → length body ≡ wanted
  unfolding read_body
  length-read_body [] turn wanted body h = no_more wanted (is_late limits clock turn) body h
  length-read_body (interrupted ∷ rest) turn wanted body h =
      no_more wanted (is_late limits clock turn) body h
  length-read_body (failed ∷ rest) turn wanted body h =
      no_more wanted (is_late limits clock turn) body h
  length-read_body (arrived chunk ∷ rest) turn wanted body h = elim (or_else (wanted == 0) _ _ h) [
    | inl (nothing, none_left) ↦ none_wanted wanted body nothing none_left
    | inr (some_left, goes_on) ↦
        let p = unless_refused (is_late limits clock turn) _ _ goes_on in
        let q = unless_refused (length chunk == 0) _ _ p.1 in
        elim (or_else (leb wanted (length chunk)) _ _ q.1) [
          | inl (enough, taken) ↦
              subst (λ b. length b ≡ wanted) taken (ground (arith, length-take wanted chunk))
          | inr (short, more) ↦
              ok_elim (read_body limits clock rest (suc turn) (wanted - length chunk)) _ more
                λ later e joined.
                  let same : chunk ++ later ≡ body = cc in
                  subst (λ b. length b ≡ wanted) same
                    (ground (
                      arith,
                      length-append chunk later,
                      length-read_body rest (suc turn) (wanted - length chunk) later e,
                    ))
        ]
  ]

  length-body_of :
      (known : Option ℕ) (reader : Reader) (turn : ℕ) (body : Bytes) (values : List Text)
      → Declares known values
      → body_of limits clock known reader turn ≡ ok body
      → ((values ≡ []) × (body ≡ []))
        ⊎ ((value : Text) × (values ≡ value ∷ [])
            × (parse_content_length value ≡ ok (length body))
            × (length body ≤ limits.max_body))
  unfolding body_of
  length-body_of none reader turn body values d h = inl (d, cc)
  length-body_of (some declared) reader turn body values d h =
      let bound : (length body ≡ declared) × (declared ≤ limits.max_body) =
        elim (or_else (declared == 0) _ _ h) [
          | inl (nothing, empty) ↦ (none_wanted declared body nothing empty, ground arith)
          | inr (some_left, goes_on) ↦
              let p = unless_refused (ltb limits.max_body declared) _ _ goes_on in
              (length-read_body reader turn declared body p.1, ground arith)
        ] in
      inr (d.0, d.1, rw bound.0 d.2, let a = bound.0 in let b = bound.1 in omega arith)

  start : IsFramed limits.max_headers nothing_gathered
  unfolding values_of
  start = record {
    few = omega arith;
    no_transfer_encoding = refl;
    one_host = refl;
    one_length = refl;
  }

  read_lines-IsDelimited :
      (lines : List Bytes) (reader : Reader) (turn : ℕ) (r : Request)
      → read_lines limits clock lines reader turn ≡ ok r
      → IsDelimited limits r
  unfolding read_lines
  read_lines-IsDelimited [] reader turn r h = cc
  read_lines-IsDelimited (first ∷ lines) reader turn r h =
      ok_elim (strip_cr first) _ h λ line e1 h1.
        ok_elim (parse_request_line line) _ h1 λ words e2 h2.
          ok_elim (gather limits nothing_gathered lines) _ h2 λ gathered e3 h3.
            ok_elim (split_target words.1) _ h3 λ target e4 h4.
              ok_elim (body_of limits clock gathered.content_length reader turn) _ h4 λ body e5 h5.
                let same : record {
                  method = words.0;
                  path = target.0;
                  query = target.1;
                  headers = gathered.headers;
                  body = body;
                }
                    ≡ r =
                  cc in
                let framed = gather-IsFramed limits nothing_gathered gathered lines start e3 in
                subst (IsDelimited limits) same (
                  framed.few,
                  framed.no_transfer_encoding,
                  at_most_one gathered.seen_host (values_of (codes "host") gathered.headers)
                      framed.one_host,
                  length-body_of gathered.content_length reader turn body
                      (values_of (codes "content-length") gathered.headers) framed.one_length e5,
                )

  -- A request that is read has at most the headers allowed, no `Transfer-Encoding`, at most one
  -- `Host`, and at most one `Content-Length`. Its body is empty where there is none, and is as long
  -- as the one says otherwise, which is at most what is allowed.
  pub read-IsDelimited :
      (reader : Reader) (r : Request) → read limits clock reader ≡ ok r → IsDelimited limits r
  unfolding read
  read-IsDelimited reader r h =
      ok_elim (read_head limits clock reader 0 []) _ h
        λ found e rest. read_lines-IsDelimited (split 10 found.0) found.1 found.2 r rest
