-- ===== src/Http/Framing.antt =====
-- Where the body of a request of crates/ls-http/src/request.rs ends, by its own headers.
pub mod Whole
use localsecrets.Common.{
  ℕ, ◌+◌, ◌≤◌, ◌≡◌, refl, sym, ap, ◌∙◌, subst, Bool, Bool-cases, true, false, ◌&&◌, ◌||◌, ◌⊎◌, inl,
  inr, List, Option, none, some, [], ◌∷◌, ◌++◌, append-nil, arith, Bytes, Text, codes, length,
  bytes_eq, bytes_eq_iff, if◌then◌else◌, ◌==◌, suc, length-append,
}
use localsecrets.Common.Results.{Result, ok, err, ◌>>=◌, ok_elim}
use localsecrets.Http.{Limits, HttpError}
use localsecrets.Http.Parts.{parse_content_length, parse_header, strip_cr}
use localsecrets.Http.Request.{
  Request, Gathered, nothing_gathered, next_length, add_header, gather_line, gather, is_host,
  is_transfer_encoding, is_content_length, read, body_of, header,
}

-- The values of the headers of a name.
unfoldable pub values_of : Text → List (Text × Text) → List Text
values_of name [] = []
values_of name (pair ∷ pairs) =
    let rest = values_of name pairs in if bytes_eq pair.0 name then pair.1 ∷ rest else rest

values_of-push :
    (key name value : Text) (pairs : List (Text × Text))
    → values_of key (pairs ++ (name, value) ∷ [])
      ≡ (if bytes_eq name key then values_of key pairs ++ value ∷ [] else values_of key pairs)
unfolding values_of
values_of-push key name value [] = refl
values_of-push key name value (pair ∷ pairs) =
    rw (values_of-push key name value pairs)
      (choose (bytes_eq pair.0 key) (bytes_eq name key) (values_of key pairs))
  where
    choose :
        (b c : Bool) (vs : List Text)
        → (if b
            then pair.1 ∷ (if c then vs ++ value ∷ [] else vs)
            else if c
            then vs ++ value ∷ []
            else vs)
          ≡ (if c
              then (if b then pair.1 ∷ vs else vs) ++ value ∷ []
              else if b
              then pair.1 ∷ vs
              else vs)
    choose true true vs = refl
    choose true false vs = refl
    choose false true vs = refl
    choose false false vs = refl

-- The length known is what the one `Content-Length` says, where there is one.
abbrev pub Declares : Option ℕ → List Text → Type 0
Declares none values = values ≡ []
Declares (some n) values =
    (value : Text) × (values ≡ value ∷ []) × (parse_content_length value ≡ ok n)

abbrev pub count_of : Bool → ℕ
count_of b = if b then 1 else 0

pub record IsFramed (most : ℕ) (g : Gathered) : Type 0 where
  pub few : length g.headers ≤ most
  pub no_transfer_encoding : values_of (codes "transfer-encoding") g.headers ≡ []
  pub one_host : length (values_of (codes "host") g.headers) ≡ count_of g.seen_host
  pub one_length : Declares g.content_length (values_of (codes "content-length") g.headers)

pub unless_refused {ℓ} :
    {A : Type ℓ} {a : A} (b : Bool) (e : HttpError) (r : Result A HttpError)
    → (if b then err e else r) ≡ ok a
    → (b ≡ false) × (r ≡ ok a)
unless_refused true e r h = cc
unless_refused false e r h = (refl, h)

next_length-Declares :
    (b : Bool) (seen known : Option ℕ) (value : Text) (values : List Text)
    → Declares seen values
    → next_length b seen value ≡ ok known
    → Declares known (if b then values ++ value ∷ [] else values)
next_length-Declares false seen known value values d h =
    let same : seen ≡ known = cc in subst (λ k. Declares k values) same d
next_length-Declares true (some n) known value values d h = cc
next_length-Declares true none known value values d h =
    ok_elim (parse_content_length value) _ h λ n e known_is.
      let same : some n ≡ known = cc in
      subst (λ k. Declares k (values ++ value ∷ [])) same (value, ap (λ vs. vs ++ value ∷ []) d, e)

count_host :
    (host seen : Bool) (values : List Text) (value : Text)
    → (host && seen) ≡ false
    → length values ≡ count_of seen
    → length (if host then values ++ value ∷ [] else values) ≡ count_of (host || seen)
count_host true true values value h e = cc
count_host true false [] value h e = refl
count_host true false (v ∷ vs) value h e = absurd (omega arith)
count_host false seen values value h e = e

add_header-IsFramed :
    (most : ℕ) (g longer : Gathered) (name value : Text)
    → IsFramed most g
    → suc (length g.headers) ≤ most
    → add_header g name value ≡ ok longer
    → IsFramed most longer
unfolding add_header
add_header-IsFramed most g longer name value framed room h =
    let p = unless_refused (is_host name && g.seen_host) _ _ h in
    let q = unless_refused (is_transfer_encoding name) _ _ p.1 in
    ok_elim (next_length (is_content_length name) g.content_length value) _ q.1 λ known e pushed.
      let longer_is : record {
        headers = g.headers ++ (name, value) ∷ [];
        content_length = known;
        seen_host = is_host name || g.seen_host;
      }
          ≡ longer =
        cc in
      subst (IsFramed most) longer_is (record {
        few = omega (arith, length-append g.headers ((name, value) ∷ []));
        no_transfer_encoding =
            rw (values_of-push (codes "transfer-encoding") name value g.headers, q.0)
              framed.no_transfer_encoding;
        one_host = rw (values_of-push (codes "host") name value g.headers) (
            count_host (is_host name) g.seen_host (values_of (codes "host") g.headers) value p.0
              framed.one_host);
        one_length = rw (values_of-push (codes "content-length") name value g.headers) (
            next_length-Declares (is_content_length name) g.content_length known value
              (values_of (codes "content-length") g.headers) framed.one_length e);
      })

module _ (limits : Limits) where
  gather_line-IsFramed :
      (g longer : Gathered) (line : Bytes)
      → IsFramed limits.max_headers g
      → gather_line limits g line ≡ ok longer
      → IsFramed limits.max_headers longer
  unfolding gather_line
  gather_line-IsFramed g longer line framed h =
      let p = unless_refused (length g.headers == limits.max_headers) _ _ h in
      let few : length g.headers ≤ limits.max_headers = framed.few in
      ok_elim (parse_header line) _ p.1 λ header e added.
        add_header-IsFramed limits.max_headers g longer header.0 header.1 framed (ground arith)
          added

  pub gather-IsFramed :
      (g gathered : Gathered) (lines : List Bytes)
      → IsFramed limits.max_headers g
      → gather limits g lines ≡ ok gathered
      → IsFramed limits.max_headers gathered
  unfolding gather
  gather-IsFramed g gathered [] framed h =
      let same : g ≡ gathered = cc in subst (IsFramed limits.max_headers) same framed
  gather-IsFramed g gathered (raw ∷ lines) framed h =
      ok_elim (strip_cr raw) _ h
        λ line e more. on_line line (λ longer. gather-IsFramed longer gathered lines) more
    where
      on_line :
          (line : Bytes)
          → ((longer : Gathered)
              → IsFramed limits.max_headers longer
              → gather limits longer lines ≡ ok gathered
              → IsFramed limits.max_headers gathered)
          → elim line [
            | [] ↦ ok g
            | b ∷ bs ↦ gather_line limits g (b ∷ bs) >>= λ longer. gather limits longer lines
          ]
            ≡ ok gathered
          → IsFramed limits.max_headers gathered
      on_line [] later more =
          let same : g ≡ gathered = cc in subst (IsFramed limits.max_headers) same framed
      on_line (b ∷ bs) later more =
          ok_elim (gather_line limits g (b ∷ bs)) _ more
            λ longer e rest. later longer (gather_line-IsFramed g longer (b ∷ bs) framed e) rest
