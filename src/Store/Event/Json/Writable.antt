-- ===== src/Store/Event/Json/Writable.antt =====
-- The JSON of an event of crates/ls-store/src/event.rs is a value that JSON can carry.
use localsecrets.Common.{
  ℕ, zero, suc, ◌-◌, ◌/◌, ◌%◌, ◌<◌, refl, Option, none, some, [], ◌∷◌, ◌++◌, Bytes, Text, get_or,
  length, decimal, AllDigits-decimal, arith, bytes_eq,
}
use localsecrets.Common.Int.{ℤ, pos, negsuc}
use localsecrets.Common.Utf8.{is_utf8}
use localsecrets.Common.Utf8.Joined.{Ascii, Ascii-append, Ascii-is_utf8}
use localsecrets.Core.Time.{Timestamp}
use localsecrets.Core.Time.Civil.{civil_from_days, div_euclid, rem_euclid}
use localsecrets.Core.Time.Rfc3339.{zeros, pad, pad_int, rfc3339, to_rfc3339}
use localsecrets.Core.Encoding.Hex.{digits, encode}
use localsecrets.Json.Value.{push_field, max_depth}
use localsecrets.Json.Parser.Values.{has_field}
use localsecrets.Json.RoundTrip.Utf8.{AllDigits-Ascii}
use localsecrets.Json.RoundTrip.Values.{Fits}
use localsecrets.Store.Event.{
  Event, Sealed, TokenKind, root, session, machine, user_created, token_issued, token_revoked,
  project_created, environment_created, secret_set, secret_deleted, audited,
}
use localsecrets.Store.Event.Json.{
  to_value, type_name, body, sealed_value, kind_name, optional_text, optional_time,
}
use localsecrets.Store.Event.Json.Laws.{IsUtf8, MaybeUtf8, IsWritable}

get_or-Ascii : (s : Bytes) (i : ℕ) → Ascii s → get_or s i 0 < 0x80
get_or-Ascii [] i h = omega arith
get_or-Ascii (c ∷ cs) zero h = h.0
get_or-Ascii (c ∷ cs) (suc i) h = get_or-Ascii cs i h.1

encode-Ascii : (bs : Bytes) → Ascii (encode bs)
unfolding encode
encode-Ascii [] = tt
encode-Ascii (b ∷ bs) = (
  get_or-Ascii digits (b / 16) (omega arith),
  (get_or-Ascii digits (b % 16) (omega arith), encode-Ascii bs),
)

zeros-Ascii : (n : ℕ) → Ascii (zeros n)
unfolding zeros
zeros-Ascii zero = tt
zeros-Ascii (suc n) = (omega arith, zeros-Ascii n)

pad-Ascii : (width n : ℕ) → Ascii (pad width n)
unfolding pad
pad-Ascii width n =
    Ascii-append (zeros (width - length (decimal n))) (decimal n)
      (zeros-Ascii (width - length (decimal n))) (AllDigits-Ascii (decimal n) (AllDigits-decimal n))

pad_int-Ascii : (width : ℕ) (i : ℤ) → Ascii (pad_int width i)
unfolding pad_int
pad_int-Ascii width (pos n) = pad-Ascii width n
pad_int-Ascii width (negsuc n) = (omega arith, pad-Ascii (width - 1) (suc n))

-- A number of two places, and what stands behind it.
two_and : (n c : ℕ) (t : Text) → c < 0x80 → Ascii t → Ascii (pad 2 n ++ c ∷ t)
two_and n c t hc ht = Ascii-append (pad 2 n) (c ∷ t) (pad-Ascii 2 n) (hc, ht)

rfc3339-Ascii : (date : ℤ × ℕ × ℕ) (s : ℕ) → Ascii (rfc3339 date s)
unfolding rfc3339
rfc3339-Ascii (y, m, d) s = Ascii-append (pad_int 4 y) _ (pad_int-Ascii 4 y) (
  omega arith,
  two_and m b'-' _ (omega arith) (
      two_and d b'T' _ (omega arith) (
        two_and (s / 3600) b':' _ (omega arith) (
          two_and (s % 3600 / 60) b':' _ (omega arith)
            (two_and (s % 60) b'Z' [] (omega arith) tt)))),
)

time-IsUtf8 : (at : Timestamp) → IsUtf8 (to_rfc3339 at)
unfolding to_rfc3339
time-IsUtf8 at =
    Ascii-is_utf8 (to_rfc3339 at)
      (rfc3339-Ascii (civil_from_days (div_euclid at 86400)) (rem_euclid at 86400))

hex-IsUtf8 : (bs : Bytes) → IsUtf8 (encode bs)
hex-IsUtf8 bs = Ascii-is_utf8 (encode bs) (encode-Ascii bs)

kind-IsUtf8 : (k : TokenKind) → IsUtf8 (kind_name k)
unfolding kind_name is_utf8
kind-IsUtf8 root = refl
kind-IsUtf8 session = refl
kind-IsUtf8 machine = refl

optional_text-Fits : (d : ℕ) (o : Option Text) → MaybeUtf8 o → Fits d (optional_text o)
unfolding Fits
optional_text-Fits d none h = tt
optional_text-Fits d (some t) h = h

optional_time-Fits : (d : ℕ) (o : Option Timestamp) → Fits d (optional_time o)
unfolding Fits
optional_time-Fits d none = tt
optional_time-Fits d (some at) = time-IsUtf8 at

sealed-Fits : (d : ℕ) (s : Sealed) → d < max_depth → Fits d (sealed_value s)
unfolding sealed_value Fits push_field has_field bytes_eq is_utf8
sealed-Fits d s h = (
  h,
  (
    refl,
    refl,
    omega arith,
    (refl, refl, hex-IsUtf8 s.nonce, (refl, refl, hex-IsUtf8 s.ciphertext, tt)),
  ),
)

-- What is written for an event fits into JSON.
pub to_value-Fits : (e : Event) → IsWritable e → Fits 0 (to_value e)
unfolding to_value type_name body Fits push_field has_field bytes_eq is_utf8
to_value-Fits (user_created id email password_hash created_at) h = (
  omega arith,
  (
    refl,
    refl,
    refl,
    (
      refl,
      refl,
      h.0,
      (refl, refl, h.1, (refl, refl, h.2, (refl, refl, time-IsUtf8 created_at, tt))),
    ),
  ),
)
to_value-Fits
      (token_issued id token_hash kind user_id project_id environment_id label expires_at
        created_at)
      h =
    (
      omega arith,
      (
        refl,
        refl,
        refl,
        (
          refl,
          refl,
          h.0,
          (
            refl,
            refl,
            hex-IsUtf8 token_hash,
            (
              refl,
              refl,
              kind-IsUtf8 kind,
              (
                refl,
                refl,
                optional_text-Fits 1 user_id h.2,
                (
                  refl,
                  refl,
                  optional_text-Fits 1 project_id h.3,
                  (
                    refl,
                    refl,
                    optional_text-Fits 1 environment_id h.4,
                    (
                      refl,
                      refl,
                      optional_text-Fits 1 label h.5,
                      (
                        refl,
                        refl,
                        optional_time-Fits 1 expires_at,
                        (refl, refl, time-IsUtf8 created_at, tt),
                      ),
                    ),
                  ),
                ),
              ),
            ),
          ),
        ),
      ),
    )
to_value-Fits (token_revoked id at) h =
    (omega arith, (refl, refl, refl, (refl, refl, h.0, (refl, refl, time-IsUtf8 at, tt))))
to_value-Fits (project_created id slug name data_key created_at) h = (
  omega arith,
  (
    refl,
    refl,
    refl,
    (
      refl,
      refl,
      h.0,
      (
        refl,
        refl,
        h.1,
        (
          refl,
          refl,
          h.2,
          (
            refl,
            refl,
            sealed-Fits 1 data_key (omega arith),
            (refl, refl, time-IsUtf8 created_at, tt),
          ),
        ),
      ),
    ),
  ),
)
to_value-Fits (environment_created id project_id slug name created_at) h = (
  omega arith,
  (
    refl,
    refl,
    refl,
    (
      refl,
      refl,
      h.0,
      (
        refl,
        refl,
        h.1,
        (refl, refl, h.2, (refl, refl, h.3, (refl, refl, time-IsUtf8 created_at, tt))),
      ),
    ),
  ),
)
to_value-Fits (secret_set project_id environment_id key value at) h = (
  omega arith,
  (
    refl,
    refl,
    refl,
    (
      refl,
      refl,
      h.0,
      (
        refl,
        refl,
        h.1,
        (
          refl,
          refl,
          h.2,
          (refl, refl, sealed-Fits 1 value (omega arith), (refl, refl, time-IsUtf8 at, tt)),
        ),
      ),
    ),
  ),
)
to_value-Fits (secret_deleted project_id environment_id key at) h = (
  omega arith,
  (
    refl,
    refl,
    refl,
    (refl, refl, h.0, (refl, refl, h.1, (refl, refl, h.2, (refl, refl, time-IsUtf8 at, tt)))),
  ),
)
to_value-Fits (audited at actor action target outcome) h = (
  omega arith,
  (
    refl,
    refl,
    refl,
    (
      refl,
      refl,
      time-IsUtf8 at,
      (refl, refl, h.1, (refl, refl, h.2, (refl, refl, h.3, (refl, refl, h.4, tt)))),
    ),
  ),
)
