-- ===== src/Common/Utf8.antt =====
-- UTF-8 as `std::str::from_utf8` and `String::push` have it. A check reads byte by byte: what it
-- still wants of a character is a number of further bytes, and the range of the next one.
pub mod Joined
use localsecrets.Common.{Bool-cases, sym}
use Prim.Native.Nat.{ℕ, zero, suc, ◌+◌, ◌*◌, ◌/◌, ◌%◌, ◌^◌, ◌≤◌, ◌<◌}
use mathlib.Core.Path.{◌≡◌, refl, ap, ◌∙◌}
use mathlib.Core.Logic.{◌⊎◌, inl, inr}
use mathlib.Core.Bool.{Bool, true, false, ◌&&◌}
use mathlib.Core.Option.{Option, none, some}
use mathlib.Core.List.{List, [], ◌∷◌, ◌++◌}
use native.Mathlib.Omega.{arith}
use localsecrets.Common.Tests.{◌==◌, leb, ltb, if◌then◌else◌}
use localsecrets.Common.Texts.{Bytes, Text}

pub record Wanted : Type 0 where
  pub more : ℕ
  pub low : ℕ
  pub high : ℕ

abbrev pub next_bytes : ℕ → Wanted
next_bytes n = record { more = n; low = 0x80; high = 0xbf }

-- The first byte of a character.
unfoldable pub first_byte : ℕ → Option Wanted
first_byte b =
    if ltb b 0x80
    then some (next_bytes 0)
    else if ltb b 0xc2
    then none
    else if ltb b 0xe0
    then some (next_bytes 1)
    else if b == 0xe0
    then some (record { more = 2; low = 0xa0; high = 0xbf })
    else if b == 0xed
    then some (record { more = 2; low = 0x80; high = 0x9f })
    else if ltb b 0xf0
    then some (next_bytes 2)
    else if b == 0xf0
    then some (record { more = 3; low = 0x90; high = 0xbf })
    else if ltb b 0xf4
    then some (next_bytes 3)
    else if b == 0xf4
    then some (record { more = 3; low = 0x80; high = 0x8f })
    else none

unfoldable pub read_byte : ℕ → ℕ → ℕ → ℕ → Option Wanted
unfolding first_byte
read_byte zero low high b = first_byte b
read_byte (suc n) low high b = if leb low b && leb b high then some (next_bytes n) else none

unfoldable pub is_utf8_from : Wanted → Bytes → Bool
unfolding read_byte
is_utf8_from w [] = w.more == 0
is_utf8_from w (b ∷ bs) = elim (read_byte w.more w.low w.high b) [
  | none ↦ false
  | some w' ↦ is_utf8_from w' bs
]

-- `std::str::from_utf8(bytes).is_ok()`.
unfoldable pub is_utf8 : Bytes → Bool
unfolding is_utf8_from
is_utf8 bytes = is_utf8_from (next_bytes 0) bytes

-- `char::from_u32`: a scalar value is no surrogate, and at most 0x10ffff.
unfoldable pub char_from : ℕ → Option ℕ
char_from c =
    if ltb c 0xd800
    then some c
    else if ltb c 0xe000
    then none
    else if ltb c 0x110000
    then some c
    else none

-- `String::push`: the bytes of one character.
unfoldable pub encode_char : ℕ → Text
encode_char c =
    if ltb c 0x80
    then c ∷ []
    else if ltb c 0x800
    then (0xc0 + c / 2 ^ 6) ∷ (0x80 + c % 2 ^ 6) ∷ []
    else if ltb c 0x10000
    then (0xe0 + c / 2 ^ 12) ∷ (0x80 + c / 2 ^ 6 % 2 ^ 6) ∷ (0x80 + c % 2 ^ 6) ∷ []
    else (0xf0 + c / 2 ^ 18)
      ∷ (0x80 + c / 2 ^ 12 % 2 ^ 6)
      ∷ (0x80 + c / 2 ^ 6 % 2 ^ 6)
      ∷ (0x80 + c % 2 ^ 6)
      ∷ []

-- `(byte & 0xC0) == 0x80`.
unfoldable pub is_continuation : ℕ → Bool
is_continuation b = b / 2 ^ 6 % 4 == 2

-- The continuation bytes in front, and what follows them.
unfoldable pub continuation_bytes : Bytes → Bytes
continuation_bytes [] = []
continuation_bytes (b ∷ bs) =
    let rest = continuation_bytes bs in if is_continuation b then b ∷ rest else []

unfoldable pub after_continuation : Bytes → Bytes
after_continuation [] = []
after_continuation (b ∷ bs) =
    let rest = after_continuation bs in if is_continuation b then rest else b ∷ bs

-- A byte that a character begins with is no continuation byte.
pub first_byte-is_continuation :
    (b : ℕ) (w : Wanted) → first_byte b ≡ some w → is_continuation b ≡ false
unfolding first_byte is_continuation
first_byte-is_continuation b w h = ground arith

-- The bounds that a check keeps: what is wanted next is a continuation byte.
abbrev pub IsWanted : Wanted → Type 0
IsWanted w = (0x80 ≤ w.low) × (w.high ≤ 0xbf)

pub first_byte-IsWanted : (b : ℕ) (w : Wanted) → first_byte b ≡ some w → IsWanted w
unfolding first_byte
first_byte-IsWanted b w h = ground arith

pub first_byte-ascii : (b : ℕ) → b < 0x80 → first_byte b ≡ some (next_bytes 0)
unfolding first_byte
first_byte-ascii b h = ground arith

abbrev pub Continuations : Bytes → Type 0
Continuations [] = Unit
Continuations (b ∷ bs) = (0x80 ≤ b) × (b ≤ 0xbf) × Continuations bs

is_continuation_range : (b : ℕ) → 0x80 ≤ b → b ≤ 0xbf → is_continuation b ≡ true
unfolding is_continuation
is_continuation_range b low high = ground arith

abbrev pub NoContinuation : Bytes → Type 0
NoContinuation [] = Unit
NoContinuation (b ∷ bs) = is_continuation b ≡ false

pub continuation_bytes-append :
    (s r : Bytes) → Continuations s → NoContinuation r → continuation_bytes (s ++ r) ≡ s
unfolding continuation_bytes
continuation_bytes-append [] [] hs hr = refl
continuation_bytes-append [] (b ∷ bs) hs hr = rw hr
continuation_bytes-append (c ∷ cs) r hs hr =
    rw (is_continuation_range c hs.0 hs.1, continuation_bytes-append cs r hs.2 hr)

pub after_continuation-append :
    (s r : Bytes) → Continuations s → NoContinuation r → after_continuation (s ++ r) ≡ r
unfolding after_continuation
after_continuation-append [] [] hs hr = refl
after_continuation-append [] (b ∷ bs) hs hr = rw hr
after_continuation-append (c ∷ cs) r hs hr =
    rw (is_continuation_range c hs.0 hs.1) (after_continuation-append cs r hs.2 hr)

-- What a text begins with, if it is valid: the first byte of a character.
pub is_utf8-cons :
    (b : ℕ) (bs : Bytes)
    → is_utf8 (b ∷ bs) ≡ true
    → (w : Wanted) × (first_byte b ≡ some w) × (is_utf8_from w bs ≡ true)
unfolding is_utf8 is_utf8_from read_byte
is_utf8-cons b bs h =
    elim (first_byte b)
        as (λ o.
          elim o [ none ↦ false | some w' ↦ is_utf8_from w' bs ] ≡ true
          → (w : Wanted) × (o ≡ some w) × (is_utf8_from w bs ≡ true)) [
            | none ↦ λ e. cc
            | some w ↦ λ e. (w, refl, e)
          ]
      h

pub valid_next :
    (w w' : Wanted) (b : ℕ) (bs : Bytes)
    → read_byte w.more w.low w.high b ≡ some w'
    → is_utf8_from w (b ∷ bs) ≡ is_utf8_from w' bs
unfolding is_utf8_from
valid_next w w' b bs e = ground arith

pub valid_stop :
    (w : Wanted) (b : ℕ) (bs : Bytes)
    → read_byte w.more w.low w.high b ≡ none
    → is_utf8_from w (b ∷ bs) ≡ false
unfolding is_utf8_from
valid_stop w b bs e = ground arith

read_within :
    (n low high b : ℕ)
    → (leb low b && leb b high) ≡ true
    → read_byte (suc n) low high b ≡ some (next_bytes n)
unfolding read_byte
read_within n low high b h = rw (h, read_byte)

read_outside :
    (n low high b : ℕ) → (leb low b && leb b high) ≡ false → read_byte (suc n) low high b ≡ none
unfolding read_byte
read_outside n low high b h = rw (h, read_byte)

pub is_utf8_first :
    (b : ℕ) (bs : Bytes) (w : Wanted)
    → first_byte b ≡ some w
    → is_utf8_from w bs ≡ true
    → is_utf8 (b ∷ bs) ≡ true
unfolding is_utf8
is_utf8_first b bs w e h = valid_next (next_bytes 0) w b bs (unfold read_byte in e) ∙ h

pub is_utf8_ascii : (b : ℕ) (bs : Bytes) → b < 0x80 → is_utf8 (b ∷ bs) ≡ true → is_utf8 bs ≡ true
unfolding is_utf8
is_utf8_ascii b bs small h =
    sym
      (valid_next (next_bytes 0) (next_bytes 0) b bs (unfold read_byte in first_byte-ascii b small))
    ∙ h

-- A character cut off the front of a valid text: its further bytes, and a valid text behind them.
pub record Cut (w : Wanted) (bytes : Bytes) : Type 0 where
  pub front : Bytes
  pub back : Bytes
  pub whole : bytes ≡ front ++ back
  pub front_valid : is_utf8_from w front ≡ true
  pub continuing : Continuations front
  pub back_valid : is_utf8 back ≡ true

under-Cut :
    (n low high b : ℕ) (bs : Bytes)
    → 0x80 ≤ low
    → high ≤ 0xbf
    → leb low b && leb b high ≡ true
    → Cut (next_bytes n) bs
    → Cut (record { more = suc n; low = low; high = high }) (b ∷ bs)
under-Cut n low high b bs hl hh h c = record {
  front = b ∷ c.front;
  back = c.back;
  whole = ap (λ t. b ∷ t) c.whole;
  front_valid = valid_next _ (next_bytes n) b c.front (read_within n low high b h) ∙ c.front_valid;
  continuing = (ground arith, ground arith, c.continuing);
  back_valid = c.back_valid;
}

cut :
    (n low high : ℕ) (bs : Bytes)
    → 0x80 ≤ low
    → high ≤ 0xbf
    → is_utf8_from (record { more = n; low = low; high = high }) bs ≡ true
    → Cut (record { more = n; low = low; high = high }) bs
cut zero low high [] hl hh h = record {
  front = [];
  back = [];
  whole = refl;
  front_valid = h;
  continuing = tt;
  back_valid = unfold is_utf8 is_utf8_from in refl;
}
cut zero low high (b ∷ bs) hl hh h = record {
  front = [];
  back = b ∷ bs;
  whole = refl;
  front_valid = unfold is_utf8_from in refl;
  continuing = tt;
  back_valid = unfold is_utf8 is_utf8_from read_byte in h;
}
cut (suc n) low high [] hl hh h = absurd (unfold is_utf8_from in ground arith)
cut (suc n) low high (b ∷ bs) hl hh h = elim (Bool-cases (leb low b && leb b high)) [
  | inl within ↦ under-Cut n low high b bs hl hh within (
      cut n 0x80 0xbf bs (omega arith) (omega arith)
        (sym (valid_next _ (next_bytes n) b bs (read_within n low high b within)) ∙ h))
  | inr outside ↦ absurd (cc (valid_stop _ b bs (read_outside n low high b outside), h))
]

pub Cut-first :
    (b : ℕ) (bs : Bytes) (w : Wanted) → first_byte b ≡ some w → is_utf8_from w bs ≡ true → Cut w bs
Cut-first b bs w e h =
    let range = first_byte-IsWanted b w e in cut w.more w.low w.high bs range.0 range.1 h
