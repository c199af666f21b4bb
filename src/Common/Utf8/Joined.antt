-- ===== src/Common/Utf8/Joined.antt =====
-- Valid UTF-8 put together, and ASCII as a part of it.
use Prim.Native.Nat.{ℕ, zero, suc, ◌<◌}
use mathlib.Core.Path.{◌≡◌, refl, sym, ◌∙◌}
use mathlib.Core.Logic.{inl, inr}
use mathlib.Core.Bool.{true}
use mathlib.Core.List.{[], ◌∷◌, ◌++◌}
use native.Mathlib.Omega.{arith}
use localsecrets.Common.Texts.{Bytes}
use localsecrets.Common.Tests.{◌==◌, Option-cases}
use localsecrets.Common.Utf8.{
  Wanted, next_bytes, read_byte, first_byte-ascii, is_utf8_from, is_utf8, valid_next, valid_stop,
  is_utf8_first,
}

abbrev pub Ascii : Bytes → Type 0
Ascii [] = Unit
Ascii (b ∷ bs) = (b < 0x80) × Ascii bs

pub Ascii-append : (s t : Bytes) → Ascii s → Ascii t → Ascii (s ++ t)
Ascii-append [] t hs ht = ht
Ascii-append (b ∷ bs) t hs ht = (hs.0, Ascii-append bs t hs.1 ht)

pub Ascii-is_utf8 : (s : Bytes) → Ascii s → is_utf8 s ≡ true
unfolding is_utf8 is_utf8_from
Ascii-is_utf8 [] h = refl
Ascii-is_utf8 (b ∷ bs) h =
    is_utf8_first b bs (next_bytes 0) (first_byte-ascii b h.0) (Ascii-is_utf8 bs h.1)

pub nothing_wanted :
    (n low high : ℕ) (t : Bytes)
    → (n == 0) ≡ true
    → is_utf8 t ≡ true
    → is_utf8_from (record { more = n; low = low; high = high }) t ≡ true
unfolding is_utf8 is_utf8_from read_byte
nothing_wanted zero low high [] h ht = refl
nothing_wanted zero low high (b ∷ bs) h ht = ht
nothing_wanted (suc n) low high t h ht = absurd (ground arith)

-- A check that ends with nothing wanted goes on as a check from the start.
pub valid_append :
    (w : Wanted) (s t : Bytes)
    → is_utf8_from w s ≡ true
    → is_utf8 t ≡ true
    → is_utf8_from w (s ++ t) ≡ true
valid_append w [] t hs ht = nothing_wanted w.more w.low w.high t (unfold is_utf8_from in hs) ht
valid_append w (b ∷ bs) t hs ht = elim (Option-cases (read_byte w.more w.low w.high b)) [
  | inl none_read ↦ absurd (cc (valid_stop w b bs none_read, hs))
  | inr (w', read) ↦
      valid_next w w' b (bs ++ t) read
      ∙ valid_append w' bs t (sym (valid_next w w' b bs read) ∙ hs) ht
]

pub is_utf8-append : (s t : Bytes) → is_utf8 s ≡ true → is_utf8 t ≡ true → is_utf8 (s ++ t) ≡ true
is_utf8-append s t hs ht = unfold is_utf8 in valid_append (next_bytes 0) s t hs ht
