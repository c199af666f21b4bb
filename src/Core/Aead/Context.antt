-- ===== src/Core/Aead/Context.antt =====
-- The associated data of crates/ls-core/src/crypto/aead.rs is canonical.
use localsecrets.Common.{
  ℕ, ◌+◌, ◌*◌, ◌^◌, ◌<◌, ◌≡◌, refl, sym, ap, ap₂, ◌∙◌, List, [], ◌∷◌, ◌++◌, arith, Bytes, Text,
  length, append-nil, append_assoc, take, drop, take-append_left, drop-append_left,
}
use localsecrets.Core.Aead.{be64, push_field, push_fields, aad}

-- A count read back from its eight bytes.
read_be64 : Bytes → ℕ
read_be64 (a ∷ b ∷ c ∷ d ∷ e ∷ f ∷ g ∷ h ∷ rest) =
    a * 2 ^ 56 + b * 2 ^ 48 + c * 2 ^ 40 + d * 2 ^ 32 + e * 2 ^ 24 + f * 2 ^ 16 + g * 2 ^ 8 + h
read_be64 _ = 0

read_be64-be64 : (n : ℕ) (rest : Bytes) → n < 2 ^ 64 → read_be64 (be64 n ++ rest) ≡ n
unfolding read_be64 be64
read_be64-be64 n rest h = omega arith

-- A count in front of a text is determined, and so is the text.
be64-cancel :
    (n m : ℕ) (r r' : Bytes)
    → n < 2 ^ 64
    → m < 2 ^ 64
    → be64 n ++ r ≡ be64 m ++ r'
    → (n ≡ m) × (r ≡ r')
be64-cancel n m r r' hn hm e = (
  sym (read_be64-be64 n r hn) ∙ ap read_be64 e ∙ read_be64-be64 m r' hm,
  unfold be64 in ap (drop 8) e,
)

append-cancel : (f g r r' : Bytes) → length f ≡ length g → f ++ r ≡ g ++ r' → (f ≡ g) × (r ≡ r')
append-cancel f g r r' same e = (
  sym (take-append_left f r)
      ∙ ap (take (length f)) e
      ∙ ap (λ n. take n (g ++ r')) same
      ∙ take-append_left g r',
  sym (drop-append_left f r)
      ∙ ap (drop (length f)) e
      ∙ ap (λ n. drop n (g ++ r')) same
      ∙ drop-append_left g r',
)

field_bytes : Bytes → Bytes → Bytes
field_bytes f rest = be64 (length f) ++ (f ++ rest)

field-cancel :
    (f g r r' : Bytes)
    → length f < 2 ^ 64
    → length g < 2 ^ 64
    → field_bytes f r ≡ field_bytes g r'
    → (f ≡ g) × (r ≡ r')
unfolding field_bytes
field-cancel f g r r' hf hg e =
    let (same, rest) = be64-cancel (length f) (length g) (f ++ r) (g ++ r') hf hg e in
    append-cancel f g r r' same rest

fields_bytes : List Text → Bytes
fields_bytes [] = []
fields_bytes (f ∷ fs) = field_bytes f (fields_bytes fs)

push_fields-eq : (buf : Bytes) (fs : List Text) → push_fields buf fs ≡ buf ++ fields_bytes fs
unfolding push_fields push_field fields_bytes field_bytes
push_fields-eq buf [] = simp append-nil
push_fields-eq buf (f ∷ fs) = push_fields-eq (push_field buf f) fs ∙ simp append_assoc

aad-eq :
    (domain : Text) (fs : List Text)
    → aad domain fs ≡ field_bytes domain (be64 (length fs) ++ fields_bytes fs)
aad-eq domain fs = unfold aad field_bytes in simp (push_fields-eq, append_assoc)

-- Every length is one that a `u64` holds.
abbrev pub Fits : List Text → Type 0
Fits [] = Unit
Fits (f ∷ fs) = (length f < 2 ^ 64) × Fits fs

fields-cancel :
    (fs gs : List Text)
    → length fs ≡ length gs
    → Fits fs
    → Fits gs
    → fields_bytes fs ≡ fields_bytes gs
    → fs ≡ gs
unfolding fields_bytes
fields-cancel [] [] same hf hg e = refl
fields-cancel [] (g ∷ gs) same hf hg e = absurd (omega arith)
fields-cancel (f ∷ fs) [] same hf hg e = absurd (omega arith)
fields-cancel (f ∷ fs) (g ∷ gs) same hf hg e =
    let (head, tail) = field-cancel f g (fields_bytes fs) (fields_bytes gs) hf.0 hg.0 e in
    ap₂ ◌∷◌ head (fields-cancel fs gs (omega arith) hf.1 hg.1 tail)

-- Two contexts have the same bytes only if they have the same domain and the same fields, as long
-- as no length passes a `u64`.
pub aad_injective :
    (d d' : Text) (fs gs : List Text)
    → Fits (d ∷ fs)
    → Fits (d' ∷ gs)
    → length fs < 2 ^ 64
    → length gs < 2 ^ 64
    → aad d fs ≡ aad d' gs
    → (d ≡ d') × (fs ≡ gs)
aad_injective d d' fs gs hf hg nf ng e =
    let e' : field_bytes d (be64 (length fs) ++ fields_bytes fs)
        ≡ field_bytes d' (be64 (length gs) ++ fields_bytes gs) =
      sym (aad-eq d fs) ∙ e ∙ aad-eq d' gs in
    let (domain, rest) = field-cancel d d' _ _ hf.0 hg.0 e' in
    let (count, bytes) = be64-cancel (length fs) (length gs) _ _ nf ng rest in
    (domain, fields-cancel fs gs count hf.1 hg.1 bytes)
