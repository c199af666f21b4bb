-- ===== src/Store/State/Listing.antt =====
-- `State::secrets_in` of crates/ls-store/src/state.rs: sorted, and the same secrets as the lookups.
use localsecrets.Common.{
  ◌≡◌, refl, ◌∙◌, Bool, true, ◌&&◌, some, List, [], ◌∷◌, arith, Text, bytes_eq, bytes_eq_iff,
  bytes_leb, bytes_leb_total, bytes_leb_refl, if◌then◌else◌, find, keep,
}
use localsecrets.Store.State.{
  Secret, State, at_slot, insert_by_key, sort_by_key, secret, secrets_in,
}

-- Each key is at most the next.
abbrev pub IsSorted : List Secret → Type 0
IsSorted [] = Unit
IsSorted (a ∷ []) = Unit
IsSorted (a ∷ b ∷ rest) = (bytes_leb a.key b.key ≡ true) × IsSorted (b ∷ rest)

insert-IsSorted : (s : Secret) (ts : List Secret) → IsSorted ts → IsSorted (insert_by_key s ts)
unfolding insert_by_key
insert-IsSorted s [] h = tt
insert-IsSorted s (a ∷ []) h = ground (arith, bytes_leb_total s.key a.key)
insert-IsSorted s (a ∷ b ∷ rest) h =
    ground (arith, bytes_leb_total s.key a.key, insert-IsSorted s (b ∷ rest) h.1)

sort-IsSorted : (ts : List Secret) → IsSorted (sort_by_key ts)
unfolding sort_by_key
sort-IsSorted [] = tt
sort-IsSorted (s ∷ ss) = insert-IsSorted s (sort_by_key ss) (sort-IsSorted ss)

module _ (k : Text) where
  abbrev has_key : Secret → Bool
  has_key s = bytes_eq s.key k

  find-insert :
      (s : Secret) (ts : List Secret)
      → find has_key (insert_by_key s ts) ≡ (if has_key s then some s else find has_key ts)
  unfolding find insert_by_key
  find-insert s [] = refl
  find-insert s (t ∷ ts) =
      ground (arith, find-insert s ts, bytes_eq_iff s.key k, bytes_eq_iff t.key k, bytes_leb_refl k)

  find-sort : (ts : List Secret) → find has_key (sort_by_key ts) ≡ find has_key ts
  unfolding sort_by_key find
  find-sort [] = refl
  find-sort (s ∷ ss) = ground (arith, find-insert s (sort_by_key ss), find-sort ss)

  find-keep :
      (p e : Text) (ts : List Secret)
      → find has_key (keep (λ x. bytes_eq x.project_id p && bytes_eq x.environment_id e) ts)
        ≡ find (at_slot p e k) ts
  unfolding find keep at_slot
  find-keep p e [] = refl
  find-keep p e (t ∷ ts) = ground (arith, find-keep p e ts)

-- A listing is sorted by key, and at each key it shows the secret that a lookup of the slot finds,
-- or none where the lookup finds none.
pub secrets_in_lem :
    (s : State) (p e : Text)
    → IsSorted (secrets_in s p e)
      × ((k : Text) → find (λ x. bytes_eq x.key k) (secrets_in s p e) ≡ secret s p e k)
unfolding secrets_in secret
secrets_in_lem s p e = (
  sort-IsSorted (keep (λ x. bytes_eq x.project_id p && bytes_eq x.environment_id e) s.secrets),
  λ k. find-sort k _ ∙ find-keep k p e s.secrets,
)
