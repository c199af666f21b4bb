-- ===== src/Store/State/Tokens.antt =====
-- Revocation in crates/ls-store/src/state.rs.
use localsecrets.Common.{
  ◌≡◌, refl, Bool, true, false, none, some, List, [], ◌∷◌, arith, Text, Bytes, bytes_eq,
  find-append_some, find-update_some, find-update_self, inl, inr,
}
use localsecrets.Core.Time.{Timestamp}
use localsecrets.Store.Event.{Event, token_issued, token_revoked}
use localsecrets.Store.State.{
  Token, State, is_valid_at, revoke, apply, apply_all, token, token_by_hash,
}

abbrev is_revoked : Token → Bool
is_revoked t = elim t.revoked_at [ some at ↦ true | none ↦ false ]

-- A token that a hash finds, and that is revoked.
abbrev FindsRevoked : State → Bytes → Type 0
FindsRevoked s hash = (t : Token) × (token_by_hash s hash ≡ some t) × (is_revoked t ≡ true)

FindsRevoked-revoke :
    (s : State) (hash : Bytes) (id : Text) (at : Timestamp)
    → FindsRevoked s hash
    → FindsRevoked (apply s (token_revoked id at)) hash
unfolding apply revoke token_by_hash
FindsRevoked-revoke s hash id at (t, found, dead) =
    elim (find-update_some (λ t. bytes_eq t.id id) (λ t. bytes_eq t.token_hash hash)
      (λ t. record t { revoked_at = some at }) s.tokens t (λ t. refl) found) [
        | inl same ↦ (t, same, dead)
        | inr new ↦ (record t { revoked_at = some at }, new, refl)
      ]

FindsRevoked-apply :
    (s : State) (hash : Bytes) (event : Event)
    → FindsRevoked s hash
    → FindsRevoked (apply s event) hash
unfolding apply token_by_hash
FindsRevoked-apply s hash (token_revoked id at) h = FindsRevoked-revoke s hash id at h
FindsRevoked-apply s hash (token_issued id token_hash kind u p e label expires_at created_at) h =
    (h.0, find-append_some (λ t. bytes_eq t.token_hash hash) s.tokens _ h.1, h.2)
FindsRevoked-apply s hash _ h = h

FindsRevoked-apply_all :
    (s : State) (hash : Bytes) (events : List Event)
    → FindsRevoked s hash
    → FindsRevoked (apply_all s events) hash
unfolding apply_all
FindsRevoked-apply_all s hash [] h = h
FindsRevoked-apply_all s hash (event ∷ events) h =
    FindsRevoked-apply_all (apply s event) hash events (FindsRevoked-apply s hash event h)

not_valid_of_revoked :
    (t : Token) (now : Timestamp) → is_revoked t ≡ true → is_valid_at t now ≡ false
unfolding is_valid_at
not_valid_of_revoked t now h = ground arith

revoke-FindsRevoked :
    (s : State) (t : Token) (at : Timestamp)
    → token_by_hash s t.token_hash ≡ some t
    → token s t.id ≡ some t
    → FindsRevoked (apply s (token_revoked t.id at)) t.token_hash
unfolding apply revoke token_by_hash token
revoke-FindsRevoked s t at by_hash by_id = (
  record t { revoked_at = some at },
  find-update_self (λ x. bytes_eq x.id t.id) (λ x. bytes_eq x.token_hash t.token_hash)
      (λ x. record x { revoked_at = some at }) s.tokens t (λ x. refl) by_id by_hash,
  refl,
)

-- Revoking a token that its hash and its identifier both find makes it invalid at every moment,
-- and it stays so whatever events follow.
pub revoke_for_good :
    (s : State) (t : Token) (at now : Timestamp) (events : List Event)
    → token_by_hash s t.token_hash ≡ some t
    → token s t.id ≡ some t
    → (t' : Token) × (token_by_hash
          (apply_all (apply s (token_revoked t.id at)) events)
          t.token_hash
        ≡ some t')
      × (is_valid_at t' now ≡ false)
revoke_for_good s t at now events by_hash by_id =
    let (t', found, dead) =
      FindsRevoked-apply_all (apply s (token_revoked t.id at)) t.token_hash events
        (revoke-FindsRevoked s t at by_hash by_id) in
    (t', found, not_valid_of_revoked t' now dead)
