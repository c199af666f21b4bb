-- ===== src/Store/State/Examples.antt =====
-- The state of crates/ls-store/src/state.rs at inputs.
use localsecrets.Common.{
  ◌≡◌, refl, true, false, none, some, List, [], ◌∷◌, Text, codes, find, bytes_eq, keep,
  update_first,
}
use localsecrets.Common.Int.{pos}
use localsecrets.Store.Event.{Sealed, Event, session, token_revoked, secret_set, secret_deleted}
use localsecrets.Store.State.{
  State, Token, empty, apply, apply_all, at_slot, set_secret, delete_secret, secret, secrets_in,
  token, token_by_hash, is_valid_at,
}
use localsecrets.Store.State.Secrets.{last_written, secret-apply_all}
use localsecrets.Store.State.Unique.{IsUnique, apply_all-IsUnique}
use localsecrets.Store.State.Tokens.{revoke_for_good}
use localsecrets.Store.State.Listing.{IsSorted, secrets_in_lem}

abbrev value : Sealed
value = record { nonce = 1 ∷ []; ciphertext = 2 ∷ 3 ∷ [] }

abbrev history : List Event
history =
    secret_set (codes "p") (codes "e") (codes "B") value (pos 1)
    ∷ secret_set (codes "p") (codes "e") (codes "A") value (pos 2)
    ∷ secret_set (codes "p") (codes "e") (codes "B") value (pos 3)
    ∷ secret_deleted (codes "p") (codes "e") (codes "A") (pos 4)
    ∷ []

abbrev after : State
after = apply_all empty history

left_in_slot :
    secret after (codes "p") (codes "e") (codes "B")
    ≡ some (record {
      project_id = codes "p";
      environment_id = codes "e";
      key = codes "B";
      value = value;
      updated_at = pos 3;
    })
unfolding apply_all apply set_secret delete_secret at_slot secret find keep update_first bytes_eq
left_in_slot = refl

secret-apply_all_example :
    secret after (codes "p") (codes "e") (codes "A")
    ≡ last_written
        (codes "p")
        (codes "e")
        (codes "A")
        (secret empty (codes "p") (codes "e") (codes "A"))
        history
secret-apply_all_example = secret-apply_all (codes "p") (codes "e") (codes "A") empty history

apply_all-IsUnique_example : IsUnique after.secrets
apply_all-IsUnique_example = apply_all-IsUnique empty history tt

secrets_in_lem_example :
    IsSorted (secrets_in after (codes "p") (codes "e"))
    × ((k : Text)
        → find (λ x. bytes_eq x.key k) (secrets_in after (codes "p") (codes "e"))
          ≡ secret after (codes "p") (codes "e") k)
secrets_in_lem_example = secrets_in_lem after (codes "p") (codes "e")

abbrev issued : Token
issued = record {
  id = codes "t1";
  token_hash = 9 ∷ 9 ∷ [];
  kind = session;
  user_id = some (codes "u");
  project_id = none;
  environment_id = none;
  label = none;
  expires_at = some (pos 100);
  revoked_at = none;
  created_at = pos 5;
}

abbrev with_token : State
with_token = record empty { tokens = issued ∷ [] }

valid_before : is_valid_at issued (pos 99) ≡ true
unfolding is_valid_at
valid_before = refl

expired_at : is_valid_at issued (pos 100) ≡ false
unfolding is_valid_at
expired_at = refl

found_by_hash : token_by_hash with_token (9 ∷ 9 ∷ []) ≡ some issued
unfolding token_by_hash find bytes_eq
found_by_hash = refl

found_by_id : token with_token (codes "t1") ≡ some issued
unfolding token find bytes_eq
found_by_id = refl

revoke_for_good_example :
    (t' : Token) × (token_by_hash
        (apply_all (apply with_token (token_revoked (codes "t1") (pos 6))) history)
        (9 ∷ 9 ∷ [])
      ≡ some t')
    × (is_valid_at t' (pos 50) ≡ false)
revoke_for_good_example =
    revoke_for_good with_token issued (pos 6) (pos 50) history found_by_hash found_by_id
