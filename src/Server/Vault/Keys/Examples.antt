-- ===== src/Server/Vault/Keys/Examples.antt =====
-- A vault of crates/ls-server/src/vault.rs with one share, sealed and unsealed.
use localsecrets.Common.{
  ◌≡◌, refl, arith, some, List, [], ◌∷◌, ◌++◌, length, bytes_eq, codes, none, true,
}
use localsecrets.Common.Int.{pos}
use localsecrets.Common.Results.{ok, err}
use localsecrets.Store.State.{empty}
use localsecrets.Store.Event.{session}
use localsecrets.Server.Errors.{sealed, unseal_failed}
use localsecrets.Core.Aead
use localsecrets.Core.Shamir
use localsecrets.Core.Shamir.{Share, combine}
use localsecrets.Store.Log.{for_each_record, each_record, next_frame}
use localsecrets.Store.Log.Examples.{plain_decrypt, fresh-Holds}
use localsecrets.Store.Log.Sealed.{read_records}
use localsecrets.Server.Vault.{
  Barrier, Vault, Caller, is_sealed, require_unsealed, require_capability, granted_to,
}
use localsecrets.Server.Vault.Durable.{InSync}
use localsecrets.Server.Vault.Examples.{toy, root_key, blank, zeros}
use localsecrets.Server.Vault.Keys.{
  barrier_context, recovered_key, replay_records, submit_share, submit_to, add_share, push_new,
  contains_share, unseal_from, unseal_with, seal, seal_as,
}
use localsecrets.Server.Vault.Moves.Runs.{Runs}
use localsecrets.Server.Vault.Moves.Served.{
  Request, seal_request, share_request, reset_request, get_request,
}
use localsecrets.Server.Vault.Keys.Offers.{AllNew, counted, opened, offer_all}
use localsecrets.Server.Vault.Keys.Reopen.{seal_as-offer_all}
use localsecrets.Server.Vault.Keys.Restart.{submit_share-restarts}

abbrev first_share : Share
first_share = record { index = 1; share_data = zeros 32 }

abbrev second_share : Share
second_share = record { index = 2; share_data = zeros 32 }

abbrev wrong_share : Share
wrong_share = record { index = 3; share_data = 3 ∷ [] }

abbrev fence : Barrier
fence = record {
  threshold = 2;
  shares = 3;
  root_key = record {
    nonce = zeros 12;
    ciphertext = length barrier_context ∷ (barrier_context ++ zeros 32);
  };
  created_at = pos 0;
}

abbrev fenced : Vault
fenced = record blank { barrier = some fence }

abbrev person : Caller
person = record {
  token_id = codes "t";
  kind = session;
  user_id = none;
  project_id = none;
  environment_id = none;
}

fenced-InSync : InSync toy root_key fenced
fenced-InSync = record {
  unlocked = refl;
  stored = [];
  holds = fresh-Holds;
  records = [];
  read = unfold read_records for_each_record each_record next_frame in refl;
  replayed = unfold replay_records in refl;
}

shares_recover : recovered_key toy fence (first_share ∷ second_share ∷ []) ≡ some root_key
unfolding recovered_key combine Shamir.check_shares Shamir.has_index Shamir.bytes_from
    Shamir.byte_from Shamir.basis_from Shamir.gf_mul Shamir.mul_steps Shamir.gf_add Shamir.xor_bits
    Shamir.gf_div Shamir.gf_inverse Shamir.power_steps Aead.from_bytes Aead.unwrap_key
    Aead.open_envelope plain_decrypt Aead.key_wrap Aead.aad Aead.push_field Aead.push_fields
    Aead.be64 zeros bytes_eq
shares_recover = refl

sealing : seal_as person fenced ≡ (ok tt, seal fenced)
unfolding seal_as require_capability granted_to
sealing = refl

shares_differ : AllNew [] (first_share ∷ second_share ∷ [])
unfolding contains_share
shares_differ = (refl, (refl, tt))

seal_as-offer_all_example :
    (require_unsealed (seal fenced) ≡ err sealed)
    × ((seal fenced).state ≡ empty)
    × (offer_all toy (first_share ∷ second_share ∷ []) (seal fenced) ≡ (
      ok (record { sealed = true; progress = 1; threshold = 2 }) ∷ opened 2 ∷ [],
      record fenced { pending_shares = [] },
    ))
seal_as-offer_all_example =
    seal_as-offer_all toy root_key person fenced (seal fenced) fence (first_share ∷ []) second_share
      fenced-InSync refl sealing shares_differ refl shares_recover

-- One share is pending, and the second, of another length, makes the attempt fail.
abbrev waiting : Vault
waiting = record fenced { root_key = none; pending_shares = first_share ∷ [] }

wrong_share_fails :
    submit_share toy (some wrong_share) waiting
    ≡ (err unseal_failed, record waiting { pending_shares = [] })
unfolding submit_to is_sealed add_share push_new contains_share unseal_from unseal_with
    recovered_key combine Shamir.check_shares Shamir.has_index zeros
wrong_share_fails = refl

submit_share-restarts_example :
    (record waiting { pending_shares = [] } ≡ record waiting { pending_shares = [] })
    × (offer_all toy (second_share ∷ []) (record waiting { pending_shares = [] })
        ≡ (counted 2 0 1, record waiting { pending_shares = second_share ∷ [] }))
unfolding contains_share
submit_share-restarts_example =
    submit_share-restarts toy fence wrong_share waiting (record waiting { pending_shares = [] })
      unseal_failed (second_share ∷ []) refl refl wrong_share_fails (refl, tt) (omega arith)

-- Sealing, opening with two shares, and asking for a secret of a project that is not there.
abbrev asking : List Request
asking =
    seal_request person
    ∷ share_request none
    ∷ share_request (some first_share)
    ∷ reset_request
    ∷ share_request (some first_share)
    ∷ share_request (some second_share)
    ∷ get_request person (codes "p") (codes "e") (codes "K")
    ∷ []
