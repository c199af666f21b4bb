-- ===== src/Server/Vault/Examples.antt =====
-- Small runs of the vault, on a cipher that hides nothing and a clock that counts.
use localsecrets.Common.{
  sym, ◌∙◌, arith, ℕ, zero, suc, ◌≡◌, ◌≢◌, ◌≤◌, refl, sym, ap, subst, false, none, some, List, [],
  ◌∷◌, ◌++◌, Bytes, Text, codes, length, bytes_eq, find, decimal, trim, lower,
}
use mathlib.Core.Option.{some-injective}
use localsecrets.Common.Int.{pos}
use localsecrets.Common.Results.{Result, ok}
use localsecrets.Core.Aead.{Cipher, nonce_len}
use localsecrets.Core.Aead
use localsecrets.Store.Event.{machine, root, session, Event, audited}
use localsecrets.Core.Encoding.Hex
use localsecrets.Core.Token as TokenSecret
use localsecrets.Store.State
use localsecrets.Store.State.{
  token, token_by_hash, user_by_email, is_valid_at, apply, at_slot, project_by_slug,
  environment_by_slug, project, secret, State, apply_all, Token, Project, Environment, Secret,
  empty,
}
use localsecrets.Store.Log.{write_record, written, header, for_each_record, each_record, next_frame}
use localsecrets.Store.Log.Examples.{plain_cipher, plain_decrypt, fresh-Holds}
use localsecrets.Store.Log.Sealed as SealedLog
use localsecrets.Store.Log.Sealed.{read_records}
use localsecrets.Server.Setting.{Setting, EventCodec}
use localsecrets.Server.Validate.{secret_key, every, email, split_once}
use localsecrets.Server.Vault.{
  require_unsealed, is_sealed, resolve_and_record, resolve_for, resolve, authorise_and_record,
  authorise, require_capability, granted_to, project_data_key, actor, draw, now, new_id,
  read_secrets, secret_context, to_envelope, Caller, Vault, commit, project_key_context, and_then,
  pure, record_audit, target,
}
use localsecrets.Server.Vault.Keys.{replay_records, replay}
use localsecrets.Server.Vault.Secrets.{
  set_secret, get_secret, list_secrets, delete_secret, stored_value,
}
use localsecrets.Server.Errors.{VaultError}
use localsecrets.Server.Vault.Hidden.{Refusal, machine-Refusal}
use localsecrets.Server.Vault.Access.{MayUse, get_secret-MayUse}
use localsecrets.Server.Vault.RoundTrip.{get_secret-set_secret}
use localsecrets.Server.Vault.Tokens.{create_user-root, revoke_token-authenticate}
use localsecrets.Server.Vault.Accounts.{create_user, revoke_token, authenticate, is_usable}
use localsecrets.Server.Vault.Durable.{InSync, Commits_durable}
use localsecrets.Server.Vault.Steps.{made, done, made_one}

unfoldable pub zeros : ℕ → Bytes
zeros zero = []
zeros (suc n) = 0 ∷ zeros n

pub length-zeros : (n : ℕ) → length (zeros n) ≡ n
unfolding zeros
length-zeros zero = refl
length-zeros (suc n) = ap suc (length-zeros n)

abbrev ann : Caller
ann = record {
  token_id = codes "t1";
  kind = session;
  user_id = some (codes "u1");
  project_id = none;
  environment_id = none;
}

abbrev pub written_event : Event
written_event = audited (pos 0) (codes "user:u1") (codes "a") (codes "b") (codes "ok")

-- A codec for the one event.
abbrev pub one_event : EventCodec
one_event = record {
  to_bytes = λ e. 1 ∷ [];
  from_bytes = λ bytes. some written_event;
  IsWritable = λ e. e ≡ written_event;
  from_bytes-to_bytes = λ e same. ap (λ x. some x) (sym same);
}

abbrev pub toy : Setting
toy = record {
  cipher = plain_cipher;
  codec = one_event;
  sha256 = λ bytes. bytes;
  password_hash = λ password salt. ok password;
  password_verify = bytes_eq;
  now = λ turn. pos turn;
  random = λ turn size. some (zeros size);
  random_length =
      λ turn size bytes h. subst (λ b. length b ≡ size) (some-injective _ _ h) (length-zeros size);
  disk = λ turn. written;
}

abbrev pub root_key : Bytes
root_key = zeros 32

abbrev pub blank : Vault
blank = record {
  log = record { file = header; count = 0; broken = false; repaired = false };
  state = empty;
  barrier = none;
  root_key = some root_key;
  pending_shares = [];
  turn = 0;
}

abbrev blank_after : Vault
blank_after = (commit toy written_event blank).1

blank_commits : commit toy written_event blank ≡ (ok tt, blank_after)
unfolding commit SealedLog.append SealedLog.seal Aead.seal write_record zeros
    SealedLog.record_context Aead.aad Aead.be64 decimal
blank_commits = refl

blank-InSync : InSync toy root_key blank
blank-InSync = record {
  unlocked = refl;
  stored = [];
  holds = fresh-Holds;
  records = [];
  read = unfold read_records for_each_record each_record next_frame in refl;
  replayed = unfold replay_records in refl;
}

Commits_durable_example :
    (extra : List Event) × (length extra ≤ 1)
    × (blank_after.log.broken ≡ false → extra ≡ [])
    × (replay toy root_key blank_after.log ≡ ok (apply_all blank_after.state extra))
Commits_durable_example =
    Commits_durable toy root_key blank blank_after (made written_event ∷ [])
      (made_one written_event blank_commits done) blank-InSync (refl, tt)

-- A project with one environment, and two tokens: of a person, and for the first account.
abbrev stocked : State
stocked = record {
  users = [];
  tokens =
      record {
        id = codes "t1";
        token_hash = codes "s1";
        kind = session;
        user_id = some (codes "u1");
        project_id = none;
        environment_id = none;
        label = none;
        expires_at = none;
        revoked_at = none;
        created_at = pos 0;
      }
      ∷ [];
  projects =
      record {
        id = codes "p1";
        slug = codes "p";
        name = codes "P";
        data_key = record {
          nonce = zeros 12;
          ciphertext =
              length (project_key_context (codes "p1"))
              ∷ (project_key_context (codes "p1") ++ zeros 32);
        };
        created_at = pos 0;
      }
      ∷ [];
  environments =
      record {
        id = codes "e1";
        project_id = codes "p1";
        slug = codes "e";
        name = codes "E";
        created_at = pos 0;
      }
      ∷ [];
  secrets = [];
}

abbrev shop : Vault
shop = record blank { state = stocked }

abbrev stored_shop : Vault
stored_shop = (set_secret toy ann (codes "p") (codes "e") (codes "K") (7 ∷ []) shop).1

shop_stores :
    set_secret toy ann (codes "p") (codes "e") (codes "K") (7 ∷ []) shop ≡ (ok tt, stored_shop)
unfolding set_secret get_secret require_unsealed is_sealed secret_key every resolve_and_record
    resolve_for resolve project_by_slug find bytes_eq environment_by_slug authorise_and_record
    authorise require_capability granted_to project_data_key project Aead.key_wrap Aead.from_bytes
    Aead.open_envelope Aead.secret_slot Aead.unwrap_key Aead.push_field Aead.push_fields actor draw
    now record_audit plain_decrypt commit SealedLog.append SealedLog.seal Aead.seal write_record
    zeros SealedLog.record_context Aead.aad Aead.be64 decimal
shop_stores = refl

abbrev read_shop : Vault
read_shop = (get_secret toy ann (codes "p") (codes "e") (codes "K") stored_shop).1

shop_reads :
    get_secret toy ann (codes "p") (codes "e") (codes "K") stored_shop ≡ (ok (7 ∷ []), read_shop)
unfolding set_secret get_secret require_unsealed is_sealed secret_key every resolve_and_record
    resolve_for resolve project_by_slug find bytes_eq environment_by_slug authorise_and_record
    authorise require_capability granted_to project_data_key project Aead.key_wrap Aead.from_bytes
    Aead.open_envelope Aead.secret_slot Aead.unwrap_key Aead.push_field Aead.push_fields actor draw
    now record_audit plain_decrypt commit SealedLog.append SealedLog.seal Aead.seal write_record
    zeros SealedLog.record_context Aead.aad Aead.be64 decimal stored_value secret at_slot apply
    State.set_secret
shop_reads = refl

shop_resolves : resolve (codes "p") (codes "e") shop ≡ ok (codes "p1", codes "e1")
unfolding resolve project_by_slug environment_by_slug find bytes_eq
shop_resolves = refl

ann_reads : authorise ann read_secrets (codes "p1") (codes "e1") ≡ ok tt
unfolding authorise require_capability granted_to
ann_reads = refl

get_secret-set_secret_example :
    get_secret toy ann (codes "p") (codes "e") (codes "K") stored_shop
    ≡ and_then
        (record_audit toy ann
          (codes "secret.read")
          (target (target (codes "p") (codes "e")) (codes "K"))
          (codes "ok")
          stored_shop)
        λ _. pure (7 ∷ [])
get_secret-set_secret_example =
    get_secret-set_secret toy ann ann (codes "p") (codes "e") (codes "K") (7 ∷ []) shop stored_shop
      (codes "p1", codes "e1") shop_stores shop_resolves ann_reads

get_secret-MayUse_example :
    (ids : Text × Text) × (stored : Secret) × (data_key : Bytes) × (resolve
        (codes "p")
        (codes "e")
        stored_shop
      ≡ ok ids)
    × MayUse ann read_secrets ids.0 ids.1
    × (secret stored_shop.state ids.0 ids.1 (codes "K") ≡ some stored)
    × (project_data_key toy ids.0 stored_shop ≡ ok data_key)
    × (Aead.open_envelope plain_cipher data_key
          (to_envelope stored.value)
          (secret_context ids.0 ids.1 (codes "K"))
        ≡ ok (7 ∷ []))
    × (record_audit toy ann
          (codes "secret.read")
          (target (target (codes "p") (codes "e")) (codes "K"))
          (codes "ok")
          stored_shop
        ≡ (ok tt, read_shop))
get_secret-MayUse_example =
    get_secret-MayUse toy ann (codes "p") (codes "e") (codes "K") stored_shop read_shop (7 ∷ [])
      shop_reads

-- The first account, made with the root token.
abbrev first : Caller
first = record ann { kind = root; user_id = none }

abbrev peopled : Vault
peopled = (create_user toy first (codes "a@b") (codes "pw") shop).1

abbrev first_id : Text
first_id = Hex.encode (zeros 16)

first_made : create_user toy first (codes "a@b") (codes "pw") shop ≡ (ok first_id, peopled)
unfolding create_user require_unsealed is_sealed require_capability granted_to email trim split_once
    lower every user_by_email find draw new_id now bytes_eq commit SealedLog.append SealedLog.seal
    Aead.seal write_record zeros SealedLog.record_context Aead.aad Aead.be64 decimal Hex.encode
    apply
first_made = refl

ann_known : authenticate toy (codes "s1") (pos 9) peopled ≡ some ann
unfolding authenticate is_usable token_by_hash TokenSecret.hash is_valid_at create_user
    require_unsealed is_sealed require_capability granted_to email trim split_once lower every
    user_by_email find draw new_id now bytes_eq commit SealedLog.append SealedLog.seal Aead.seal
    write_record zeros SealedLog.record_context Aead.aad Aead.be64 decimal Hex.encode apply
ann_known = refl

create_user-root_example : ann.kind ≢ root
create_user-root_example =
    create_user-root toy first ann (codes "a@b") (codes "pw") first_id (codes "s1") (pos 9) shop
      peopled peopled [] first_made done ann_known

abbrev logged_out : Vault
logged_out = (revoke_token toy ann (codes "t1") shop).1

ann_logs_out : revoke_token toy ann (codes "t1") shop ≡ (ok tt, logged_out)
unfolding revoke_token require_unsealed is_sealed bytes_eq token find now commit SealedLog.append
    SealedLog.seal Aead.seal write_record zeros SealedLog.record_context Aead.aad Aead.be64 decimal
ann_logs_out = refl

abbrev ann_token : Token
ann_token = record {
  id = codes "t1";
  token_hash = codes "s1";
  kind = session;
  user_id = some (codes "u1");
  project_id = none;
  environment_id = none;
  label = none;
  expires_at = none;
  revoked_at = none;
  created_at = pos 0;
}

by_hash : token_by_hash stocked (TokenSecret.hash toy.sha256 (codes "s1")) ≡ some ann_token
unfolding token_by_hash find bytes_eq TokenSecret.hash
by_hash = refl

by_id : token stocked (codes "t1") ≡ some ann_token
unfolding token find bytes_eq
by_id = refl

revoke_token-authenticate_example : authenticate toy (codes "s1") (pos 9) logged_out ≡ none
revoke_token-authenticate_example =
    revoke_token-authenticate toy ann (codes "s1") (pos 9) ann_token shop logged_out logged_out []
      by_hash by_id ann_logs_out done

-- A machine of another environment.
abbrev robot : Caller
robot = record ann {
  kind = machine;
  user_id = none;
  project_id = some (codes "p1");
  environment_id = some (codes "e2");
}

elsewhere :
    (ids : Text × Text)
    → ◌≡◌ {A = Result (Text × Text) VaultError} (ok (codes "p1", codes "e1")) (ok ids)
    → some (codes "e2") ≢ some ids.1
elsewhere ids same here = ground arith

machine-Refusal_example :
    Refusal (get_secret toy robot (codes "p") (codes "e") (codes "K") shop).0
    × Refusal (list_secrets toy robot (codes "p") (codes "e") shop).0
    × Refusal (delete_secret toy robot (codes "p") (codes "e") (codes "K") shop).0
machine-Refusal_example =
    machine-Refusal toy robot (codes "p") (codes "e") (codes "K") root_key shop refl refl
      (λ ids found own here. elsewhere ids (sym shop_resolves ∙ found) here)
