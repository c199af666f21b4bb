-- ===== src/Server/Vault/Tokens.antt =====
-- Tokens that are spent or revoked, in crates/ls-server/src/vault.rs.
use localsecrets.Common.{
  suc, ◌≤◌, ◌<◌, ◌≡◌, ◌≢◌, sym, ap, ap₂, ◌∙◌, true, none, some, List, [], ◌∷◌, Bytes, Text, codes,
  length, length-append, arith, bytes_eq, bytes_eq_iff, find-holds, inl, inr, Option-cases,
  if◌then◌else◌,
}
use localsecrets.Common.Results.{ok}
use localsecrets.Core.Time.{Timestamp}
use localsecrets.Core.Token as TokenSecret
use localsecrets.Store.Event.{root, Event, user_created, token_revoked}
use localsecrets.Store.State.{State, Token, apply, apply_all, token_by_hash, token, user_by_email}
use localsecrets.Store.State.Tokens.{revoke_for_good}
use localsecrets.Server.Errors.{not_found, conflict}
use localsecrets.Server.Setting.{Setting}
use localsecrets.Server.Validate.{email}
use localsecrets.Server.Vault.{
  Caller, Vault, bootstrap, administer, require_unsealed, require_capability, absent, present,
  new_id, commit,
}
use localsecrets.Server.Vault.Accounts.{create_user, revoke_token, authenticate, is_usable, of_hash}
use localsecrets.Server.Vault.Steps.{Attempt, made_of, Commits}
use localsecrets.Server.Vault.Commit.{commit-made, Commits-state}
use localsecrets.Server.Vault.Outcomes.{
  Gives_bind, Gives_reading, Gives_draw, Gives_now, Gives-pure,
}

-- No event takes an account away.
users-apply : (s : State) (e : Event) → length s.users ≤ length (apply s e).users
unfolding apply
users-apply s (user_created id address hash at) = omega (
  arith,
  length-append s.users
      (record { id = id; email = address; password_hash = hash; created_at = at } ∷ []),
)
users-apply s _ = omega arith

users-apply_all : (s : State) (es : List Event) → length s.users ≤ length (apply_all s es).users
unfolding apply_all
users-apply_all s [] = omega arith
users-apply_all s (e ∷ es) = omega (arith, users-apply s e, users-apply_all (apply s e) es)

spent :
    (at : Timestamp) (s : State) (t : Token)
    → 0 < length s.users
    → is_usable s at t ≡ true
    → t.kind ≢ root
unfolding is_usable
spent at s t accounts usable is_root = ground arith

module _ (π : Setting) where
  -- A root token authenticates no one where there is an account.
  authenticate-root :
      (presented : Text) (at : Timestamp) (v : Vault) (c : Caller)
      → 0 < length v.state.users
      → authenticate π presented at v ≡ some c
      → c.kind ≢ root
  unfolding authenticate is_usable
  authenticate-root presented at v c some_user h is_root =
      elim (Option-cases (token_by_hash v.state (TokenSecret.hash π.sha256 presented))) [
        | inl missing ↦ ground arith
        | inr (t, found) ↦
            let usable : is_usable v.state at t ≡ true = ground arith in
            let same : t.kind ≡ c.kind = ground arith in
            spent at v.state t some_user usable (same ∙ is_root)
      ]

  create_user-users :
      (caller : Caller) (address password id : Text) (v w : Vault)
      → create_user π caller address password v ≡ (ok id, w)
      → 0 < length w.state.users
  unfolding create_user
  create_user-users caller address password id v w h =
      Gives_reading require_unsealed {w = w} {b = id} (record { equation = h })
        λ _ unlocked g.
          Gives_reading (λ u. require_capability caller bootstrap) g
            λ _ allowed g.
              Gives_reading (λ u. email address) g
                λ normal valid g.
                  Gives_reading
                    (λ u. absent (user_by_email u.state normal) (conflict (codes "user"))) g
                    λ _ free g. Gives_draw π 16 g λ salt drawn g.
                      Gives_reading (λ u. of_hash (π.password_hash password salt)) g
                        λ hash hashed g. Gives_bind (new_id π) g λ id' u fresh g.
                          Gives_now π g λ at read g.
                            Gives_bind (commit π (user_created id' normal hash at)) g
                              λ _ last committed g.
                                let (log, left) =
                                  commit-made π (user_created id' normal hash at)
                                    (record u { turn = suc u.turn }) last committed in
                                let (_, same) = Gives-pure g in
                                let grown : w.state
                                    ≡ apply u.state (user_created id' normal hash at) =
                                  ap (λ q. q.state) (sym same ∙ left) in
                                rw grown (
                                  unfold apply in
                                  omega (
                                    arith,
                                    length-append u.state.users (
                                        record {
                                          id = id';
                                          email = normal;
                                          password_hash = hash;
                                          created_at = at;
                                        }
                                        ∷ []),
                                  ))

  revoke_token-state :
      (caller : Caller) (id : Text) (v w : Vault)
      → revoke_token π caller id v ≡ (ok tt, w)
      → (at : Timestamp) × (w.state ≡ apply v.state (token_revoked id at))
  unfolding revoke_token
  revoke_token-state caller id v w h =
      Gives_reading require_unsealed {w = w} {b = tt} (record { equation = h })
        λ _ unlocked g.
          Gives_reading
            (λ u.
              if bytes_eq id caller.token_id then ok tt else require_capability caller administer)
            g
            λ _ allowed g.
              Gives_reading (λ u. present (token u.state id) (not_found (codes "token"))) g
                λ _ there g. Gives_now π g λ at read g.
                  let (log, left) =
                    commit-made π (token_revoked id at) (record v { turn = suc v.turn }) w
                      g.equation in
                  (at, ap (λ q. q.state) left)

  -- The root token is spent with the first account: once an account was created, no token that is
  -- presented authenticates a root caller, whatever is committed afterwards.
  pub create_user-root :
      (caller c : Caller) (address password id presented : Text) (at : Timestamp) (v w u : Vault)
      (tries : List Attempt)
      → create_user π caller address password v ≡ (ok id, w)
      → Commits π w tries u
      → authenticate π presented at u ≡ some c
      → c.kind ≢ root
  create_user-root caller c address password id presented at v w u tries created later =
      let some_user = create_user-users caller address password id v w created in
      authenticate-root presented at u c (
        rw (Commits-state π later)
          (omega (arith, some_user, users-apply_all w.state (made_of tries))))

  -- A token that was revoked authenticates no one at any moment, whatever is committed afterwards:
  -- for a token that its hash and its identifier both find.
  pub revoke_token-authenticate :
      (caller : Caller) (presented : Text) (at : Timestamp) (t : Token) (v w u : Vault)
      (tries : List Attempt)
      → token_by_hash v.state (TokenSecret.hash π.sha256 presented) ≡ some t
      → token v.state t.id ≡ some t
      → revoke_token π caller t.id v ≡ (ok tt, w)
      → Commits π w tries u
      → authenticate π presented at u ≡ none
  unfolding authenticate is_usable
  revoke_token-authenticate caller presented at t v w u tries by_hash by_id revoked later =
      let presented_hash : Bytes = TokenSecret.hash π.sha256 presented in
      let same : t.token_hash ≡ presented_hash = (bytes_eq_iff t.token_hash presented_hash).0 (
        find-holds (λ x. bytes_eq x.token_hash presented_hash) v.state.tokens t
          (unfold token_by_hash in by_hash)) in
      let (moment, left) = revoke_token-state caller t.id v w revoked in
      let (t', found, dead) =
        revoke_for_good v.state t moment at (made_of tries)
          (ap (λ hash. token_by_hash v.state hash) same ∙ by_hash) by_id in
      let there : token_by_hash u.state (TokenSecret.hash π.sha256 presented) ≡ some t' =
        ap₂ (λ s hash. token_by_hash s hash)
          (Commits-state π later ∙ ap (λ s. apply_all s (made_of tries)) left) (sym same)
        ∙ found in
      ground (arith, there, dead)
