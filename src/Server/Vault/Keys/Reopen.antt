-- ===== src/Server/Vault/Keys/Reopen.antt =====
-- Sealing a vault of crates/ls-server/src/vault.rs and opening it with shares.
use localsecrets.Common.{
  ◌+◌, ◌≡◌, refl, sym, ap, subst, ◌∙◌, some, List, [], ◌∷◌, ◌++◌, Bytes, length, arith, false,
}
use localsecrets.Common.Results.{ok, err}
use localsecrets.Core.Shamir.{Share}
use localsecrets.Store.State.{State, empty}
use localsecrets.Server.Errors.{sealed}
use localsecrets.Server.Setting.{Setting}
use localsecrets.Server.Vault.{Barrier, Vault, Caller, is_sealed, require_unsealed}
use localsecrets.Server.Vault.Durable.{InSync, replay-read}
use localsecrets.Server.Vault.Keys.{
  contains_share, recovered_key, replay, unsealed, unseal_with, unseal_from, try_unseal, attempted,
  seal, seal_as,
}
use localsecrets.Server.Vault.Keys.Offers.{
  AllNew, counted, opened, offer_all, submit_share-sealed, add_share-last, offer_all-counted,
  offer_all-append, AllNew-split,
}

module _ (π : Setting) where
  try_unseal-runs :
      (key : Bytes) (w : Vault) (barrier : Barrier) (st : State)
      → w.barrier ≡ some barrier
      → recovered_key π barrier w.pending_shares ≡ some key
      → replay π key w.log ≡ ok st
      → try_unseal π w ≡ (ok tt, record w { root_key = some key; state = st; pending_shares = [] })
  unfolding unseal_from unseal_with
  try_unseal-runs key w barrier st there recovers replays =
      ap (λ b. unseal_from π b w) there
      ∙ ap (λ k. unseal_with π k w) recovers
      ∙ ap (λ r. unsealed π key w r) replays

  seal_as-seal : (caller : Caller) (v w : Vault) → seal_as caller v ≡ (ok tt, w) → seal v ≡ w
  unfolding seal_as
  seal_as-seal caller v w h = ground arith

  -- A sealed vault in step with its log, with shares that recover its root key, opens as it was.
  try_unseal-seal :
      (key : Bytes) (v : Vault) (barrier : Barrier) (shares : List Share)
      → InSync π key v
      → v.barrier ≡ some barrier
      → recovered_key π barrier shares ≡ some key
      → try_unseal π (record (seal v) { pending_shares = shares })
        ≡ (ok tt, record v { pending_shares = [] })
  unfolding seal
  try_unseal-seal key v barrier shares s there recovers =
      try_unseal-runs key (record (seal v) { pending_shares = shares }) barrier v.state there
        recovers (replay-read π key v.log s.records s.read ∙ s.replayed)
      ∙ ap (λ k. (ok tt, record v { root_key = k; pending_shares = [] })) (sym s.unlocked)

  offer_all-opens :
      (key : Bytes) (v : Vault) (barrier : Barrier) (shares : List Share) (last : Share)
      → InSync π key v
      → v.barrier ≡ some barrier
      → contains_share last shares ≡ false
      → length shares + 1 ≡ barrier.threshold
      → recovered_key π barrier (shares ++ last ∷ []) ≡ some key
      → offer_all π (last ∷ []) (record (seal v) { pending_shares = shares })
        ≡ (opened barrier.threshold ∷ [], record v { pending_shares = [] })
  unfolding offer_all seal
  offer_all-opens key v barrier shares last s there fresh all recovers =
      let w : Vault = record (seal v) { pending_shares = shares } in
      ap (λ r. (r.0 ∷ [], r.1))
        (submit_share-sealed π barrier last w there refl
          ∙ add_share-last π barrier.threshold last w fresh all
          ∙ ap (attempted π barrier.threshold)
              (try_unseal-seal key v barrier (shares ++ last ∷ []) s there recovers))

  seal-offer_all :
      (key : Bytes) (v : Vault) (barrier : Barrier) (shares : List Share) (last : Share)
      → InSync π key v
      → v.barrier ≡ some barrier
      → AllNew [] (shares ++ last ∷ [])
      → length shares + 1 ≡ barrier.threshold
      → recovered_key π barrier (shares ++ last ∷ []) ≡ some key
      → (require_unsealed (seal v) ≡ err sealed)
        × ((seal v).state ≡ empty)
        × (offer_all π (shares ++ last ∷ []) (seal v) ≡ (
          counted barrier.threshold 0 (length shares) ++ opened barrier.threshold ∷ [],
          record v { pending_shares = [] },
        ))
  unfolding seal require_unsealed is_sealed
  seal-offer_all key v barrier shares last s there fresh all recovers =
      let parts = AllNew-split π [] shares last fresh in
      let first = offer_all-counted π barrier (seal v) [] shares there refl parts.0 (omega arith) in
      let second = offer_all-opens key v barrier shares last s there parts.1 all recovers in
      (
        refl,
        refl,
        offer_all-append π shares (last ∷ []) (seal v)
            ∙ ap (λ r. (r.0 ++ (offer_all π (last ∷ []) r.1).0, (offer_all π (last ∷ []) r.1).1))
                first
            ∙ ap (λ r. (counted barrier.threshold 0 (length shares) ++ r.0, r.1)) second,
      )

  -- A vault in step with its log, sealed by someone who may do so, refuses what it is asked and has
  -- forgotten its state. Offered as many different shares as it needs, which together recover its
  -- root key, it counts each but the last and stays sealed, opens with the last, and is then the
  -- vault that it was, with no shares pending.
  pub seal_as-offer_all :
      (key : Bytes) (caller : Caller) (v w : Vault) (barrier : Barrier) (shares : List Share)
      (last : Share)
      → InSync π key v
      → v.barrier ≡ some barrier
      → seal_as caller v ≡ (ok tt, w)
      → AllNew [] (shares ++ last ∷ [])
      → length shares + 1 ≡ barrier.threshold
      → recovered_key π barrier (shares ++ last ∷ []) ≡ some key
      → (require_unsealed w ≡ err sealed)
        × (w.state ≡ empty)
        × (offer_all π (shares ++ last ∷ []) w ≡ (
          counted barrier.threshold 0 (length shares) ++ opened barrier.threshold ∷ [],
          record v { pending_shares = [] },
        ))
  seal_as-offer_all key caller v w barrier shares last s there sealing fresh all recovers =
      subst
        (λ u.
          (require_unsealed u ≡ err sealed)
          × (u.state ≡ empty)
          × (offer_all π (shares ++ last ∷ []) u ≡ (
            counted barrier.threshold 0 (length shares) ++ opened barrier.threshold ∷ [],
            record v { pending_shares = [] },
          )))
        (seal_as-seal caller v w sealing)
        (seal-offer_all key v barrier shares last s there fresh all recovers)
