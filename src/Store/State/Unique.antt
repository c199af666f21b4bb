-- ===== src/Store/State/Unique.antt =====
-- `State::secrets` of crates/ls-store/src/state.rs has one entry per slot.
use localsecrets.Common.{
  ◌≡◌, refl, Bool, false, not, none, List, [], ◌∷◌, ◌++◌, arith, Text, bytes_eq_iff, find, keep,
  update_first, find-append_none, find-keep-none, find-update_none, Bool-cases, Option-cases, inl,
  inr,
}
use localsecrets.Core.Time.{Timestamp}
use localsecrets.Store.Event.{Sealed, Event, secret_set, secret_deleted}
use localsecrets.Store.State.{Secret, State, at_slot, set_secret, delete_secret, apply, apply_all}

-- No two entries share a slot.
abbrev pub IsUnique : List Secret → Type 0
IsUnique [] = Unit
IsUnique (x ∷ xs) = (find (at_slot x.project_id x.environment_id x.key) xs ≡ none) × IsUnique xs

update-IsUnique :
    (p : Secret → Bool) (v : Sealed) (at : Timestamp) (xs : List Secret)
    → IsUnique xs
    → IsUnique (update_first p (λ s. record s { value = v; updated_at = at }) xs)
unfolding update_first
update-IsUnique p v at [] u = tt
update-IsUnique p v at (x ∷ xs) u = elim (Bool-cases (p x)) [
  | inl hit ↦ rw hit u
  | inr miss ↦ rw miss (
    find-update_none p (at_slot x.project_id x.environment_id x.key)
        (λ s. record s { value = v; updated_at = at }) xs (λ s. unfold at_slot in refl) u.0,
    update-IsUnique p v at xs u.1,
  )
]

at_slot-swap :
    (x y : Secret)
    → at_slot x.project_id x.environment_id x.key y ≡ false
    → at_slot y.project_id y.environment_id y.key x ≡ false
unfolding at_slot
at_slot-swap x y h = ground (
  arith,
  bytes_eq_iff x.project_id y.project_id,
  bytes_eq_iff x.environment_id y.environment_id,
  bytes_eq_iff x.key y.key,
  bytes_eq_iff y.project_id x.project_id,
  bytes_eq_iff y.environment_id x.environment_id,
  bytes_eq_iff y.key x.key,
)

push-IsUnique :
    (x : Secret) (xs : List Secret)
    → IsUnique xs
    → find (at_slot x.project_id x.environment_id x.key) xs ≡ none
    → IsUnique (xs ++ x ∷ [])
unfolding find
push-IsUnique x [] u h = (refl, tt)
push-IsUnique x (y ∷ ys) u h = (
  ground (
    arith,
    at_slot-swap x y,
    find-append_none (at_slot y.project_id y.environment_id y.key) ys (x ∷ []) u.0,
  ),
  push-IsUnique x ys u.1 (ground arith),
)

delete-IsUnique : (p : Secret → Bool) (xs : List Secret) → IsUnique xs → IsUnique (keep p xs)
unfolding keep
delete-IsUnique p [] u = tt
delete-IsUnique p (x ∷ xs) u = elim (Bool-cases (p x)) [
  | inl hit ↦ rw hit (
    find-keep-none p (at_slot x.project_id x.environment_id x.key) xs u.0,
    delete-IsUnique p xs u.1,
  )
  | inr miss ↦ rw miss (delete-IsUnique p xs u.1)
]

set-IsUnique :
    (p e k : Text) (v : Sealed) (at : Timestamp) (xs : List Secret)
    → IsUnique xs
    → IsUnique (set_secret p e k v at xs)
unfolding set_secret
set-IsUnique p e k v at xs u = elim (Option-cases (find (at_slot p e k) xs)) [
  | inl absent ↦ rw (absent, set_secret) (push-IsUnique _ xs u absent)
  | inr (a, there) ↦ rw (there, set_secret) (update-IsUnique (at_slot p e k) v at xs u)
]

apply-IsUnique : (s : State) (event : Event) → IsUnique s.secrets → IsUnique (apply s event).secrets
unfolding apply delete_secret
apply-IsUnique s (secret_set p e k v at) u = set-IsUnique p e k v at s.secrets u
apply-IsUnique s (secret_deleted p e k at) u =
    delete-IsUnique (λ s. not (at_slot p e k s)) s.secrets u
apply-IsUnique s _ u = u

-- Whatever events are applied, a state with one entry per slot keeps one entry per slot.
pub apply_all-IsUnique :
    (s : State) (events : List Event) → IsUnique s.secrets → IsUnique (apply_all s events).secrets
unfolding apply_all
apply_all-IsUnique s [] u = u
apply_all-IsUnique s (event ∷ events) u =
    apply_all-IsUnique (apply s event) events (apply-IsUnique s event u)
