-- ===== src/Store/State/Secrets.antt =====
-- The secrets of `State` (crates/ls-store/src/state.rs) as a map from slots.
use localsecrets.Common.{
  ◌≡◌, refl, Bool, true, false, ◌&&◌, Option, none, some, List, [], ◌∷◌, ◌++◌, arith, Text,
  bytes_eq, bytes_eq_refl, bytes_eq_iff, if◌then◌else◌, find, keep, update_first, Option-cases, inl,
  inr,
}
use localsecrets.Core.Time.{Timestamp}
use localsecrets.Store.Event.{Sealed, Event, secret_set, secret_deleted}
use localsecrets.Store.State.{
  Secret, State, at_slot, set_secret, delete_secret, apply, apply_all, secret,
}

-- Whether two slots are one.
unfoldable pub same_slot : Text → Text → Text → Text → Text → Text → Bool
same_slot p e k p' e' k' = bytes_eq p p' && bytes_eq e e' && bytes_eq k k'

module _ (p e k p' e' k' : Text) where
  at_slot-same :
      (s : Secret) → same_slot p e k p' e' k' ≡ true → at_slot p' e' k' s ≡ at_slot p e k s
  unfolding at_slot same_slot
  at_slot-same s h = ground (arith, bytes_eq_iff p p', bytes_eq_iff e e', bytes_eq_iff k k')

  at_slot-other :
      (s : Secret)
      → same_slot p e k p' e' k' ≡ false
      → at_slot p e k s ≡ true
      → at_slot p' e' k' s ≡ false
  unfolding at_slot same_slot
  at_slot-other s h at =
      ground
        (arith, bytes_eq_iff s.project_id p, bytes_eq_iff s.environment_id e, bytes_eq_iff s.key k)

abbrev pub stored : Text → Text → Text → Sealed → Timestamp → Secret
stored p e k v at = record {
  project_id = p;
  environment_id = e;
  key = k;
  value = v;
  updated_at = at;
}

at_slot-stored :
    (p e k p' e' k' : Text) (v : Sealed) (at : Timestamp)
    → at_slot p' e' k' (stored p e k v at) ≡ same_slot p e k p' e' k'
unfolding at_slot same_slot
at_slot-stored p e k p' e' k' v at = refl

module _ (p e k : Text) (v : Sealed) (at : Timestamp) where
  abbrev rewritten : Secret → Secret
  rewritten s = record s { value = v; updated_at = at }

  rewritten-eq : (s : Secret) → at_slot p e k s ≡ true → rewritten s ≡ stored p e k v at
  unfolding at_slot
  rewritten-eq s h =
      ground
        (arith, bytes_eq_iff s.project_id p, bytes_eq_iff s.environment_id e, bytes_eq_iff s.key k)

  at_slot-rewritten :
      (p' e' k' : Text) (s : Secret) → at_slot p' e' k' (rewritten s) ≡ at_slot p' e' k' s
  unfolding at_slot
  at_slot-rewritten p' e' k' s = refl

  find-update :
      (p' e' k' : Text) (xs : List Secret) (a : Secret)
      → find (at_slot p e k) xs ≡ some a
      → find (at_slot p' e' k') (update_first (at_slot p e k) rewritten xs) ≡ (
          if same_slot p e k p' e' k' then some (stored p e k v at) else find (at_slot p' e' k') xs)
  unfolding find update_first
  find-update p' e' k' [] a h = cc
  find-update p' e' k' (x ∷ xs) a h = ground (
    arith,
    find-update p' e' k' xs a,
    at_slot-same p e k p' e' k' x,
    at_slot-other p e k p' e' k' x,
    at_slot-rewritten p' e' k' x,
    rewritten-eq x,
  )

  find-push :
      (p' e' k' : Text) (xs : List Secret)
      → find (at_slot p e k) xs ≡ none
      → find (at_slot p' e' k') (xs ++ stored p e k v at ∷ []) ≡ (
          if same_slot p e k p' e' k' then some (stored p e k v at) else find (at_slot p' e' k') xs)
  unfolding find
  find-push p' e' k' [] h = ground (arith, at_slot-stored p e k p' e' k' v at)
  find-push p' e' k' (x ∷ xs) h =
      ground (arith, find-push p' e' k' xs, at_slot-same p e k p' e' k' x)

  find-set :
      (p' e' k' : Text) (xs : List Secret)
      → find (at_slot p' e' k') (set_secret p e k v at xs) ≡ (
          if same_slot p e k p' e' k' then some (stored p e k v at) else find (at_slot p' e' k') xs)
  unfolding set_secret
  find-set p' e' k' xs = elim (Option-cases (find (at_slot p e k) xs)) [
    | inl absent ↦ rw (absent, set_secret) (find-push p' e' k' xs absent)
    | inr (a, there) ↦ rw (there, set_secret) (find-update p' e' k' xs a there)
  ]

find-delete :
    (p e k p' e' k' : Text) (xs : List Secret)
    → find (at_slot p' e' k') (delete_secret p e k xs)
      ≡ (if same_slot p e k p' e' k' then none else find (at_slot p' e' k') xs)
unfolding delete_secret find keep
find-delete p e k p' e' k' [] = ground arith
find-delete p e k p' e' k' (x ∷ xs) = ground (
  arith,
  find-delete p e k p' e' k' xs,
  at_slot-same p e k p' e' k' x,
  at_slot-other p e k p' e' k' x,
)

-- What one event leaves in a slot that held `o`.
abbrev pub written : Text → Text → Text → Option Secret → Event → Option Secret
written p e k o (secret_set p' e' k' v at) =
    if same_slot p' e' k' p e k then some (stored p' e' k' v at) else o
written p e k o (secret_deleted p' e' k' at) = if same_slot p' e' k' p e k then none else o
written p e k o _ = o

-- The specification of a slot: what the last event on it left there.
unfoldable pub last_written : Text → Text → Text → Option Secret → List Event → Option Secret
last_written p e k o [] = o
last_written p e k o (event ∷ events) = last_written p e k (written p e k o event) events

secret-apply :
    (p e k : Text) (s : State) (event : Event)
    → secret (apply s event) p e k ≡ written p e k (secret s p e k) event
unfolding secret apply
secret-apply p e k s (secret_set p' e' k' v at) = find-set p' e' k' v at p e k s.secrets
secret-apply p e k s (secret_deleted p' e' k' at) = find-delete p' e' k' p e k s.secrets
secret-apply p e k s _ = refl

pub secret-apply_set :
    (p e k : Text) (v : Sealed) (at : Timestamp) (s : State)
    → secret (apply s (secret_set p e k v at)) p e k ≡ some (stored p e k v at)
secret-apply_set p e k v at s =
    rw (secret-apply p e k s (secret_set p e k v at))
      (unfold same_slot in ground (arith, bytes_eq_refl p, bytes_eq_refl e, bytes_eq_refl k))

-- After any events, a slot holds what the last event on it left there: the value that it set, or
-- nothing after a deletion; with no event on it, what it held before.
pub secret-apply_all :
    (p e k : Text) (s : State) (events : List Event)
    → secret (apply_all s events) p e k ≡ last_written p e k (secret s p e k) events
unfolding apply_all last_written
secret-apply_all p e k s [] = refl
secret-apply_all p e k s (event ∷ events) =
    rw (← secret-apply p e k s event) (secret-apply_all p e k (apply s event) events)
