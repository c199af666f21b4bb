-- ===== src/Server/Vault/Durable.antt =====
-- What a restart finds, of crates/ls-server/src/vault.rs: the state in memory, and no less.
use localsecrets.Common.{
  ℕ, ◌+◌, ◌≤◌, ◌<◌, ◌≡◌, refl, sym, ap, ap₂, ◌∙◌, ◌⊎◌, inl, inr, true, false, some, List, [], ◌∷◌,
  ◌++◌, arith, Bytes, length, ltb, Bool-cases, Option-cases,
}
use localsecrets.Common.Results.{ok, err}
use localsecrets.Core.Aead.{nonce_len}
use localsecrets.Store.Event.{Event}
use localsecrets.Store.State.{State, empty, apply, apply_all}
use localsecrets.Store.Log.{Log, written, failed, write_record, max_record_len, kind_sealed, framed}
use localsecrets.Store.Log.Frames.{Stored}
use localsecrets.Store.Log.Recovery.{Holds, write-Holds, write-failed}
use localsecrets.Store.Log.Sealed.{Record, append, read_records}
use localsecrets.Store.Log.Sealed.ReadBack.{append-ok, read_records-append}
use localsecrets.Store.Log.Sealed.Outcomes.{
  append-broken, append-made, append-lost, seal-random, read_records-torn, read_records-whole,
}
use localsecrets.Server.Errors.{VaultError}
use localsecrets.Server.Setting.{Setting}
use localsecrets.Server.Vault.{Vault, commit}
use localsecrets.Server.Vault.Commit.{appended, commit-made_under, commit-lost_under}
use localsecrets.Server.Vault.Keys.{replay_records, replay}
use localsecrets.Server.Vault.Steps.{Attempt, event_of, Commits, done, asked, failed_one, made_one}

module _ (π : Setting) where
  replay_records-append :
      (s t : State) (out : List Record) (payload : Bytes) (e : Event)
      → replay_records π s out ≡ ok t
      → π.codec.from_bytes payload ≡ some e
      → replay_records π s (out ++ record { sealed = true; payload = payload } ∷ [])
        ≡ ok (apply t e)
  unfolding replay_records
  replay_records-append s t [] payload e h reads = rw reads (ground arith)
  replay_records-append s t (r ∷ out) payload e h reads = elim (Bool-cases r.sealed) [
    | inl seen ↦ elim (Option-cases (π.codec.from_bytes r.payload)) [
      | inl bad ↦ ground arith
      | inr (e', good) ↦
          rw (seen, good) (replay_records-append (apply s e') t out payload e (ground arith) reads)
    ]
    | inr plain ↦ rw plain (replay_records-append s t out payload e (ground arith) reads)
  ]

  -- In memory is what the log replays to.
  pub record InSync (key : Bytes) (v : Vault) : Type 0 where
    pub unlocked : v.root_key ≡ some key
    pub stored : List Stored
    pub holds : Holds v.log stored
    pub records : List Record
    pub read : read_records π.cipher key v.log ≡ ok records
    pub replayed : replay_records π empty records ≡ ok v.state

  -- After a write that failed: the log may hold one event more.
  pub record Stuck (key : Bytes) (v : Vault) : Type 0 where
    pub unlocked : v.root_key ≡ some key
    pub broken : v.log.broken ≡ true
    pub extra : List Event
    pub at_most_one : length extra ≤ 1
    pub replayed : replay π key v.log ≡ ok (apply_all v.state extra)

  pub replay-read :
      (key : Bytes) (log : Log) (records : List Record)
      → read_records π.cipher key log ≡ ok records
      → replay π key log ≡ replay_records π empty records
  unfolding replay replay_records
  replay-read key log records h = rw (h, replay) refl

  InSync-made :
      {key : Bytes} {v w : Vault} (e : Event)
      → InSync key v
      → π.codec.IsWritable e
      → commit π e v ≡ (ok tt, w)
      → InSync key w
  InSync-made {key = key} {v = v} {w = w} e s writable h =
      let payload : Bytes = π.codec.to_bytes e in
      let L : Log = (appended π e v key).1 in
      let (right, left) = commit-made_under π e v key w s.unlocked h in
      let (nonce, drawn, wrote) =
        append-made π.cipher key (π.random v.turn 12) (π.disk v.turn) payload v.log L right in
      let right' : append π.cipher key (some nonce) written payload v.log ≡ (ok tt, L) =
        ap₂ (λ r d. append π.cipher key r d payload v.log) (sym drawn) (sym wrote) ∙ right in
      let sized : length nonce ≡ nonce_len = π.random_length v.turn 12 nonce drawn in
      let (sealed, made_it, fits, same) =
        append-ok π.cipher key nonce sized payload v.log L s.holds.unbroken right' in
      rw left (record {
        unlocked = s.unlocked;
        stored = s.stored ++ record { kind = kind_sealed; payload = sealed } ∷ [];
        holds = rw same (write-Holds kind_sealed sealed s.holds fits);
        records = s.records ++ record { sealed = true; payload = payload } ∷ [];
        read =
            read_records-append π.cipher key nonce sized payload v.log L s.stored s.records s.holds
              s.read right';
        replayed =
            replay_records-append empty v.state s.records payload e s.replayed
              (π.codec.from_bytes-to_bytes e writable);
      })

  Stuck-lost :
      {key : Bytes} {v w : Vault} {x : VaultError} (e : Event)
      → Stuck key v
      → commit π e v ≡ (err x, w)
      → Stuck key w
  Stuck-lost {key = key} {v = v} {w = w} {x = x} e s h =
      let (refused, left) = commit-lost_under π e v key w x s.unlocked h in
      let (y, same) =
        append-broken π.cipher key (π.random v.turn 12) (π.disk v.turn) (π.codec.to_bytes e) v.log
          s.broken in
      rw left (
        rw same (record {
          unlocked = s.unlocked;
          broken = s.broken;
          extra = s.extra;
          at_most_one = s.at_most_one;
          replayed = s.replayed;
        }))

  Stuck-made :
      {key : Bytes} {v w : Vault} {P : Type 0} (e : Event)
      → Stuck key v
      → commit π e v ≡ (ok tt, w)
      → P
  Stuck-made {key = key} {v = v} {w = w} e s h =
      let (right, left) = commit-made_under π e v key w s.unlocked h in
      let (y, same) =
        append-broken π.cipher key (π.random v.turn 12) (π.disk v.turn) (π.codec.to_bytes e) v.log
          s.broken in
      cc

  -- The write stopped short: nothing more is read.
  torn_write-Stuck :
      {key : Bytes} {v : Vault} (sealed : Bytes) {n turn : ℕ}
      → InSync key v
      → length sealed + 1 ≤ max_record_len
      → n < length (framed kind_sealed sealed)
      → Stuck key
          (record v { log = (write_record (failed n) kind_sealed sealed v.log).1; turn = turn })
  torn_write-Stuck {key = key} {v = v} sealed {n = n} s fits short = record {
    unlocked = s.unlocked;
    broken = rw (write-failed v.log kind_sealed sealed s.holds.unbroken fits n) refl;
    extra = [];
    at_most_one = omega arith;
    replayed =
        replay-read key (write_record (failed n) kind_sealed sealed v.log).1 s.records
          (read_records-torn π.cipher key s.holds sealed fits n short ∙ s.read)
        ∙ s.replayed
        ∙ unfold apply_all in refl;
  }

  -- All of it was written: the event is read, though its commit failed.
  whole_write-Stuck :
      {key : Bytes} {v : Vault} (sealed nonce : Bytes) {n turn : ℕ} (e : Event)
      → InSync key v
      → π.codec.IsWritable e
      → length nonce ≡ nonce_len
      → append π.cipher key (some nonce) written (π.codec.to_bytes e) v.log
        ≡ (ok tt, (write_record written kind_sealed sealed v.log).1)
      → length sealed + 1 ≤ max_record_len
      → length (framed kind_sealed sealed) ≤ n
      → Stuck key
          (record v { log = (write_record (failed n) kind_sealed sealed v.log).1; turn = turn })
  whole_write-Stuck {key = key} {v = v} sealed nonce {n = n} e s writable sized right fits whole =
      record {
        unlocked = s.unlocked;
        broken = rw (write-failed v.log kind_sealed sealed s.holds.unbroken fits n) refl;
        extra = e ∷ [];
        at_most_one = omega arith;
        replayed =
            replay-read key (write_record (failed n) kind_sealed sealed v.log).1
              (s.records ++ record { sealed = true; payload = π.codec.to_bytes e } ∷ [])
              (read_records-whole π.cipher key s.holds sealed fits n whole
                ∙ read_records-append π.cipher key nonce sized (π.codec.to_bytes e) v.log
                    (write_record written kind_sealed sealed v.log).1 s.stored s.records s.holds
                    s.read right)
            ∙ replay_records-append empty v.state s.records (π.codec.to_bytes e) e s.replayed
                (π.codec.from_bytes-to_bytes e writable)
            ∙ unfold apply_all in refl;
      }

  InSync-lost :
      {key : Bytes} {v w : Vault} {x : VaultError} (e : Event)
      → InSync key v
      → π.codec.IsWritable e
      → commit π e v ≡ (err x, w)
      → InSync key w ⊎ Stuck key w
  InSync-lost {key = key} {v = v} {w = w} {x = x} e s writable h =
      let payload : Bytes = π.codec.to_bytes e in
      let L : Log = (appended π e v key).1 in
      let ((y, refused), left) = commit-lost_under π e v key w x s.unlocked h in
      elim (append-lost π.cipher key (π.random v.turn 12) (π.disk v.turn) payload v.log L y
        s.holds.unbroken refused) [
          | inl same ↦ inl (
              rw left (
                rw same (record {
                  unlocked = s.unlocked;
                  stored = s.stored;
                  holds = s.holds;
                  records = s.records;
                  read = s.read;
                  replayed = s.replayed;
                })))
          | inr (n, sealed, gave_up, made_it, fits, torn_log, right) ↦
              let (nonce, drawn) =
                seal-random π.cipher key (π.random v.turn 12) v.log.count payload sealed made_it in
              elim (Bool-cases (ltb n (length (framed kind_sealed sealed)))) [
                | inl short ↦
                    inr (rw left (rw torn_log (torn_write-Stuck sealed s fits (ground arith))))
                | inr whole ↦ inr (
                    rw left (
                      rw torn_log (
                        whole_write-Stuck sealed nonce e s writable
                          (π.random_length v.turn 12 nonce drawn)
                          (ap (λ r. append π.cipher key r written payload v.log) (sym drawn)
                            ∙ right)
                          fits (ground arith))))
              ]
        ]

  -- All that was to be committed has a rendering.
  abbrev pub AllWritable : List Attempt → Type 0
  AllWritable [] = Unit
  AllWritable (a ∷ tries) = π.codec.IsWritable (event_of a) × AllWritable tries

  Commits-Stuck :
      {key : Bytes} {v w : Vault} {tries : List Attempt}
      → Commits π v tries w
      → Stuck key v
      → Stuck key w
  Commits-Stuck done s = s
  Commits-Stuck (asked h) s = Commits-Stuck h (record {
    unlocked = s.unlocked;
    broken = s.broken;
    extra = s.extra;
    at_most_one = s.at_most_one;
    replayed = s.replayed;
  })
  Commits-Stuck (failed_one e eq h) s = Commits-Stuck h (Stuck-lost e s eq)
  Commits-Stuck (made_one e eq h) s = Stuck-made e s eq

  pub Commits-InSync :
      {key : Bytes} {v w : Vault} {tries : List Attempt}
      → Commits π v tries w
      → InSync key v
      → AllWritable tries
      → InSync key w ⊎ Stuck key w
  Commits-InSync done s writable = inl s
  Commits-InSync (asked h) s writable =
      Commits-InSync h
        (record {
          unlocked = s.unlocked;
          stored = s.stored;
          holds = s.holds;
          records = s.records;
          read = s.read;
          replayed = s.replayed;
        })
        writable
  Commits-InSync (failed_one e eq h) s writable = elim (InSync-lost e s writable.0 eq) [
    | inl next ↦ Commits-InSync h next writable.1
    | inr next ↦ inr (Commits-Stuck h next)
  ]
  Commits-InSync (made_one e eq h) s writable =
      Commits-InSync h (InSync-made e s writable.0 eq) writable.1

  -- A vault in step with its log, after any commits of events that can be written, some of which
  -- may have failed: its log replays to the state in memory, with one event more at most, and with
  -- none unless a write of the log has failed.
  pub Commits_durable :
      (key : Bytes) (v w : Vault) (tries : List Attempt)
      → Commits π v tries w
      → InSync key v
      → AllWritable tries
      → (extra : List Event) × (length extra ≤ 1)
        × (w.log.broken ≡ false → extra ≡ [])
        × (replay π key w.log ≡ ok (apply_all w.state extra))
  Commits_durable key v w tries steps s writable = elim (Commits-InSync steps s writable) [
    | inl next ↦ (
      [],
      omega arith,
      λ unbroken. refl,
      replay-read key w.log next.records next.read ∙ next.replayed ∙ unfold apply_all in refl,
    )
    | inr next ↦
        (next.extra, next.at_most_one, λ unbroken. let broken = next.broken in cc, next.replayed)
  ]
