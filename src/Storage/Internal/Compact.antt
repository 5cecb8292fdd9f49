-- ===== src/Storage/Internal/Compact.antt =====
-- Snapshots, trimming and log synchronisation of
-- crates/custom-paxos/omnipaxos/src/storage/internal_storage.rs.
use omnipaxos_kv_project.Prelude.{
  ℕ, Option, none, some, List, [], ◌∷◌, ◌++◌, ltb, leb, ◌==◌, length, if◌then◌else◌,
}
use omnipaxos_kv_project.Prelude.Words.{add64}
use omnipaxos_kv_project.Ballot.{Ballot}
use omnipaxos_kv_project.Storage.{
  StorageResult, ok, err, ◌>>=◌, undecided_index, trimmed_index, Snapshot, SnapshotType, complete,
  delta, StorageOp, LogSync, StopSign,
}
use omnipaxos_kv_project.Storage.Memory
use omnipaxos_kv_project.Storage.Memory.{write_atomically}
use omnipaxos_kv_project.Storage.Cache.{is_some}
use omnipaxos_kv_project.Storage.Internal.{InternalStorage, get_decided_idx_without_stopsign}

module _ {ℓ} {T S : Type ℓ} where
  -- The `match` on `idx.cmp(&decided_idx)` that `try_trim` and `try_snapshot` share
  unfoldable pub new_compacted_idx : InternalStorage T S → ℕ → StorageResult ℕ
  new_compacted_idx s idx =
      let decided_idx = s.state_cache.decided_idx in
      if ltb idx decided_idx
      then ok idx
      else if idx == decided_idx
      then ok (get_decided_idx_without_stopsign s)
      else err (undecided_index decided_idx)

  abbrev pub compact : InternalStorage T S → ℕ → List (StorageOp T S) → InternalStorage T S
  compact s idx ops = record s {
    storage =
        write_atomically s.storage (StorageOp.trim idx ∷ StorageOp.set_compacted_idx idx ∷ ops);
    state_cache = record (s.state_cache) { compacted_idx = idx };
  }

  unfoldable pub try_trim : InternalStorage T S → ℕ → StorageResult (InternalStorage T S)
  unfolding new_compacted_idx write_atomically
  try_trim s idx = do
    new_idx ← new_compacted_idx s idx
    if ltb s.state_cache.compacted_idx new_idx then ok (compact s new_idx []) else ok s

  unfoldable pub snapshot_idx_or_decided : InternalStorage T S → Option ℕ → StorageResult ℕ
  snapshot_idx_or_decided s none = ok (get_decided_idx_without_stopsign s)
  snapshot_idx_or_decided s (some idx) = new_compacted_idx s idx

  abbrev compacted_to : InternalStorage T S → ℕ → InternalStorage T S
  compacted_to s idx = record s { state_cache = record (s.state_cache) { compacted_idx = idx } }

  -- The stop-sign of a `sync_log`
  sync_stopsign : InternalStorage T S → Option StopSign → InternalStorage T S × List (StorageOp T S)
  sync_stopsign s (some ss) = (
    record s {
      state_cache = record (s.state_cache) {
        stopsign = some ss;
        accepted_idx = add64 s.state_cache.accepted_idx 1;
      };
    },
    StorageOp.set_stopsign (some ss) ∷ [],
  )
  sync_stopsign s none =
      if is_some s.state_cache.stopsign
      then (
        record s { state_cache = record (s.state_cache) { stopsign = none } },
        StorageOp.set_stopsign none ∷ [],
      )
      else (s, [])

module _ {ℓ} {T S : Type ℓ} (snap : Snapshot T S) where
  merge_onto : Option S → S → S
  merge_onto none d = d
  merge_onto (some s) d = snap.merge s d

  unfoldable pub create_snapshot : InternalStorage T S → ℕ → StorageResult S
  unfolding merge_onto
  create_snapshot s compact_idx =
      let current = s.state_cache.compacted_idx in
      if ltb compact_idx current
      then err (trimmed_index current)
      else ok (
          merge_onto s.storage.snapshot
            (snap.create (Memory.get_entries s.storage current compact_idx)))

  unfoldable pub create_decided_snapshot : InternalStorage T S → StorageResult S
  unfolding create_snapshot
  create_decided_snapshot s = create_snapshot s (get_decided_idx_without_stopsign s)

  as_complete : Option S → Option (SnapshotType S)
  as_complete none = none
  as_complete (some s) = some (complete s)

  unfoldable pub create_diff_snapshot :
      InternalStorage T S → ℕ → StorageResult (Option (SnapshotType S) × ℕ)
  unfolding create_snapshot as_complete
  create_diff_snapshot s from_idx =
      let log_decided_idx = get_decided_idx_without_stopsign s in
      let compacted_idx = s.state_cache.compacted_idx in
      if leb from_idx compacted_idx
      then (if ltb compacted_idx log_decided_idx
          then (do c ← create_snapshot s log_decided_idx; ok (some (complete c), log_decided_idx))
          else ok (as_complete s.storage.snapshot, log_decided_idx))
      else ok (
        some (delta (snap.create (Memory.get_entries s.storage from_idx log_decided_idx))),
        log_decided_idx,
      )

  unfoldable pub try_snapshot : InternalStorage T S → Option ℕ → StorageResult (InternalStorage T S)
  unfolding snapshot_idx_or_decided new_compacted_idx create_snapshot write_atomically
  try_snapshot s snapshot_idx = do
    new_idx ← snapshot_idx_or_decided s snapshot_idx
    if ltb s.state_cache.compacted_idx new_idx
        then (do
          snapshot ← create_snapshot s new_idx
          ok (compact s new_idx (StorageOp.set_snapshot (some snapshot) ∷ [])))
        else ok s

  -- The operations of `sync_log`, in the order of the source: first the snapshot, then the log
  sync_snapshot :
      InternalStorage T S → LogSync T S → StorageResult (InternalStorage T S × List (StorageOp T S))
  unfolding create_decided_snapshot
  sync_snapshot s sync = elim sync.decided_snapshot [
    | none ↦ ok (s, [])
    | some t ↦ elim t [
      | complete c ↦ ok (
        compacted_to s sync.sync_idx,
        StorageOp.trim sync.sync_idx
            ∷ StorageOp.set_compacted_idx sync.sync_idx
            ∷ StorageOp.set_snapshot (some c)
            ∷ [],
      )
      | delta d ↦ (do
        snapshot ← create_decided_snapshot s
        ok (
          compacted_to s sync.sync_idx,
          StorageOp.trim sync.sync_idx
              ∷ StorageOp.set_compacted_idx sync.sync_idx
              ∷ StorageOp.set_snapshot (some (snap.merge snapshot d))
              ∷ [],
        ))
    ]
  ]

  sync_entries :
      InternalStorage T S
      → Option (LogSync T S)
      → StorageResult (InternalStorage T S × List (StorageOp T S))
  unfolding sync_snapshot sync_stopsign
  sync_entries s none = ok (s, [])
  sync_entries s (some sync) = do
    (s', ops) ← sync_snapshot s sync
    let s'' = record s' {
      state_cache = record (s'.state_cache) {
        accepted_idx = add64 sync.sync_idx (length sync.suffix);
      };
    }
    let (t, stop_ops) = sync_stopsign s'' sync.stopsign
    ok (t, ops ++ (StorageOp.append_on_prefix sync.sync_idx sync.suffix ∷ stop_ops))

  unfoldable pub sync_log :
      InternalStorage T S
      → Ballot
      → ℕ
      → Option (LogSync T S)
      → StorageResult (InternalStorage T S × ℕ)
  unfolding sync_entries write_atomically
  sync_log s accepted_round decided_idx log_sync = do
    let s' = record s {
      state_cache = record (s.state_cache) {
        accepted_round = accepted_round;
        decided_idx = decided_idx;
      };
    }
    (t, ops) ← sync_entries s' log_sync
    ok (
      record t {
        storage = write_atomically t.storage (
            StorageOp.set_accepted_round accepted_round
            ∷ StorageOp.set_decided_index decided_idx
            ∷ ops);
      },
      t.state_cache.accepted_idx,
    )
