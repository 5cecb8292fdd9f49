-- ===== src/Storage/Internal.antt =====
-- crates/custom-paxos/omnipaxos/src/storage/internal_storage.rs over the memory storage: the
-- state, its loading, the appends and the single fields. Reading, compaction and log
-- synchronisation are in the children, and so are the proofs.
pub mod Read
pub mod Compact
pub mod Consistency
pub mod Upkeep
pub mod Batching
pub mod Reading
use omnipaxos_kv_project.Prelude.{ℕ, Option, none, some, List, ◌&&◌, not, length, if◌then◌else◌}
use omnipaxos_kv_project.Prelude.Words.{add64, sub64}
use omnipaxos_kv_project.Ballot.{Ballot}
use omnipaxos_kv_project.Ballot
use omnipaxos_kv_project.Storage.{StopSign}
use omnipaxos_kv_project.Storage.Memory
use omnipaxos_kv_project.Storage.Memory.{MemoryStorage}
use omnipaxos_kv_project.Storage.Cache
use omnipaxos_kv_project.Storage.Cache.{StateCache, is_some}

pub record InternalStorage {ℓ} (T S : Type ℓ) : Type ℓ where
  pub storage : MemoryStorage T S
  pub state_cache : StateCache T

abbrev pub or_default : Option Ballot → Ballot
or_default none = Ballot.default
or_default (some b) = b

module _ {ℓ} {T S : Type ℓ} where
  unfoldable pub load_cache : InternalStorage T S → InternalStorage T S
  load_cache s =
      let m = s.storage in
      let stored = add64 (length m.log) m.compacted_idx in
      record s {
        state_cache = record (s.state_cache) {
          promise = or_default m.n_prom;
          decided_idx = m.ld;
          accepted_round = or_default m.acc_round;
          compacted_idx = m.compacted_idx;
          stopsign = m.stopsign;
          accepted_idx = if is_some m.stopsign then add64 stored 1 else stored;
        };
      }

  -- `InternalStorage::with`
  unfoldable pub with : MemoryStorage T S → ℕ → InternalStorage T S
  unfolding load_cache
  with m batch_size = load_cache (record { storage = m; state_cache = Cache.empty batch_size })

  unfoldable pub append_entries_without_batching :
      InternalStorage T S → List T → InternalStorage T S × ℕ
  append_entries_without_batching s es =
      let accepted_idx = add64 s.state_cache.accepted_idx (length es) in
      (
        record s {
          storage = Memory.append_entries s.storage es;
          state_cache = record (s.state_cache) { accepted_idx = accepted_idx };
        },
        accepted_idx,
      )

  append_flushed : InternalStorage T S → Option (List T) → InternalStorage T S × Option ℕ
  unfolding append_entries_without_batching
  append_flushed s none = (s, none)
  append_flushed s (some es) =
      let (s', idx) = append_entries_without_batching s es in (s', some idx)

  unfoldable pub append_entries_and_get_accepted_idx :
      InternalStorage T S → List T → InternalStorage T S × Option ℕ
  unfolding append_flushed
  append_entries_and_get_accepted_idx s es =
      let (cache, flushed) = Cache.append_entries s.state_cache es in
      append_flushed (record s { state_cache = cache }) flushed

  unfoldable pub flush_batch : InternalStorage T S → InternalStorage T S × ℕ
  unfolding append_entries_without_batching
  flush_batch s =
      let (cache, es) = Cache.take_batched_entries s.state_cache in
      append_entries_without_batching (record s { state_cache = cache }) es

  unfoldable pub set_promise : InternalStorage T S → Ballot → InternalStorage T S
  set_promise s n = record s {
    storage = record (s.storage) { n_prom = some n };
    state_cache = record (s.state_cache) { promise = n };
  }

  unfoldable pub set_decided_idx : InternalStorage T S → ℕ → InternalStorage T S
  set_decided_idx s idx = record s {
    storage = record (s.storage) { ld = idx };
    state_cache = record (s.state_cache) { decided_idx = idx };
  }

  unfoldable pub set_stopsign : InternalStorage T S → Option StopSign → InternalStorage T S × ℕ
  set_stopsign s ss =
      let c = s.state_cache in
      let accepted_idx =
        if is_some ss && not (is_some c.stopsign)
        then add64 c.accepted_idx 1
        else if not (is_some ss) && is_some c.stopsign
        then sub64 c.accepted_idx 1
        else c.accepted_idx in
      (
        record s {
          storage = record (s.storage) { stopsign = ss };
          state_cache = record (s.state_cache) { accepted_idx = accepted_idx; stopsign = ss };
        },
        accepted_idx,
      )

  unfoldable pub get_decided_idx_without_stopsign : InternalStorage T S → ℕ
  get_decided_idx_without_stopsign s =
      if Cache.stopsign_is_decided s.state_cache
      then sub64 s.state_cache.decided_idx 1
      else s.state_cache.decided_idx
