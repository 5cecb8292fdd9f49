-- ===== src/Storage/Internal/Read.antt =====
-- Reading the log: `read`, `read_decided_suffix` and `get_entry_type` of
-- crates/custom-paxos/omnipaxos/src/storage/internal_storage.rs.
use omnipaxos_kv_project.Prelude.{
  ℕ, ◌+◌, Option, none, some, List, [], ◌∷◌, ◌++◌, ltb, ◌==◌, if◌then◌else◌,
}
use omnipaxos_kv_project.Prelude.Words.{add64, sub64}
use omnipaxos_kv_project.Storage.{
  StorageResult, ok, panic, LogEntry, decided, undecided, IndexEntry, entry, compacted, StopSign,
}
use omnipaxos_kv_project.Storage.Memory
use omnipaxos_kv_project.Storage.Cache
use omnipaxos_kv_project.Storage.Internal.{InternalStorage}

-- `Bound<usize>`
pub data Bound : Type 0 where
  included excluded : ℕ → Bound
  unbounded : Bound

entry_or_stop_sign : Option StopSign → IndexEntry
entry_or_stop_sign none = entry
entry_or_stop_sign (some ss) = IndexEntry.stop_sign ss

-- The closure of the `map`, over the entries from the index `log_idx` on
unfoldable pub label {ℓ} : {T : Type ℓ} → ℕ → ℕ → List T → List (LogEntry T)
label decided_idx log_idx [] = []
label decided_idx log_idx (e ∷ es) =
    let rest = label decided_idx (log_idx + 1) es in
    (if ltb log_idx decided_idx then decided e else undecided e) ∷ rest

unfoldable pub start_idx : Bound → ℕ
start_idx (included i) = i
start_idx (excluded e) = add64 e 1
start_idx unbounded = 0

module _ {ℓ} {T S : Type ℓ} where
  unfoldable pub get_entry_type : InternalStorage T S → ℕ → ℕ → ℕ → Option IndexEntry
  unfolding entry_or_stop_sign
  get_entry_type s idx compacted_idx accepted_idx =
      if ltb idx compacted_idx
      then some compacted
      else if ltb (add64 idx 1) accepted_idx
      then some entry
      else if add64 idx 1 == accepted_idx
      then some (entry_or_stop_sign s.state_cache.stopsign)
      else none

  unfoldable pub create_read_log_entries : InternalStorage T S → ℕ → ℕ → List (LogEntry T)
  unfolding label
  create_read_log_entries s from to =
      label s.state_cache.decided_idx from (Memory.get_entries s.storage from to)

  -- The last `match` of `read`; the combinations that are left panic.
  read_between :
      InternalStorage T S
      → ℕ
      → ℕ
      → IndexEntry
      → IndexEntry
      → StorageResult (Option (List (LogEntry T)))
  read_between s from to entry entry = ok (some (create_read_log_entries s from to))
  read_between s from to entry (IndexEntry.stop_sign ss) = ok (
      some (
        create_read_log_entries s from (sub64 to 1)
        ++ LogEntry.stop_sign ss (Cache.stopsign_is_decided s.state_cache) ∷ []))
  read_between s from to (IndexEntry.stop_sign ss) (IndexEntry.stop_sign ss') =
      ok (some (LogEntry.stop_sign ss (Cache.stopsign_is_decided s.state_cache) ∷ []))
  read_between s from to _ _ = panic

  read_types :
      InternalStorage T S
      → ℕ
      → ℕ
      → Option IndexEntry
      → Option IndexEntry
      → StorageResult (Option (List (LogEntry T)))
  unfolding read_between
  read_types s from to (some from_type) (some to_type) = read_between s from to from_type to_type
  read_types s from to _ _ = ok none

  unfoldable pub end_idx : InternalStorage T S → Bound → ℕ
  end_idx s (included i) = add64 i 1
  end_idx s (excluded e) = e
  end_idx s unbounded = s.state_cache.accepted_idx

  unfoldable pub read :
      InternalStorage T S → Bound → Bound → StorageResult (Option (List (LogEntry T)))
  unfolding read_types get_entry_type create_read_log_entries start_idx end_idx
  read s start end =
      let from_idx = start_idx start in
      let to_idx = end_idx s end in
      let compacted_idx = s.state_cache.compacted_idx in
      let accepted_idx = s.state_cache.accepted_idx in
      if to_idx == 0
      then ok none
      else read_types s from_idx to_idx (get_entry_type s from_idx compacted_idx accepted_idx)
          (get_entry_type s (sub64 to_idx 1) compacted_idx accepted_idx)

  unfoldable pub read_decided_suffix :
      InternalStorage T S → ℕ → StorageResult (Option (List (LogEntry T)))
  read_decided_suffix s from_idx =
      if ltb from_idx s.state_cache.decided_idx
      then read s (included from_idx) (excluded s.state_cache.decided_idx)
      else ok none
