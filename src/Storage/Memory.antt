-- ===== src/Storage/Memory.antt =====
-- crates/custom-paxos/omnipaxos_storage/src/memory_storage.rs: the storage that the servers use.
use Prim.Native.Nat.{min}
use omnipaxos_kv_project.Prelude.{
  ℕ, ◌-◌, Option, none, some, List, [], ◌∷◌, ◌++◌, ◌&&◌, leb, length, take, drop, if◌then◌else◌,
}
use omnipaxos_kv_project.Prelude.Words.{sub64}
use omnipaxos_kv_project.Ballot.{Ballot}
use omnipaxos_kv_project.Storage.{StopSign, StorageOp}

pub record MemoryStorage {ℓ} (T S : Type ℓ) : Type ℓ where
  pub log : List T
  pub n_prom : Option Ballot
  pub acc_round : Option Ballot
  pub ld : ℕ
  pub trimmed_idx : ℕ
  pub compacted_idx : ℕ
  pub snapshot : Option S
  pub stopsign : Option StopSign

-- `slice::get(from..to)`, none out of range
abbrev pub slice {ℓ} : {A : Type ℓ} → List A → ℕ → ℕ → Option (List A)
slice l from to =
    if leb from to && leb to (length l) then some (take (to - from) (drop from l)) else none

abbrev pub or_empty {ℓ} : {A : Type ℓ} → Option (List A) → List A
or_empty none = []
or_empty (some l) = l

-- The bound `T: Hash` with a `DefaultHasher` of the standard library, whose algorithm is not
-- specified: a fresh hasher, the hashing of an entry into it, and its result.
pub record Hashing (T : Type 0) : Type 1 where
  pub State : Type 0
  pub new : State
  pub hash : State → T → State
  pub finish : State → ℕ

-- The loop of `history_hash` over a log
unfoldable pub hash_all : {T : Type 0} (h : Hashing T) → h.State → List T → h.State
hash_all h state [] = state
hash_all h state (e ∷ es) = hash_all h (h.hash state e) es

unfoldable pub history_hash : {T S : Type 0} → Hashing T → MemoryStorage T S → ℕ
unfolding hash_all
history_hash h m = h.finish (hash_all h h.new m.log)

module _ {ℓ} {T S : Type ℓ} where
  -- `Default for MemoryStorage`
  abbrev pub empty : MemoryStorage T S
  empty = record {
    log = [];
    n_prom = none;
    acc_round = none;
    ld = 0;
    trimmed_idx = 0;
    compacted_idx = 0;
    snapshot = none;
    stopsign = none;
  }

  unfoldable pub append_entry : MemoryStorage T S → T → MemoryStorage T S
  append_entry m e = record m { log = m.log ++ e ∷ [] }

  unfoldable pub append_entries : MemoryStorage T S → List T → MemoryStorage T S
  append_entries m es = record m { log = m.log ++ es }

  -- `Vec::truncate` keeps a shorter vector as it is, and so does `take`.
  unfoldable pub append_on_prefix : MemoryStorage T S → ℕ → List T → MemoryStorage T S
  unfolding append_entries
  append_on_prefix m from_idx es =
      append_entries (record m { log = take (sub64 from_idx m.trimmed_idx) m.log }) es

  unfoldable pub get_entries : MemoryStorage T S → ℕ → ℕ → List T
  get_entries m from to = or_empty (slice m.log (sub64 from m.trimmed_idx) (sub64 to m.trimmed_idx))

  abbrev pub get_log_len : MemoryStorage T S → ℕ
  get_log_len m = length m.log

  unfoldable pub get_suffix : MemoryStorage T S → ℕ → List T
  get_suffix m from = or_empty (slice m.log (sub64 from m.trimmed_idx) (length m.log))

  unfoldable pub trim : MemoryStorage T S → ℕ → MemoryStorage T S
  trim m idx = record m {
    log = drop (min (sub64 idx m.trimmed_idx) (length m.log)) m.log;
    trimmed_idx = idx;
  }

  abbrev set_promise : MemoryStorage T S → Ballot → MemoryStorage T S
  set_promise m n_prom = record m { n_prom = some n_prom }

  abbrev set_decided_idx : MemoryStorage T S → ℕ → MemoryStorage T S
  set_decided_idx m ld = record m { ld = ld }

  abbrev set_accepted_round : MemoryStorage T S → Ballot → MemoryStorage T S
  set_accepted_round m na = record m { acc_round = some na }

  abbrev set_stopsign : MemoryStorage T S → Option StopSign → MemoryStorage T S
  set_stopsign m ss = record m { stopsign = ss }

  abbrev set_compacted_idx : MemoryStorage T S → ℕ → MemoryStorage T S
  set_compacted_idx m compact_idx = record m { compacted_idx = compact_idx }

  abbrev set_snapshot : MemoryStorage T S → Option S → MemoryStorage T S
  set_snapshot m snapshot = record m { snapshot = snapshot }

  -- One operation of a transaction
  unfoldable pub write : MemoryStorage T S → StorageOp T S → MemoryStorage T S
  unfolding append_entry append_entries append_on_prefix trim
  write m (StorageOp.append_entry e) = append_entry m e
  write m (StorageOp.append_entries es) = append_entries m es
  write m (StorageOp.append_on_prefix from_idx es) = append_on_prefix m from_idx es
  write m (StorageOp.set_promise b) = set_promise m b
  write m (StorageOp.set_decided_index idx) = set_decided_idx m idx
  write m (StorageOp.set_accepted_round b) = set_accepted_round m b
  write m (StorageOp.set_compacted_idx idx) = set_compacted_idx m idx
  write m (StorageOp.trim idx) = trim m idx
  write m (StorageOp.set_stopsign ss) = set_stopsign m ss
  write m (StorageOp.set_snapshot snap) = set_snapshot m snap

  -- No operation of this storage fails, so a transaction is done whole.
  unfoldable pub write_atomically : MemoryStorage T S → List (StorageOp T S) → MemoryStorage T S
  unfolding write
  write_atomically m [] = m
  write_atomically m (op ∷ ops) = write_atomically (write m op) ops
