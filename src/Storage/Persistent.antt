-- ===== src/Storage/Persistent.antt =====
-- crates/custom-paxos/omnipaxos_storage/src/persistent_storage.rs: the storage on a RocksDB. The
-- database and the serialization are third-party crates, and so are parameters. A key of the log
-- is the number whose eight big-endian bytes it is, since RocksDB orders keys by their bytes, and
-- that is the order of the numbers. An operation returns the storage with whether it succeeded,
-- since an error may leave the storage changed.
pub mod Direct
pub mod Contents
pub mod Held
pub mod Batches
pub mod Transactions
pub mod Reading
pub mod Reopening
use omnipaxos_kv_project.Prelude.{
  ℕ, Option, none, some, List, [], ◌∷◌, ◌++◌, Bool, true, false, ltb, length, if◌then◌else◌,
}
use omnipaxos_kv_project.Prelude.Words.{add64}
use omnipaxos_kv_project.Ballot.{Ballot}
use omnipaxos_kv_project.Storage.{StopSign, StorageOp}

abbrev pub Bytes : Type 0
Bytes = List ℕ

-- The constants for the keys outside of the log
pub data MetaKey : Type 0 where
  nprom acc decide trim stopsign snapshot : MetaKey

-- `WriteBatchWithTransaction`: the operations of a batch; those with `cf` are on the log.
pub data BatchOp : Type 0 where
  put_cf : ℕ → Bytes → BatchOp
  delete_range_cf : ℕ → ℕ → BatchOp
  put : MetaKey → Bytes → BatchOp

-- What the storage uses of RocksDB; none is an error, and inside a `get` a missing key.
pub record RocksDb : Type 1 where
  pub Db : Type 0
  pub write : Db → List BatchOp → Option Db
  pub put_cf : Db → ℕ → Bytes → Option Db
  pub delete_range_cf : Db → ℕ → ℕ → Option Db
  pub put : Db → MetaKey → Bytes → Option Db
  pub get : Db → MetaKey → Option (Option Bytes)
  pub Iter : Type 0
  pub seek : Db → ℕ → Iter
  pub seek_to_last : Db → Iter
  pub key : Iter → Option ℕ
  pub value : Iter → Option Bytes
  pub next : Iter → Iter

-- `bincode`, for one type
pub record Bincode (A : Type 0) : Type 0 where
  pub serialize : A → Option Bytes
  pub deserialize : Bytes → Option A

-- The serializations that the storage uses; `as_bytes` and `read_from` are those of zerocopy.
pub record Codecs (T S : Type 0) : Type 0 where
  pub entry : Bincode T
  pub ballot : Bincode Ballot
  pub stop_sign : Bincode (Option StopSign)
  pub state : Bincode (Option S)
  pub as_bytes : ℕ → Bytes
  pub read_from : Bytes → Option ℕ

pub record PersistentStorage (R : RocksDb) : Type 0 where
  pub db : R.Db
  pub write_batch : List BatchOp
  pub next_log_key : ℕ

module _ {T S : Type 0} (R : RocksDb) (c : Codecs T S) where
  -- The operator `?`
  abbrev pub and_then :
      PersistentStorage R × Bool
      → (PersistentStorage R → PersistentStorage R × Bool)
      → PersistentStorage R × Bool
  and_then (p, true) rest = rest p
  and_then (p, false) rest = (p, false)

  abbrev pub batched : PersistentStorage R → BatchOp → PersistentStorage R
  batched p op = record p { write_batch = p.write_batch ++ op ∷ [] }

  abbrev pub batch_serialized : PersistentStorage R → Option Bytes → PersistentStorage R × Bool
  batch_serialized p none = (p, false)
  batch_serialized p (some bytes) = (
    record (batched p (BatchOp.put_cf p.next_log_key bytes)) {
      next_log_key = add64 p.next_log_key 1;
    },
    true,
  )

  unfoldable pub batch_append_entry : PersistentStorage R → T → PersistentStorage R × Bool
  batch_append_entry p e = batch_serialized p (c.entry.serialize e)

  unfoldable pub batch_append_entries : PersistentStorage R → List T → PersistentStorage R × Bool
  unfolding batch_append_entry
  batch_append_entries p [] = (p, true)
  batch_append_entries p (e ∷ es) =
      and_then (batch_append_entry p e) (λ p'. batch_append_entries p' es)

  unfoldable pub batch_append_on_prefix :
      PersistentStorage R → ℕ → List T → PersistentStorage R × Bool
  unfolding batch_append_entries
  batch_append_on_prefix p from_idx es =
      let delete_idx = add64 from_idx (length es) in
      let deleted =
        if ltb delete_idx p.next_log_key
        then batched p (BatchOp.delete_range_cf delete_idx p.next_log_key)
        else p in
      batch_append_entries (record deleted { next_log_key = from_idx }) es

  abbrev pub batch_put : PersistentStorage R → MetaKey → Option Bytes → PersistentStorage R × Bool
  batch_put p k none = (p, false)
  batch_put p k (some bytes) = (batched p (BatchOp.put k bytes), true)

  abbrev pub batch_set_promise : PersistentStorage R → Ballot → PersistentStorage R × Bool
  batch_set_promise p n_prom = batch_put p nprom (c.ballot.serialize n_prom)

  abbrev pub batch_set_decided_idx : PersistentStorage R → ℕ → PersistentStorage R × Bool
  batch_set_decided_idx p ld = batch_put p decide (some (c.as_bytes ld))

  abbrev pub batch_set_accepted_round : PersistentStorage R → Ballot → PersistentStorage R × Bool
  batch_set_accepted_round p na = batch_put p acc (c.ballot.serialize na)

  abbrev pub batch_set_compacted_idx : PersistentStorage R → ℕ → PersistentStorage R × Bool
  batch_set_compacted_idx p trimmed_idx = batch_put p MetaKey.trim (some (c.as_bytes trimmed_idx))

  abbrev pub batch_trim : PersistentStorage R → ℕ → PersistentStorage R × Bool
  batch_trim p trimmed_idx = (batched p (BatchOp.delete_range_cf 0 trimmed_idx), true)

  abbrev pub batch_set_stopsign : PersistentStorage R → Option StopSign → PersistentStorage R × Bool
  batch_set_stopsign p ss = batch_put p MetaKey.stopsign (c.stop_sign.serialize ss)

  abbrev pub batch_set_snapshot : PersistentStorage R → Option S → PersistentStorage R × Bool
  batch_set_snapshot p snap = batch_put p MetaKey.snapshot (c.state.serialize snap)

  -- One operation of `write_atomically`
  unfoldable pub batch_op : PersistentStorage R → StorageOp T S → PersistentStorage R × Bool
  unfolding batch_append_entry batch_append_entries batch_append_on_prefix
  batch_op p (StorageOp.append_entry e) = batch_append_entry p e
  batch_op p (StorageOp.append_entries es) = batch_append_entries p es
  batch_op p (StorageOp.append_on_prefix from_idx es) = batch_append_on_prefix p from_idx es
  batch_op p (StorageOp.set_promise bal) = batch_set_promise p bal
  batch_op p (StorageOp.set_decided_index idx) = batch_set_decided_idx p idx
  batch_op p (StorageOp.set_accepted_round bal) = batch_set_accepted_round p bal
  batch_op p (StorageOp.set_compacted_idx idx) = batch_set_compacted_idx p idx
  batch_op p (StorageOp.trim idx) = batch_trim p idx
  batch_op p (StorageOp.set_stopsign ss) = batch_set_stopsign p ss
  batch_op p (StorageOp.set_snapshot snap) = batch_set_snapshot p snap

  -- The loop of `write_atomically`
  unfoldable pub batch_ops : PersistentStorage R → List (StorageOp T S) → PersistentStorage R × Bool
  unfolding batch_op
  batch_ops p [] = (p, true)
  batch_ops p (op ∷ ops) = and_then (batch_op p op) (λ p'. batch_ops p' ops)

  -- `db.write(std::mem::take(..))` empties the batch also when it fails.
  abbrev pub written : PersistentStorage R → Option R.Db → PersistentStorage R × Bool
  written p none = (record p { write_batch = [] }, false)
  written p (some db') = (record p { db = db'; write_batch = [] }, true)

  unfoldable pub write_atomically :
      PersistentStorage R → List (StorageOp T S) → PersistentStorage R × Bool
  unfolding batch_ops
  write_atomically p ops =
      and_then (batch_ops p ops) (λ p'. written p' (R.write p'.db p'.write_batch))
