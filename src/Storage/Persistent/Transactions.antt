-- ===== src/Storage/Persistent/Transactions.antt =====
-- A transaction of a persistent storage against the same transaction of a memory storage.
use Prim.Native.Nat.{◌^◌}
use omnipaxos_kv_project.Prelude.{
  ◌+◌, ◌≤◌, ◌<◌, ◌≡◌, refl, Option, none, some, some-injective, List, [], ◌∷◌, true, arith, length,
  length-append,
}
use omnipaxos_kv_project.Storage.{StorageOp}
use omnipaxos_kv_project.Storage.Memory
use omnipaxos_kv_project.Storage.Memory.{MemoryStorage}
use omnipaxos_kv_project.Storage.Persistent.{
  Bytes, MetaKey, nprom, acc, decide, BatchOp, RocksDb, Codecs, PersistentStorage, batch_put,
  batch_op, batch_ops, written, write_atomically, batch_append_entry, batch_append_entries,
}
use omnipaxos_kv_project.Storage.Persistent.Contents.{
  after, after_all, after_all-snoc, IsRocksDb, IsFaithful,
}
use omnipaxos_kv_project.Storage.Persistent.Held.{HoldsMeta, end_of, trim-HoldsLog, same-HoldsLog}
use omnipaxos_kv_project.Storage.Persistent.Batches.{
  view, IsHeld, fresh-IsHeld, and_then-both, append_entry-IsStored, append_entries-IsStored,
  append_on_prefix-IsHeld,
}

module _ {T S : Type 0} where
  -- An operation stays within the log of the storage and within `usize`.
  abbrev pub Fits : MemoryStorage T S → StorageOp T S → Type 0
  Fits m (StorageOp.append_entry e) = end_of m + 1 < 2 ^ 64
  Fits m (StorageOp.append_entries es) = end_of m + length es < 2 ^ 64
  Fits m (StorageOp.append_on_prefix from es) =
      (m.trimmed_idx ≤ from) × (from ≤ end_of m) × (from + length es < 2 ^ 64)
  Fits m (StorageOp.set_decided_index idx) = idx < 2 ^ 64
  Fits m (StorageOp.set_compacted_idx idx) = idx < 2 ^ 64
  Fits m (StorageOp.trim idx) = (m.trimmed_idx ≤ idx) × (idx ≤ end_of m) × (idx < 2 ^ 64)
  Fits m (StorageOp.set_promise b) = Unit
  Fits m (StorageOp.set_accepted_round b) = Unit
  Fits m (StorageOp.set_stopsign ss) = Unit
  Fits m (StorageOp.set_snapshot snap) = Unit

  abbrev pub AllFit : MemoryStorage T S → List (StorageOp T S) → Type 0
  AllFit m [] = Unit
  AllFit m (op ∷ ops) = Fits m op × AllFit (Memory.write m op) ops

module _ {T S : Type 0} (R : RocksDb) (L : IsRocksDb R) (c : Codecs T S) (f : IsFaithful c) where
  -- A value is put, and the log is as it was.
  put-IsHeld :
      (p : PersistentStorage R) (m m' : MemoryStorage T S) (k : MetaKey) (o : Option Bytes)
      → IsHeld R L c p m
      → m'.log ≡ m.log
      → m'.trimmed_idx ≡ m.trimmed_idx
      → ((bytes : Bytes)
          → o ≡ some bytes
          → HoldsMeta c (after (view R L c p) (BatchOp.put k bytes)).meta m')
      → (batch_put R c p k o).1 ≡ true
      → IsHeld R L c (batch_put R c p k o).0 m'
  put-IsHeld p m m' k none h log trimmed meta done = cc
  put-IsHeld p m m' k (some bytes) h log trimmed meta done =
      let seen = after_all-snoc (L.contents p.db) p.write_batch (BatchOp.put k bytes) in
      record {
        log = rw seen (same-HoldsLog c (view R L c p).log p.next_log_key m m' log trimmed h.log);
        meta = rw seen (meta bytes refl);
      }

  batch_op-IsHeld :
      (p : PersistentStorage R) (m : MemoryStorage T S) (op : StorageOp T S)
      → IsHeld R L c p m
      → Fits m op
      → (batch_op R c p op).1 ≡ true
      → IsHeld R L c (batch_op R c p op).0 (Memory.write m op)
  unfolding batch_op Memory.write Memory.append_entry Memory.append_entries
  batch_op-IsHeld p m (StorageOp.append_entry e) h fits done =
      fresh-IsHeld R L c p.next_log_key (batch_append_entry R c p e).0 (Memory.append_entry m e)
        (append_entry-IsStored R L c p.next_log_key p m e h fits done)
        (omega (arith, h.log.key, length-append m.log (e ∷ [])))
  batch_op-IsHeld p m (StorageOp.append_entries es) h fits done =
      fresh-IsHeld R L c p.next_log_key (batch_append_entries R c p es).0
        (Memory.append_entries m es)
        (append_entries-IsStored R L c p.next_log_key p m es h fits done)
        (omega (arith, h.log.key, length-append m.log es))
  batch_op-IsHeld p m (StorageOp.append_on_prefix from es) h (l, u, w) done =
      append_on_prefix-IsHeld R L c p m from es h l u w done
  batch_op-IsHeld p m (StorageOp.trim idx) h (l, u, w) done =
      let seen = after_all-snoc (L.contents p.db) p.write_batch (BatchOp.delete_range_cf 0 idx) in
      record {
        log = rw seen (trim-HoldsLog c (view R L c p).log p.next_log_key m idx h.log l u w);
        meta = rw seen h.meta;
      }
  batch_op-IsHeld p m (StorageOp.set_promise b) h fits done =
      let (_, accepted, ld, compacted, ss, state) = h.meta in
      put-IsHeld p m (record m { n_prom = some b }) nprom (c.ballot.serialize b) h refl refl
        (λ bytes e. rw (f.ballot b bytes e) (refl, accepted, ld, compacted, ss, state)) done
  batch_op-IsHeld p m (StorageOp.set_accepted_round b) h fits done =
      let (promise, _, ld, compacted, ss, state) = h.meta in
      put-IsHeld p m (record m { acc_round = some b }) acc (c.ballot.serialize b) h refl refl
        (λ bytes e. rw (f.ballot b bytes e) (promise, refl, ld, compacted, ss, state)) done
  batch_op-IsHeld p m (StorageOp.set_decided_index idx) h fits done =
      let (promise, accepted, _, compacted, ss, state) = h.meta in
      put-IsHeld p m (record m { ld = idx }) decide (some (c.as_bytes idx)) h refl refl
        (λ bytes e.
          rw (← some-injective e, f.number idx fits)
            (promise, accepted, refl, compacted, ss, state))
        done
  batch_op-IsHeld p m (StorageOp.set_compacted_idx idx) h fits done =
      let (promise, accepted, ld, _, ss, state) = h.meta in
      put-IsHeld p m (record m { compacted_idx = idx }) MetaKey.trim (some (c.as_bytes idx)) h refl
        refl
        (λ bytes e.
          rw (← some-injective e, f.number idx fits) (promise, accepted, ld, refl, ss, state))
        done
  batch_op-IsHeld p m (StorageOp.set_stopsign ss) h fits done =
      let (promise, accepted, ld, compacted, _, state) = h.meta in
      put-IsHeld p m (record m { stopsign = ss }) MetaKey.stopsign (c.stop_sign.serialize ss) h refl
        refl
        (λ bytes e. rw (f.stop_sign ss bytes e) (promise, accepted, ld, compacted, refl, state))
        done
  batch_op-IsHeld p m (StorageOp.set_snapshot snap) h fits done =
      let (promise, accepted, ld, compacted, ss, _) = h.meta in
      put-IsHeld p m (record m { snapshot = snap }) MetaKey.snapshot (c.state.serialize snap) h refl
        refl (λ bytes e. rw (f.state snap bytes e) (promise, accepted, ld, compacted, ss, refl))
        done

  batch_ops-IsHeld :
      (p : PersistentStorage R) (m : MemoryStorage T S) (ops : List (StorageOp T S))
      → IsHeld R L c p m
      → AllFit m ops
      → (batch_ops R c p ops).1 ≡ true
      → IsHeld R L c (batch_ops R c p ops).0 (Memory.write_atomically m ops)
  unfolding batch_ops Memory.write_atomically
  batch_ops-IsHeld p m [] h fit done = h
  batch_ops-IsHeld p m (op ∷ ops) h (fits, fit) done =
      let (reached, rest) =
        and_then-both R L c (batch_op R c p op) (λ p'. batch_ops R c p' ops) done in
      rw rest (
        batch_ops-IsHeld (batch_op R c p op).0 (Memory.write m op) ops
          (batch_op-IsHeld p m op h fits reached) fit (rw (← rest) done))

  written-IsHeld :
      (p : PersistentStorage R) (m : MemoryStorage T S) (o : Option R.Db)
      → R.write p.db p.write_batch ≡ o
      → IsHeld R L c p m
      → (written R c p o).1 ≡ true
      → IsHeld R L c (written R c p o).0 m × ((written R c p o).0.write_batch ≡ [])
  unfolding after_all
  written-IsHeld p m none wrote h done = cc
  written-IsHeld p m (some db') wrote h done =
      let held = L.write_lem p.db p.write_batch db' wrote in
      (record { log = rw held h.log; meta = rw held h.meta }, refl)

  pub write_atomically-IsHeld :
      (p : PersistentStorage R) (m : MemoryStorage T S) (ops : List (StorageOp T S))
      → IsHeld R L c p m
      → AllFit m ops
      → (write_atomically R c p ops).1 ≡ true
      → IsHeld R L c (write_atomically R c p ops).0 (Memory.write_atomically m ops)
        × ((write_atomically R c p ops).0.write_batch ≡ [])
  unfolding write_atomically
  write_atomically-IsHeld p m ops h fit done =
      let last = λ (q : PersistentStorage R). written R c q (R.write q.db q.write_batch) in
      let (reached, rest) = and_then-both R L c (batch_ops R c p ops) last done in
      let q = (batch_ops R c p ops).0 in
      rw rest (
        written-IsHeld q (Memory.write_atomically m ops) (R.write q.db q.write_batch) refl
          (batch_ops-IsHeld p m ops h fit reached) (rw (← rest) done))
