-- ===== src/Storage/Persistent/Reopening.antt =====
-- What `open` recovers of a persistent storage from its database.
use Prim.Native.Nat.{◌^◌}
use omnipaxos_kv_project.Prelude.{
  ℕ, ◌+◌, ◌-◌, ◌≤◌, ◌<◌, ◌≡◌, refl, sym, ap, ◌∙◌, subst, ◌⊎◌, inl, inr, Option, none, some,
  some-ne-none, List, [], true, arith, length, get_elem?-beyond,
}
use omnipaxos_kv_project.Prelude.Words.{add64}
use omnipaxos_kv_project.Storage.{StorageOp}
use omnipaxos_kv_project.Storage.Memory
use omnipaxos_kv_project.Storage.Memory.{MemoryStorage}
use omnipaxos_kv_project.Storage.Persistent.{
  Bytes, MetaKey, RocksDb, Codecs, PersistentStorage, write_atomically,
}
use omnipaxos_kv_project.Storage.Persistent.Direct.{opened, next_key, read_number}
use omnipaxos_kv_project.Storage.Persistent.Contents.{after_all, IsRocksDb, IsFaithful}
use omnipaxos_kv_project.Storage.Persistent.Held.{HoldsLog, HoldsMeta, end_of}
use omnipaxos_kv_project.Storage.Persistent.Batches.{IsHeld}
use omnipaxos_kv_project.Storage.Persistent.Transactions.{AllFit, write_atomically-IsHeld}

module _ (R : RocksDb) (L : IsRocksDb R) where
  -- The last key that an iterator finds is the greatest one of the log.
  pub record FindsLast (d : R.Db) : Type 0 where
    pub held :
        (k : ℕ)
        → R.key (R.seek_to_last d) ≡ some k
        → (bytes : Bytes) × ((L.contents d).log k ≡ some bytes)
    pub above : (k j : ℕ) → R.key (R.seek_to_last d) ≡ some k → k < j → (L.contents d).log j ≡ none
    pub empty : (j : ℕ) → R.key (R.seek_to_last d) ≡ none → (L.contents d).log j ≡ none

module _ {T S : Type 0} (R : RocksDb) (L : IsRocksDb R) (c : Codecs T S) (d : R.Db)
    (last : FindsLast R L d) (next : ℕ) (m : MemoryStorage T S)
    (h : HoldsLog c (L.contents d).log next next m) (fits : next < 2 ^ 64) where
  within :
      (k : ℕ) (bytes : Bytes) → (L.contents d).log k ≡ some bytes → (m.trimmed_idx ≤ k) × (k < next)
  within k bytes there =
      ground (arith, there, h.key, h.entries k, get_elem?-beyond m.log (k - m.trimmed_idx))

  -- Where an entry is left, so is the last one.
  present_last :
      m.trimmed_idx < next → (bytes : Bytes) × ((L.contents d).log (next - 1) ≡ some bytes)
  present_last l = h.present (next - 1) (omega arith) (omega arith)

  recovered :
      (o : Option ℕ)
      → R.key (R.seek_to_last d) ≡ o
      → (0 < length m.log) ⊎ (read_number c ((L.contents d).meta MetaKey.trim) ≡ some next)
      → next_key R c d o ≡ some next
  unfolding add64
  recovered (some k) found some_left =
      let (bytes, there) = last.held k found in
      let (over, below) = within k bytes there in
      let (final, at_end) = present_last (omega arith) in
      let greatest : k + 1 ≡ next = ground (arith, last.above k (next - 1) found, at_end) in
      ap some (omega (arith, greatest))
  recovered none found (inl some_left) =
      let (final, at_end) = present_last (omega (arith, h.key)) in
      absurd (some-ne-none (sym at_end ∙ last.empty (next - 1) found))
  recovered none found (inr trimmed) = rw (L.get_lem d MetaKey.trim) trimmed

module _ {T S : Type 0} (R : RocksDb) (L : IsRocksDb R) (c : Codecs T S) (f : IsFaithful c) where
  open_held :
      (p : PersistentStorage R) (m : MemoryStorage T S)
      → IsHeld R L c p m
      → p.write_batch ≡ []
      → FindsLast R L p.db
      → (0 < length m.log) ⊎ (m.compacted_idx ≡ end_of m)
      → end_of m < 2 ^ 64
      → opened R c (some p.db) ≡ some p
  unfolding opened after_all
  open_held p m h clean last left w =
      let log =
        subst (λ b. HoldsLog c (after_all (L.contents p.db) b).log p.next_log_key p.next_log_key m)
          clean h.log in
      let meta = subst (λ b. HoldsMeta c (after_all (L.contents p.db) b).meta m) clean h.meta in
      let trimmed : m.compacted_idx ≡ end_of m
          → read_number c ((L.contents p.db).meta MetaKey.trim) ≡ some p.next_log_key =
        λ same. meta.3 ∙ ap some (same ∙ sym log.key) in
      let key =
        recovered R L c p.db last p.next_log_key m log (omega (arith, log.key))
          (R.key (R.seek_to_last p.db)) refl
          (elim left [ inl some_left ↦ inl some_left | inr same ↦ inr (trimmed same) ]) in
      rw key (ap (λ b. some (record p { write_batch = b })) (sym clean))

  -- Over a RocksDB and serializations as before, whose iterator finds the greatest key of the log:
  -- after a transaction that succeeds on a persistent storage that held what a memory storage has,
  -- each operation of which stayed within the log and within `usize`, opening the database again
  -- gives the same storage back, its next log key included, provided that the log is not empty or
  -- that the compacted index is where it ends.
  pub opened-write_atomically :
      (p : PersistentStorage R) (m : MemoryStorage T S) (ops : List (StorageOp T S))
      → IsHeld R L c p m
      → AllFit m ops
      → (write_atomically R c p ops).1 ≡ true
      → FindsLast R L (write_atomically R c p ops).0.db
      → (0 < length (Memory.write_atomically m ops).log)
        ⊎ ((Memory.write_atomically m ops).compacted_idx ≡ end_of (Memory.write_atomically m ops))
      → end_of (Memory.write_atomically m ops) < 2 ^ 64
      → opened R c (some (write_atomically R c p ops).0.db) ≡ some (write_atomically R c p ops).0
  opened-write_atomically p m ops h fit done last left w =
      let (held, clean) = write_atomically-IsHeld R L c f p m ops h fit done in
      open_held (write_atomically R c p ops).0 (Memory.write_atomically m ops) held clean last left
        w
