-- ===== src/Storage/Persistent/Reading.antt =====
-- What a persistent storage reads back, against the memory storage.
use Prim.Native.Nat.{◌^◌}
use omnipaxos_kv_project.Prelude.{
  ℕ, zero, suc, ◌+◌, ◌-◌, ◌≤◌, ◌<◌, ◌≡◌, refl, sym, ap, subst, Option, none, some, List, [], ◌∷◌,
  ◌%◌, ℕ_discrete, true, Bool-cases, inl, inr, ◌||◌, ltb, leb, arith, length, get_elem?, take, drop,
}
use omnipaxos_kv_project.Prelude.Words.{sub64, sub64_exact}
use omnipaxos_kv_project.Storage.{StorageOp}
use omnipaxos_kv_project.Storage.Memory
use omnipaxos_kv_project.Storage.Memory.{MemoryStorage, slice, or_empty}
use omnipaxos_kv_project.Storage.Persistent.{
  Bytes, MetaKey, nprom, acc, decide, RocksDb, Codecs, PersistentStorage, write_atomically,
}
use omnipaxos_kv_project.Storage.Persistent.Direct.{
  get_entries, read_entries, get_promise, get_accepted_round, get_decided_idx, get_compacted_idx,
  get_stopsign, get_snapshot, get_log_len,
}
use omnipaxos_kv_project.Storage.Persistent.Contents.{after_all, IsRocksDb, IsFaithful}
use omnipaxos_kv_project.Storage.Persistent.Held.{HoldsLog, HoldsMeta, end_of, bytes_of}
use omnipaxos_kv_project.Storage.Persistent.Batches.{IsHeld}
use omnipaxos_kv_project.Storage.Persistent.Transactions.{AllFit, write_atomically-IsHeld}

take-suc :
    {A : Type 0} (xs : List A) (i n : ℕ) (a : A)
    → get_elem? xs i ≡ some a
    → take (suc n) (drop i xs) ≡ a ∷ take n (drop (suc i) xs)
take-suc [] i n a found = cc
take-suc (x ∷ xs) zero n a found = cc
take-suc (x ∷ xs) (suc i) n a found = take-suc xs i n a found

-- What `slice` gives where the storage returns early
no_slice :
    {A : Type 0} (l : List A) (t from to : ℕ)
    → t ≤ from
    → t + length l < 2 ^ 64
    → from < 2 ^ 64
    → to < 2 ^ 64
    → (ltb (t + length l) to || leb to from) ≡ true
    → or_empty (slice l (sub64 from t) (sub64 to t)) ≡ []
unfolding sub64
no_slice l t from to h w v u early = elim (ℕ_discrete to from) [
  | yes same ↦
      let nothing : (from + 2 ^ 64 - t) % 2 ^ 64 - (from + 2 ^ 64 - t) % 2 ^ 64 ≡ 0 = omega arith in
      rw (same, nothing) (ground arith)
  | no differ ↦ ground arith
]

module _ {T S : Type 0} (R : RocksDb) (L : IsRocksDb R) (c : Codecs T S) (f : IsFaithful c)
    (d : R.Db) (next : ℕ) (m : MemoryStorage T S)
    (h : HoldsLog c (L.contents d).log next next m) where
  element_or :
      (o : Option T) (bytes : Bytes)
      → bytes_of c o ≡ some bytes
      → (e : T) × (o ≡ some e) × (c.entry.deserialize bytes ≡ some e)
  element_or none bytes there = cc
  element_or (some e) bytes there = (e, refl, f.entry e bytes there)

  -- The entry of the memory storage at a key is what the database has there.
  element :
      (k : ℕ)
      → m.trimmed_idx ≤ k
      → k < next
      → (e : T) × (get_elem? m.log (k - m.trimmed_idx) ≡ some e)
        × (bytes : Bytes) × ((L.contents d).log k ≡ some bytes)
        × (c.entry.deserialize bytes ≡ some e)
  element k l u =
      let (bytes, there) = h.present k l u in
      let same : bytes_of c (get_elem? m.log (k - m.trimmed_idx)) ≡ some bytes =
        ground (arith, h.entries k, there) in
      let (e, elem, code) = element_or (get_elem? m.log (k - m.trimmed_idx)) bytes same in
      (e, elem, bytes, there, code)

  read_entries-window :
      (n k : ℕ)
      → m.trimmed_idx ≤ k
      → k + n ≤ next
      → read_entries R c (R.seek d k) n ≡ some (take n (drop (k - m.trimmed_idx) m.log))
  unfolding read_entries
  read_entries-window zero k l u = refl
  read_entries-window (suc zero) k l u =
      let (e, elem, bytes, there, code) = element k l (omega arith) in
      rw (L.value-seek d k bytes there, code, take-suc m.log (k - m.trimmed_idx) 0 e elem)
  read_entries-window (suc (suc n)) k l u =
      let (e, elem, bytes, there, code) = element k l (omega arith) in
      let (e', _, bytes', there', _) = element (k + 1) (omega arith) (omega arith) in
      let width : k + 1 - m.trimmed_idx ≡ suc (k - m.trimmed_idx) = omega arith in
      let later = read_entries-window (suc n) (k + 1) (omega arith) (omega arith) in
      rw (
        L.value-seek d k bytes there,
        code,
        L.next-seek d k bytes bytes' there there',
        later,
        take-suc m.log (k - m.trimmed_idx) (suc n) e elem,
        width,
      )

  -- The two answers of `get_entries`
  pub read-slice :
      (from to : ℕ)
      → m.trimmed_idx ≤ from
      → from < to
      → to ≤ next
      → next < 2 ^ 64
      → read_entries R c (R.seek d from) (to - from) ≡ some (Memory.get_entries m from to)
  unfolding Memory.get_entries
  read-slice from to l b u w =
      let first = sub64_exact from m.trimmed_idx l (omega arith) in
      let last = sub64_exact to m.trimmed_idx (omega arith) (omega arith) in
      let width : to - m.trimmed_idx - (from - m.trimmed_idx) ≡ to - from = omega arith in
      rw (first, last)
        (ground (arith, h.key, read_entries-window (to - from) from l (omega arith), width))

module _ {T S : Type 0} (R : RocksDb) (L : IsRocksDb R) (c : Codecs T S) (f : IsFaithful c) where
  -- Every read of the persistent storage gives what the memory storage has, but the length of its
  -- log, which is counted from the compacted index.
  abbrev pub ReadsAs : PersistentStorage R → MemoryStorage T S → ℕ → ℕ → Type 0
  ReadsAs p m from to =
      (get_entries R c p from to ≡ some (Memory.get_entries m from to))
      × (get_promise R c p ≡ some m.n_prom)
      × (get_accepted_round R c p ≡ some m.acc_round)
      × (get_decided_idx R c p ≡ some m.ld)
      × (get_compacted_idx R c p ≡ some m.compacted_idx)
      × (get_stopsign R c p ≡ some m.stopsign)
      × (get_snapshot R c p ≡ some m.snapshot)
      × (get_log_len R c p ≡ some (sub64 (end_of m) m.compacted_idx))

  get_entries-slice :
      (d : R.Db) (next : ℕ) (m : MemoryStorage T S) (from to : ℕ)
      → HoldsLog c (L.contents d).log next next m
      → m.trimmed_idx ≤ from
      → next < 2 ^ 64
      → from < 2 ^ 64
      → to < 2 ^ 64
      → get_entries R c (record { db = d; write_batch = []; next_log_key = next }) from to
        ≡ some (Memory.get_entries m from to)
  unfolding get_entries Memory.get_entries
  get_entries-slice d next m from to h l w v u = elim (Bool-cases (ltb next to || leb to from)) [
    | inl early ↦ rw early (
        ap some (
          sym (
            no_slice m.log m.trimmed_idx from to l (omega (arith, h.key)) v u
              (rw (← h.key) early))))
    | inr late ↦ rw late (read-slice R L c f d next m h from to l (ground arith) (ground arith) w)
  ]

  reads :
      (p : PersistentStorage R) (m : MemoryStorage T S) (from to : ℕ)
      → IsHeld R L c p m
      → p.write_batch ≡ []
      → m.trimmed_idx ≤ from
      → end_of m < 2 ^ 64
      → from < 2 ^ 64
      → to < 2 ^ 64
      → ReadsAs p m from to
  unfolding after_all get_promise get_accepted_round get_decided_idx get_compacted_idx get_stopsign
      get_snapshot get_entries get_log_len
  reads p m from to h clean l w v u =
      let log =
        subst (λ b. HoldsLog c (after_all (L.contents p.db) b).log p.next_log_key p.next_log_key m)
          clean h.log in
      let (promise, accepted, ld, compacted, ss, state) =
        subst (λ b. HoldsMeta c (after_all (L.contents p.db) b).meta m) clean h.meta in
      (
        get_entries-slice p.db p.next_log_key m from to log l (omega (arith, log.key)) v u,
        rw (L.get_lem p.db nprom) promise,
        rw (L.get_lem p.db acc) accepted,
        rw (L.get_lem p.db decide) ld,
        rw (L.get_lem p.db MetaKey.trim) compacted,
        rw (L.get_lem p.db MetaKey.stopsign) ss,
        rw (L.get_lem p.db MetaKey.snapshot) state,
        rw (L.get_lem p.db MetaKey.trim, compacted, log.key) refl,
      )

  -- Over a RocksDB that writes a batch whole and in its order and reads back what it holds, and
  -- serializations that are read back as they were written: where a persistent storage holds what
  -- a memory storage has, and a transaction of any operations succeeds on it, each of which stays
  -- within the log of the memory storage at that point and within `usize`, these reads afterwards
  -- give the same as those of the memory storage after the same transaction: the promise, the
  -- accepted round, the decided and the compacted index, the stop-sign, the snapshot, and the
  -- entries between any two indices of which the first is not trimmed. The length of its log is
  -- counted from the compacted index to the end of the memory storage's log.
  pub write_atomically-ReadsAs :
      (p : PersistentStorage R) (m : MemoryStorage T S) (ops : List (StorageOp T S)) (from to : ℕ)
      → IsHeld R L c p m
      → AllFit m ops
      → (write_atomically R c p ops).1 ≡ true
      → (Memory.write_atomically m ops).trimmed_idx ≤ from
      → end_of (Memory.write_atomically m ops) < 2 ^ 64
      → from < 2 ^ 64
      → to < 2 ^ 64
      → ReadsAs (write_atomically R c p ops).0 (Memory.write_atomically m ops) from to
  write_atomically-ReadsAs p m ops from to h fit done l w v u =
      let (held, clean) = write_atomically-IsHeld R L c f p m ops h fit done in
      reads (write_atomically R c p ops).0 (Memory.write_atomically m ops) from to held clean l w v
        u
