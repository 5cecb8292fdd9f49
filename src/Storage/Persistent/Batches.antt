-- ===== src/Storage/Persistent/Batches.antt =====
-- What the batch of a persistent storage makes of its database, against a memory storage: the
-- appends of a transaction.
use Prim.Native.Nat.{◌^◌}
use omnipaxos_kv_project.Prelude.{
  ℕ, ◌+◌, ◌-◌, ◌≤◌, ◌<◌, ◌≡◌, refl, sym, ap, subst, Option, none, some, List, [], ◌∷◌, Bool, true,
  false, Bool-cases, inl, inr, arith, ltb, leb, ◌&&◌, length, length-append, length-take, take,
  append_assoc, append-nil, if◌then◌else◌,
}
use omnipaxos_kv_project.Prelude.Words.{add64, sub64, add64_exact, sub64_exact}
use omnipaxos_kv_project.Storage.Memory
use omnipaxos_kv_project.Storage.Memory.{MemoryStorage}
use omnipaxos_kv_project.Storage.Persistent.{
  Bytes, BatchOp, RocksDb, Codecs, PersistentStorage, and_then, batched, batch_serialized,
  batch_append_entry, batch_append_entries, batch_append_on_prefix,
}
use omnipaxos_kv_project.Storage.Persistent.Contents.{
  Contents, after_all, after_all-snoc, IsRocksDb,
}
use omnipaxos_kv_project.Storage.Persistent.Held.{
  HoldsLog, HoldsMeta, end_of, append-HoldsLog, fresh-HoldsLog, cut-HoldsLog,
}

module _ {T S : Type 0} (R : RocksDb) (L : IsRocksDb R) (c : Codecs T S) where
  -- What the database will hold when the batch is written
  abbrev pub view : PersistentStorage R → Contents
  view p = after_all (L.contents p.db) p.write_batch

  -- A persistent storage has what a memory storage has, but for old entries between its next key
  -- and `stale`.
  pub record IsStored (stale : ℕ) (p : PersistentStorage R) (m : MemoryStorage T S) : Type 0 where
    pub log : HoldsLog c (view p).log p.next_log_key stale m
    pub meta : HoldsMeta c (view p).meta m

  -- A chain that succeeds is its second part, after a first one that succeeds.
  pub and_then-both :
      (r : PersistentStorage R × Bool) (rest : PersistentStorage R → PersistentStorage R × Bool)
      → (and_then R c r rest).1 ≡ true
      → (r.1 ≡ true) × (and_then R c r rest ≡ rest r.0)
  and_then-both (p, true) rest h = (refl, refl)
  and_then-both (p, false) rest h = cc

  append_serialized :
      (stale : ℕ) (p : PersistentStorage R) (m : MemoryStorage T S) (e : T) (o : Option Bytes)
      → c.entry.serialize e ≡ o
      → IsStored stale p m
      → end_of m + 1 < 2 ^ 64
      → (batch_serialized R c p o).1 ≡ true
      → IsStored stale (batch_serialized R c p o).0 (Memory.append_entry m e)
  unfolding add64 Memory.append_entry
  append_serialized stale p m e none written h w done = cc
  append_serialized stale p m e (some bytes) written h w done =
      let key : add64 p.next_log_key 1 ≡ p.next_log_key + 1 = omega (arith, h.log.key) in
      let seen =
        after_all-snoc (L.contents p.db) p.write_batch (BatchOp.put_cf p.next_log_key bytes) in
      record {
        log =
            rw (key, seen)
              (append-HoldsLog c (view p).log p.next_log_key stale m e bytes h.log written);
        meta = rw seen h.meta;
      }

  pub append_entry-IsStored :
      (stale : ℕ) (p : PersistentStorage R) (m : MemoryStorage T S) (e : T)
      → IsStored stale p m
      → end_of m + 1 < 2 ^ 64
      → (batch_append_entry R c p e).1 ≡ true
      → IsStored stale (batch_append_entry R c p e).0 (Memory.append_entry m e)
  unfolding batch_append_entry
  append_entry-IsStored stale p m e h w done =
      append_serialized stale p m e (c.entry.serialize e) refl h w done

  append_entries-cons :
      (m : MemoryStorage T S) (e : T) (es : List T)
      → Memory.append_entries (Memory.append_entry m e) es ≡ Memory.append_entries m (e ∷ es)
  unfolding Memory.append_entries Memory.append_entry
  append_entries-cons m e es = ap (λ l. record m { log = l }) (append_assoc m.log (e ∷ []) es)

  pub append_entries-IsStored :
      (stale : ℕ) (p : PersistentStorage R) (m : MemoryStorage T S) (es : List T)
      → IsStored stale p m
      → end_of m + length es < 2 ^ 64
      → (batch_append_entries R c p es).1 ≡ true
      → IsStored stale (batch_append_entries R c p es).0 (Memory.append_entries m es)
  unfolding batch_append_entries Memory.append_entries Memory.append_entry
  append_entries-IsStored stale p m [] h w done = record {
    log =
        subst (λ l. HoldsLog c (view p).log p.next_log_key stale (record m { log = l }))
          (sym (append-nil m.log)) h.log;
    meta = h.meta;
  }
  append_entries-IsStored stale p m (e ∷ es) h w done =
      let first = batch_append_entry R c p e in
      let (reached, rest) = and_then-both first (λ p'. batch_append_entries R c p' es) done in
      let stored = append_entry-IsStored stale p m e h (omega arith) reached in
      let room = length-append m.log (e ∷ []) in
      rw (rest, ← append_entries-cons m e es)
        (append_entries-IsStored stale first.0 (Memory.append_entry m e) es stored
          (omega (arith, room)) (rw (← rest) done))

  -- Nothing is stale in the storage.
  abbrev pub IsHeld : PersistentStorage R → MemoryStorage T S → Type 0
  IsHeld p m = IsStored p.next_log_key p m

  pub fresh-IsHeld :
      (stale : ℕ) (p : PersistentStorage R) (m : MemoryStorage T S)
      → IsStored stale p m
      → stale ≤ end_of m
      → IsHeld p m
  fresh-IsHeld stale p m h l = record {
    log = fresh-HoldsLog c (view p).log p.next_log_key stale m h.log (omega (arith, h.log.key));
    meta = h.meta;
  }

  -- The deletion of the entries from `to` on, if there are any
  abbrev pub deleted : PersistentStorage R → ℕ → PersistentStorage R
  deleted p to =
      if ltb to p.next_log_key then batched R c p (BatchOp.delete_range_cf to p.next_log_key) else p

  view-deleted :
      (p : PersistentStorage R) (to k : ℕ)
      → (view (deleted p to)).log k
        ≡ (if leb to k && ltb k p.next_log_key then none else (view p).log k)
  view-deleted p to k = elim (Bool-cases (ltb to p.next_log_key)) [
    | inl e ↦ rw (
      e,
      after_all-snoc (L.contents p.db) p.write_batch (BatchOp.delete_range_cf to p.next_log_key),
    )
    | inr e ↦ ground arith
  ]

  meta-deleted : (p : PersistentStorage R) (to : ℕ) → (view (deleted p to)).meta ≡ (view p).meta
  meta-deleted p to = elim (Bool-cases (ltb to p.next_log_key)) [
    | inl e ↦ rw (
      e,
      after_all-snoc (L.contents p.db) p.write_batch (BatchOp.delete_range_cf to p.next_log_key),
    )
    | inr e ↦ rw e
  ]

  -- The memory storage at the cut
  abbrev pub cut_at : MemoryStorage T S → ℕ → MemoryStorage T S
  cut_at m from = record m { log = take (sub64 from m.trimmed_idx) m.log }

  end_of-cut_at :
      (m : MemoryStorage T S) (from : ℕ)
      → m.trimmed_idx ≤ from
      → from ≤ end_of m
      → from < 2 ^ 64
      → end_of (cut_at m from) ≡ from
  end_of-cut_at m from l u w =
      let width = sub64_exact from m.trimmed_idx l w in
      rw width (omega (arith, length-take (from - m.trimmed_idx) m.log))

  pub append_on_prefix-IsHeld :
      (p : PersistentStorage R) (m : MemoryStorage T S) (from : ℕ) (es : List T)
      → IsHeld p m
      → m.trimmed_idx ≤ from
      → from ≤ end_of m
      → from + length es < 2 ^ 64
      → (batch_append_on_prefix R c p from es).1 ≡ true
      → IsHeld (batch_append_on_prefix R c p from es).0 (Memory.append_on_prefix m from es)
  unfolding batch_append_on_prefix Memory.append_on_prefix Memory.append_entries
  append_on_prefix-IsHeld p m from es h l u w done =
      let to : add64 from (length es) ≡ from + length es = add64_exact from (length es) w in
      let start : PersistentStorage R = record (deleted p (from + length es)) {
        next_log_key = from;
      } in
      let cut : IsStored (from + length es) start (cut_at m from) = record {
        log =
            cut-HoldsLog c (view p).log (view (deleted p (from + length es))).log p.next_log_key m
              from (length es) h.log l u (omega arith) (view-deleted p (from + length es));
        meta = rw (meta-deleted p (from + length es)) h.meta;
      } in
      let size = end_of-cut_at m from l u (omega arith) in
      let all = length-append (cut_at m from).log es in
      let reached : (batch_append_entries R c start es).1 ≡ true = rw (← to) done in
      rw to (
        fresh-IsHeld (from + length es) (batch_append_entries R c start es).0
          (Memory.append_on_prefix m from es)
          (append_entries-IsStored (from + length es) start (cut_at m from) es cut
            (omega (arith, size)) reached)
          (omega (arith, size, all)))
