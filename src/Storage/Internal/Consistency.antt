-- ===== src/Storage/Internal/Consistency.antt =====
-- The cache of an `InternalStorage` agrees with the storage beneath it.
use Prim.Native.Nat.{◌^◌, min}
use omnipaxos_kv_project.Prelude.{
  ℕ, ◌+◌, ◌≤◌, ◌<◌, ◌≡◌, inl, inr, Option, none, some, List, [], ◌++◌, arith, length, length-append,
  length-drop, Bool-cases, Option-cases, ltb, subst, ◌∷◌,
}
use omnipaxos_kv_project.Prelude.Words.{add64, sub64}
use omnipaxos_kv_project.Ballot.{Ballot}
use omnipaxos_kv_project.Storage.{StopSign, ok, StorageOp, >>=-both, ok-injective}
use omnipaxos_kv_project.Storage.Memory.{MemoryStorage, append_entries, trim, write_atomically}
use omnipaxos_kv_project.Storage.Cache
use omnipaxos_kv_project.Storage.Internal.{
  InternalStorage, or_default, with, append_entries_and_get_accepted_idx, flush_batch, set_promise,
  set_decided_idx, set_stopsign, get_decided_idx_without_stopsign, append_entries_without_batching,
}
use omnipaxos_kv_project.Storage.Internal.Compact.{try_trim, new_compacted_idx, compact}

abbrev pub stop_length : Option StopSign → ℕ
stop_length none = 0
stop_length (some ss) = 1

-- The entries and the stop-sign have the indices up to `accepted_idx`, which is a `usize`.
pub record IsConsistent {ℓ} {T S : Type ℓ} (s : InternalStorage T S) : Type 0 where
  pub promise : or_default s.storage.n_prom ≡ s.state_cache.promise
  pub round : or_default s.storage.acc_round ≡ s.state_cache.accepted_round
  pub decided : s.storage.ld ≡ s.state_cache.decided_idx
  pub compacted : s.storage.compacted_idx ≡ s.state_cache.compacted_idx
  pub trimmed : s.storage.trimmed_idx ≡ s.state_cache.compacted_idx
  pub stopsign : s.storage.stopsign ≡ s.state_cache.stopsign
  pub accepted :
      s.state_cache.accepted_idx
      ≡ s.state_cache.compacted_idx + length s.storage.log + stop_length s.state_cache.stopsign
  pub fits : s.state_cache.accepted_idx < 2 ^ 64

module _ {ℓ} {T S : Type ℓ} where
  -- Loading a storage whose trimmed index is its compacted one, and whose indices fit into a `usize`
  -- with one for a stop-sign, makes a consistent cache.
  pub with-IsConsistent :
      (m : MemoryStorage T S) (batch_size : ℕ)
      → m.trimmed_idx ≡ m.compacted_idx
      → m.compacted_idx + length m.log + 1 < 2 ^ 64
      → IsConsistent (with m batch_size)
  unfolding with add64
  with-IsConsistent m b e f = elim (Option-cases m.stopsign) [
    | inl h ↦ ground (arith, h)
    | inr (ss, h) ↦ ground (arith, h)
  ]

  append-IsConsistent :
      (s : InternalStorage T S) (es : List T)
      → s.state_cache.accepted_idx + length es < 2 ^ 64
      → IsConsistent s
      → IsConsistent (append_entries_without_batching s es).0
  unfolding append_entries_without_batching append_entries add64
  append-IsConsistent s es f h = ground (arith, length-append s.storage.log es)

  -- An append keeps a consistent cache so, whether it flushes the batch or not, where the accepted
  -- index, the batch and the new entries together fit into a `usize`.
  pub append_entries-IsConsistent :
      (s : InternalStorage T S) (es : List T)
      → s.state_cache.accepted_idx + length s.state_cache.batched_entries + length es < 2 ^ 64
      → IsConsistent s
      → IsConsistent (append_entries_and_get_accepted_idx s es).0
  unfolding append_entries_and_get_accepted_idx Cache.append_entries append_entries add64
  append_entries-IsConsistent s es f h =
      let b = s.state_cache.batched_entries in
      ground (arith, length-append b es, length-append s.storage.log (b ++ es))

  -- Flushing the batch keeps the cache consistent, where the indices with those of the batch fit into
  -- a `usize`.
  pub flush_batch-IsConsistent :
      (s : InternalStorage T S)
      → s.state_cache.accepted_idx + length s.state_cache.batched_entries < 2 ^ 64
      → IsConsistent s
      → IsConsistent (flush_batch s).0
  unfolding flush_batch Cache.take_batched_entries append_entries add64
  flush_batch-IsConsistent s f h =
      ground (arith, length-append s.storage.log s.state_cache.batched_entries)

  pub set_promise-IsConsistent :
      (s : InternalStorage T S) (n : Ballot) → IsConsistent s → IsConsistent (set_promise s n)
  unfolding set_promise
  set_promise-IsConsistent s n h = ground arith

  pub set_decided_idx-IsConsistent :
      (s : InternalStorage T S) (idx : ℕ) → IsConsistent s → IsConsistent (set_decided_idx s idx)
  unfolding set_decided_idx
  set_decided_idx-IsConsistent s idx h = ground arith

  -- Setting or clearing a stop-sign keeps the cache consistent, where one more index fits into a
  -- `usize`: a stop-sign takes an index when it is set and gives it back when it is cleared.
  pub set_stopsign-IsConsistent :
      (s : InternalStorage T S) (ss : Option StopSign)
      → s.state_cache.accepted_idx + 1 < 2 ^ 64
      → IsConsistent s
      → IsConsistent (set_stopsign s ss).0
  unfolding set_stopsign add64 sub64
  set_stopsign-IsConsistent s none f h = elim (Option-cases s.state_cache.stopsign) [
    | inl e ↦ ground (arith, e)
    | inr (x, e) ↦ ground (arith, e)
  ]
  set_stopsign-IsConsistent s (some ss) f h = elim (Option-cases s.state_cache.stopsign) [
    | inl e ↦ ground (arith, e)
    | inr (x, e) ↦ ground (arith, e)
  ]

  -- What may be compacted stands in the log: below the decided index, and below a stop-sign.
  pub new_compacted_idx_bound :
      (s : InternalStorage T S) (idx new_idx : ℕ)
      → IsConsistent s
      → s.state_cache.decided_idx ≤ s.state_cache.accepted_idx
      → new_compacted_idx s idx ≡ ok new_idx
      → (new_idx ≤ s.state_cache.compacted_idx + length s.storage.log)
        × (new_idx ≤ s.state_cache.decided_idx)
  unfolding new_compacted_idx get_decided_idx_without_stopsign Cache.stopsign_is_decided sub64
  new_compacted_idx_bound s idx new_idx h b e = elim (Option-cases s.state_cache.stopsign) [
    | inl n ↦ ground (arith, n)
    | inr (x, n) ↦ ground (arith, n)
  ]

  compacted_storage :
      (s : InternalStorage T S) (idx : ℕ)
      → IsConsistent s
      → s.state_cache.compacted_idx ≤ idx
      → idx ≤ s.state_cache.compacted_idx + length s.storage.log
      → IsConsistent (record s {
        storage = record (trim s.storage idx) { compacted_idx = idx };
        state_cache = record (s.state_cache) { compacted_idx = idx };
      })
  unfolding trim sub64
  compacted_storage s idx h l u =
      let k = min (sub64 idx s.storage.trimmed_idx) (length s.storage.log) in
      ground (arith, length-drop k s.storage.log)

  -- The operations behind the trim: none of `try_trim`, the snapshot of `try_snapshot`
  abbrev snapshot_ops : Option S → List (StorageOp T S)
  snapshot_ops none = []
  snapshot_ops (some x) = StorageOp.set_snapshot (some x) ∷ []

  pub compact-IsConsistent :
      (s : InternalStorage T S) (idx : ℕ) (o : Option S)
      → IsConsistent s
      → s.state_cache.compacted_idx ≤ idx
      → idx ≤ s.state_cache.compacted_idx + length s.storage.log
      → IsConsistent (compact s idx (snapshot_ops o))
  unfolding write_atomically trim sub64
  compact-IsConsistent s idx none h l u = ground (arith, compacted_storage s idx h l u)
  compact-IsConsistent s idx (some x) h l u = ground (arith, compacted_storage s idx h l u)

  -- A trim that succeeds keeps the cache consistent, where the decided index is within the accepted
  -- log.
  pub try_trim-IsConsistent :
      (s s' : InternalStorage T S) (idx : ℕ)
      → IsConsistent s
      → s.state_cache.decided_idx ≤ s.state_cache.accepted_idx
      → try_trim s idx ≡ ok s'
      → IsConsistent s'
  unfolding try_trim
  try_trim-IsConsistent s s' idx h b e =
      let (n, chosen, rest) = >>=-both _ (new_compacted_idx s idx) e in
      let bound = new_compacted_idx_bound s idx n h b chosen in
      elim (Bool-cases (ltb s.state_cache.compacted_idx n)) [
        | inl larger ↦
            subst IsConsistent (ok-injective (rw larger at rest))
              (compact-IsConsistent s n none h (ground arith) bound.0)
        | inr fits ↦ subst IsConsistent (ok-injective (rw fits at rest)) h
      ]
