-- ===== src/Storage/Internal/Upkeep.antt =====
-- The cache of an `InternalStorage` agrees with the storage beneath it through any changes.
use Prim.Native.Nat.{◌^◌}
use omnipaxos_kv_project.Prelude.{
  ℕ, ◌+◌, ◌≤◌, ◌<◌, ◌≡◌, refl, inl, inr, Option, none, some, List, [], ◌∷◌, arith, length,
  Bool-cases, ltb, subst,
}
use omnipaxos_kv_project.Ballot.{Ballot}
use omnipaxos_kv_project.Storage.{
  StopSign, StorageResult, ok, err, panic, Snapshot, >>=-both, ok-injective,
}
use omnipaxos_kv_project.Storage.Internal.{
  InternalStorage, append_entries_and_get_accepted_idx, flush_batch, set_promise, set_decided_idx,
  set_stopsign,
}
use omnipaxos_kv_project.Storage.Internal.Compact.{
  try_trim, try_snapshot, new_compacted_idx, snapshot_idx_or_decided, create_snapshot,
}
use omnipaxos_kv_project.Storage.Internal.Consistency.{
  IsConsistent, append_entries-IsConsistent, flush_batch-IsConsistent, set_promise-IsConsistent,
  set_decided_idx-IsConsistent, set_stopsign-IsConsistent, try_trim-IsConsistent,
  new_compacted_idx_bound, compact-IsConsistent,
}

pub data Change {ℓ} (T : Type ℓ) : Type ℓ where
  append : List T → Change T
  flushes : Change T
  promises : Ballot → Change T
  decides : ℕ → Change T
  stops : Option StopSign → Change T
  trims : ℕ → Change T
  snapshots : Option ℕ → Change T

-- An operation that fails leaves the storage as it is.
abbrev pub kept {ℓ} : {A : Type ℓ} → A → StorageResult A → A
kept s (ok s') = s'
kept s (err why) = s
kept s panic = s

module _ {ℓ} {T S : Type ℓ} (snap : Snapshot T S) where
  abbrev pub change : InternalStorage T S → Change T → InternalStorage T S
  change s (append es) = (append_entries_and_get_accepted_idx s es).0
  change s flushes = (flush_batch s).0
  change s (promises n) = set_promise s n
  change s (decides idx) = set_decided_idx s idx
  change s (stops ss) = (set_stopsign s ss).0
  change s (trims idx) = kept s (try_trim s idx)
  change s (snapshots idx) = kept s (try_snapshot snap s idx)

  abbrev pub changes : InternalStorage T S → List (Change T) → InternalStorage T S
  changes s [] = s
  changes s (c ∷ cs) = changes (change s c) cs

  -- The indices stay within `usize`, and what is compacted is decided within the accepted log.
  abbrev pub HasRoom : InternalStorage T S → Change T → Type 0
  HasRoom s (append es) =
      s.state_cache.accepted_idx + length s.state_cache.batched_entries + length es < 2 ^ 64
  HasRoom s flushes = s.state_cache.accepted_idx + length s.state_cache.batched_entries < 2 ^ 64
  HasRoom s (promises n) = Unit
  HasRoom s (decides idx) = Unit
  HasRoom s (stops ss) = s.state_cache.accepted_idx + 1 < 2 ^ 64
  HasRoom s (trims idx) = s.state_cache.decided_idx ≤ s.state_cache.accepted_idx
  HasRoom s (snapshots idx) = s.state_cache.decided_idx ≤ s.state_cache.accepted_idx

  abbrev pub AllRoom : InternalStorage T S → List (Change T) → Type 0
  AllRoom s [] = Unit
  AllRoom s (c ∷ cs) = HasRoom s c × AllRoom (change s c) cs

  snapshot_idx_bound :
      (s : InternalStorage T S) (idx : Option ℕ) (n : ℕ)
      → IsConsistent s
      → s.state_cache.decided_idx ≤ s.state_cache.accepted_idx
      → snapshot_idx_or_decided s idx ≡ ok n
      → n ≤ s.state_cache.compacted_idx + length s.storage.log
  unfolding snapshot_idx_or_decided new_compacted_idx
  snapshot_idx_bound s none n h b chosen =
      (new_compacted_idx_bound s s.state_cache.decided_idx n h b (ground (arith, chosen))).0
  snapshot_idx_bound s (some idx) n h b chosen = (new_compacted_idx_bound s idx n h b chosen).0

  -- A snapshot that succeeds keeps the cache consistent.
  try_snapshot-IsConsistent :
      (s s' : InternalStorage T S) (idx : Option ℕ)
      → IsConsistent s
      → s.state_cache.decided_idx ≤ s.state_cache.accepted_idx
      → try_snapshot snap s idx ≡ ok s'
      → IsConsistent s'
  unfolding try_snapshot
  try_snapshot-IsConsistent s s' idx h b e =
      let (n, chosen, rest) = >>=-both _ (snapshot_idx_or_decided s idx) e in
      let bound = snapshot_idx_bound s idx n h b chosen in
      elim (Bool-cases (ltb s.state_cache.compacted_idx n)) [
        | inl larger ↦
            let (x, created, last) = >>=-both _ (create_snapshot snap s n) (rw larger at rest) in
            subst IsConsistent (ok-injective last)
              (compact-IsConsistent s n (some x) h (ground arith) bound)
        | inr fits ↦ subst IsConsistent (ok-injective (rw fits at rest)) h
      ]

  kept-IsConsistent :
      (s : InternalStorage T S) (result : StorageResult (InternalStorage T S))
      → IsConsistent s
      → ((s' : InternalStorage T S) → result ≡ ok s' → IsConsistent s')
      → IsConsistent (kept s result)
  kept-IsConsistent s (ok s') h keeps = keeps s' refl
  kept-IsConsistent s (err why) h keeps = h
  kept-IsConsistent s panic h keeps = h

  change-IsConsistent :
      (s : InternalStorage T S) (c : Change T)
      → IsConsistent s
      → HasRoom s c
      → IsConsistent (change s c)
  change-IsConsistent s (append es) h room = append_entries-IsConsistent s es room h
  change-IsConsistent s flushes h room = flush_batch-IsConsistent s room h
  change-IsConsistent s (promises n) h room = set_promise-IsConsistent s n h
  change-IsConsistent s (decides idx) h room = set_decided_idx-IsConsistent s idx h
  change-IsConsistent s (stops ss) h room = set_stopsign-IsConsistent s ss room h
  change-IsConsistent s (trims idx) h room =
      kept-IsConsistent s (try_trim s idx) h λ s' e. try_trim-IsConsistent s s' idx h room e
  change-IsConsistent s (snapshots idx) h room =
      kept-IsConsistent s (try_snapshot snap s idx) h
        λ s' e. try_snapshot-IsConsistent s s' idx h room e

  -- Any sequence of appends, flushes of the batch, promises, decided indices, stop-signs set or
  -- cleared, trims and snapshots, of which the last two may fail, keeps a consistent cache so, where
  -- at each append and each flush the indices with the batch and the new entries fit into a `usize`,
  -- at each stop-sign one more index does, and at each trim and snapshot the decided index is within
  -- the accepted log.
  pub changes-IsConsistent :
      (s : InternalStorage T S) (cs : List (Change T))
      → IsConsistent s
      → AllRoom s cs
      → IsConsistent (changes s cs)
  changes-IsConsistent s [] h room = h
  changes-IsConsistent s (c ∷ cs) h room =
      changes-IsConsistent (change s c) cs (change-IsConsistent s c h room.0) room.1
