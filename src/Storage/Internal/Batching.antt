-- ===== src/Storage/Internal/Batching.antt =====
-- Batching loses no entry and keeps the order: what an `InternalStorage` was given is its log
-- followed by its batch.
use omnipaxos_kv_project.Prelude.{
  ◌≤◌, ◌≡◌, sym, ap, ◌∙◌, some, List, [], ◌∷◌, ◌++◌, arith, append_assoc, append-nil,
}
use omnipaxos_kv_project.Storage.Memory.{append_entries}
use omnipaxos_kv_project.Storage.Cache
use omnipaxos_kv_project.Storage.Internal.{
  InternalStorage, append_entries_and_get_accepted_idx, flush_batch,
  append_entries_without_batching,
}

-- `handle_new_proposal` appends, and a new leader flushes.
pub data Write {ℓ} (T : Type ℓ) : Type ℓ where
  append : List T → Write T
  flush : Write T

abbrev pub given {ℓ} : {T : Type ℓ} → List (Write T) → List T
given [] = []
given (append es ∷ ws) = es ++ given ws
given (flush ∷ ws) = given ws

module _ {ℓ} {T S : Type ℓ} where
  pub run : InternalStorage T S → List (Write T) → InternalStorage T S
  run s [] = s
  run s (append es ∷ ws) = run (append_entries_and_get_accepted_idx s es).0 ws
  run s (flush ∷ ws) = run (flush_batch s).0 ws

  abbrev pub received : InternalStorage T S → List T
  received s = s.storage.log ++ s.state_cache.batched_entries

  received-append :
      (s : InternalStorage T S) (es : List T)
      → received (append_entries_and_get_accepted_idx s es).0 ≡ received s ++ es
  unfolding append_entries_and_get_accepted_idx Cache.append_entries append_entries
  received-append s es =
      let b = s.state_cache.batched_entries in
      ground (arith, append_assoc s.storage.log b es, append-nil (s.storage.log ++ (b ++ es)))

  received-flush : (s : InternalStorage T S) → received (flush_batch s).0 ≡ received s
  unfolding flush_batch Cache.take_batched_entries append_entries append_entries_without_batching
  received-flush s = append-nil (received s)

  -- After any appends and flushes the log and the batch hold every entry, in the order given.
  pub received-run :
      (s : InternalStorage T S) (ws : List (Write T)) → received (run s ws) ≡ received s ++ given ws
  unfolding run
  received-run s [] = sym (append-nil (received s))
  received-run s (append es ∷ ws) =
      received-run (append_entries_and_get_accepted_idx s es).0 ws
      ∙ ap (λ l. l ++ given ws) (received-append s es)
      ∙ append_assoc (received s) es (given ws)
  received-run s (flush ∷ ws) =
      received-run (flush_batch s).0 ws ∙ ap (λ l. l ++ given ws) (received-flush s)

  -- With batches of one entry, the default, and none in the batch, an append of one entry returns the accepted index, so its `unwrap`
  -- does not panic, and the entries are in the log at once.
  pub append-unbatched :
      (s : InternalStorage T S) (e : T)
      → s.state_cache.batch_size ≤ 1
      → s.state_cache.batched_entries ≡ []
      → let (s', idx) = append_entries_and_get_accepted_idx s (e ∷ []) in
        (idx ≡ some s'.state_cache.accepted_idx)
        × (s'.storage.log ≡ s.storage.log ++ e ∷ [])
        × (s'.state_cache.batched_entries ≡ [])
  unfolding append_entries_and_get_accepted_idx Cache.append_entries append_entries
  append-unbatched s e one empty = rw empty (ground arith)
