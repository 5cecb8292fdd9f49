-- ===== src/SequencePaxos/Events/Acks.antt =====
-- Every acknowledgement that a replica sends speaks of its log.
use Prim.Native.Nat.{◌%◌, ◌^◌}
use omnipaxos_kv_project.Prelude.{
  ℕ, ◌+◌, ◌≤◌, ◌≡◌, refl, ap, ◌∙◌, some, List, [], ◌∷◌, ◌++◌, arith, length, length-append, All,
  All-mono, All-append, append_assoc,
}
use omnipaxos_kv_project.Prelude.Words.{add64}
use omnipaxos_kv_project.Ballot.{Ballot}
use omnipaxos_kv_project.Messages.{
  Message, sequence_paxos, ble, PaxosMsg, confirm, new_deadline, sync_req, sync_answer,
}
use omnipaxos_kv_project.Storage.Memory
use omnipaxos_kv_project.Storage.Memory.{Hashing, hash_all, history_hash}
use omnipaxos_kv_project.Storage.Cache
use omnipaxos_kv_project.Storage.Internal
use omnipaxos_kv_project.Storage.Internal.{InternalStorage}
use omnipaxos_kv_project.SequencePaxos.{
  Speculation, Task, propose, append_released, push_ack, free, decide, answer, reply_time,
  sync_with_master, await_time,
}

module _ {T : Type 0} (h : Hashing T) where
  abbrev pub hash_of : List T → ℕ
  hash_of log = h.finish (hash_all h h.new log)

  -- The acknowledgement of `r` was computed where the log ended with `r`, and that log is a prefix
  -- of this one. (An index is a `usize`.)
  abbrev pub IsAckOf : List T → T → ℕ → ℕ → Type 0
  IsAckOf log r hash idx =
      (before : List T) × (after : List T) × (log ≡ before ++ r ∷ after)
      × (hash ≡ hash_of (before ++ r ∷ []))
      × (idx ≡ length (before ++ r ∷ []) % 2 ^ 64)

  abbrev pub IsJustifiedMsg : List T → PaxosMsg T → Type 0
  IsJustifiedMsg log (PaxosMsg.ack r hash speculation idx) = IsAckOf log r hash idx
  IsJustifiedMsg log _ = ⊥

  abbrev pub IsJustified : List T → Message T → Type 0
  IsJustified log (sequence_paxos m) = IsJustifiedMsg log m.msg
  IsJustified log (ble m) = ⊥

  -- An acknowledgement that a task is about to push is one too.
  abbrev pub IsPending : List T → Task T → Type 0
  IsPending log (push_ack r hash speculation idx) = IsAckOf log r hash idx
  IsPending log _ = Unit

module _ {T S : Type 0} (h : Hashing T) where
  -- The storage of a replica that takes no batches, its messages to the clients, and its tasks
  pub record IsSound (s : InternalStorage T S) (sent : List (Message T)) (tasks : List (Task T))
      : Type 0 where
    pub unbatched : s.state_cache.batch_size ≤ 1
    pub flushed : s.state_cache.batched_entries ≡ []
    pub accepted : s.state_cache.accepted_idx ≡ length s.storage.log % 2 ^ 64
    pub justified : All (IsJustified h s.storage.log) sent
    pub pending : All (IsPending h s.storage.log) tasks

module _ {T : Type 0} (h : Hashing T) where
  IsAckOf-append :
      (log es : List T) (r : T) (hash idx : ℕ)
      → IsAckOf h log r hash idx
      → IsAckOf h (log ++ es) r hash idx
  IsAckOf-append log es r hash idx (before, after, split, hashed, at) = (
    before,
    after ++ es,
    ap (λ l. l ++ es) split ∙ append_assoc before (r ∷ after) es,
    hashed,
    at,
  )

  IsJustifiedMsg-append :
      (log es : List T) (m : PaxosMsg T) → IsJustifiedMsg h log m → IsJustifiedMsg h (log ++ es) m
  IsJustifiedMsg-append log es (PaxosMsg.ack r hash speculation idx) j =
      IsAckOf-append log es r hash idx j
  IsJustifiedMsg-append log es (confirm c idx) j = absurd j
  IsJustifiedMsg-append log es (new_deadline id d) j = absurd j
  IsJustifiedMsg-append log es sync_req j = absurd j
  IsJustifiedMsg-append log es (sync_answer t) j = absurd j

  -- An acknowledgement stays true when the log grows.
  IsJustified-append :
      (log es : List T) (m : Message T) → IsJustified h log m → IsJustified h (log ++ es) m
  IsJustified-append log es (sequence_paxos m) j = IsJustifiedMsg-append log es m.msg j
  IsJustified-append log es (ble m) j = absurd j

  IsPending-append : (log es : List T) (t : Task T) → IsPending h log t → IsPending h (log ++ es) t
  IsPending-append log es (push_ack r hash speculation idx) j = IsAckOf-append log es r hash idx j
  IsPending-append log es (propose entry im_leader speculation) j = tt
  IsPending-append log es (append_released r speculation) j = tt
  IsPending-append log es (free id d) j = tt
  IsPending-append log es (decide idx) j = tt
  IsPending-append log es (answer t) j = tt
  IsPending-append log es (reply_time to) j = tt
  IsPending-append log es sync_with_master j = tt
  IsPending-append log es await_time j = tt

module _ {T S : Type 0} (h : Hashing T) where
  -- What an append of one entry does, without batches
  abbrev pub appended : InternalStorage T S → T → InternalStorage T S
  appended s r = record s {
    storage = Memory.append_entries s.storage (r ∷ []);
    state_cache = record (s.state_cache) {
      batched_entries = [];
      accepted_idx = add64 s.state_cache.accepted_idx 1;
    };
  }

  pub append-appended :
      (s : InternalStorage T S) (r : T)
      → s.state_cache.batch_size ≤ 1
      → s.state_cache.batched_entries ≡ []
      → Internal.append_entries_and_get_accepted_idx s (r ∷ [])
        ≡ (appended s r, some (add64 s.state_cache.accepted_idx 1))
  unfolding Internal.append_entries_and_get_accepted_idx Cache.append_entries
  append-appended s r one empty = rw empty (ground arith)

  -- The append of a request leaves a task that pushes its acknowledgement.
  pub appended-IsSound :
      (s : InternalStorage T S) (sent : List (Message T)) (tasks : List (Task T)) (r : T)
      (spec : Speculation)
      → IsSound h s sent tasks
      → IsSound h (appended s r) sent (
          tasks
          ++ push_ack r
              (history_hash h (appended s r).storage)
              spec
              (appended s r).state_cache.accepted_idx
            ∷ [])
  unfolding Memory.append_entries history_hash add64
  appended-IsSound s sent tasks r spec k =
      let log = s.storage.log in
      let at : (s.state_cache.accepted_idx + 1) % 2 ^ 64 ≡ length (log ++ r ∷ []) % 2 ^ 64 =
        omega (arith, k.accepted, length-append log (r ∷ [])) in
      record {
        unbatched = k.unbatched;
        flushed = refl;
        accepted = at;
        justified = All-mono _ _ sent (IsJustified-append h log (r ∷ [])) k.justified;
        pending =
            All-append _ tasks _ (All-mono _ _ tasks (IsPending-append h log (r ∷ [])) k.pending)
              ((log, [], refl, refl, at), tt);
      }

  -- A task that is spawned pushes no acknowledgement, or a true one.
  pub spawned-IsSound :
      (s : InternalStorage T S) (sent : List (Message T)) (tasks : List (Task T)) (t : Task T)
      → IsPending h s.storage.log t
      → IsSound h s sent tasks
      → IsSound h s sent (tasks ++ t ∷ [])
  spawned-IsSound s sent tasks t j k = record {
    unbatched = k.unbatched;
    flushed = k.flushed;
    accepted = k.accepted;
    justified = k.justified;
    pending = All-append _ tasks (t ∷ []) k.pending (j, tt);
  }

  -- The acknowledgement of a task is pushed.
  pub pushed-IsSound :
      (s : InternalStorage T S) (sent : List (Message T)) (tasks : List (Task T)) (r : T)
      (hash idx to from : ℕ) (spec : Speculation)
      → IsPending h s.storage.log (push_ack r hash spec idx)
      → IsSound h s sent tasks
      → IsSound h s
          (sent
            ++ sequence_paxos (record { from = from; to = to; msg = PaxosMsg.ack r hash spec idx })
              ∷ [])
          tasks
  pushed-IsSound s sent tasks r hash idx to from spec j k = record {
    unbatched = k.unbatched;
    flushed = k.flushed;
    accepted = k.accepted;
    justified = All-append _ sent _ k.justified (j, tt);
    pending = k.pending;
  }

  -- A flush of no batch, and the fields that a leader or a decision sets, leave the log alone.
  pub led-IsSound :
      (s : InternalStorage T S) (sent : List (Message T)) (tasks : List (Task T)) (n : Ballot)
      → IsSound h s sent tasks
      → IsSound h (Internal.set_promise (Internal.flush_batch s).0 n) sent tasks
  unfolding Internal.set_promise Internal.flush_batch Cache.take_batched_entries
      Memory.append_entries add64
  led-IsSound s sent tasks n k =
      let log = s.storage.log in
      let batch = s.state_cache.batched_entries in
      record {
        unbatched = k.unbatched;
        flushed = refl;
        accepted = omega (arith, k.accepted, length-append log batch, ap length k.flushed);
        justified = All-mono _ _ sent (IsJustified-append h log batch) k.justified;
        pending = All-mono _ _ tasks (IsPending-append h log batch) k.pending;
      }

  pub decided-IsSound :
      (s : InternalStorage T S) (sent : List (Message T)) (tasks : List (Task T)) (idx : ℕ)
      → IsSound h s sent tasks
      → IsSound h (Internal.set_decided_idx s idx) sent tasks
  unfolding Internal.set_decided_idx
  decided-IsSound s sent tasks idx k = record {
    unbatched = k.unbatched;
    flushed = k.flushed;
    accepted = k.accepted;
    justified = k.justified;
    pending = k.pending;
  }
