-- ===== src/Buffers.antt =====
-- crates/custom-paxos/omnipaxos/src/buffers.rs: the early and the late buffer of a replica. A
-- notifier is the number of its channel. The clock, which the source shares by reference, is an
-- argument where it is read. The loop of `waiter` is split at its waits: `take_next` pops, and
-- the proposals of `SequencePaxos` go on when the clock has notified the deadline.
pub mod Order
pub mod Freeing
pub mod Holding
pub mod Conserving
use omnipaxos_kv_project.Prelude.{
  ℕ, Option, none, some, List, [], ◌∷◌, ◌++◌, Bool, true, false, ltb, if◌then◌else◌,
}
use omnipaxos_kv_project.Prelude.Assoc
use omnipaxos_kv_project.Prelude.Assoc.{Assoc, nat_eq}
use omnipaxos_kv_project.Prelude.Heap
use omnipaxos_kv_project.Request.{Request}

pub record Buffers {ℓ} (R : Type ℓ) : Type ℓ where
  pub early : List R
  pub notifiers : Assoc ℕ ℕ
  pub late : Assoc ℕ R
  pub last_released_deadline : Option ℕ

-- `Buffers::new`, without the clock and the spawned `waiter`
abbrev pub new {ℓ} : {R : Type ℓ} → Buffers R
new = record { early = []; notifiers = []; late = []; last_released_deadline = none }

-- The match on `last_released_deadline` in `insert`
abbrev pub is_eligible : Option ℕ → ℕ → Bool
is_eligible none deadline = true
is_eligible (some last) deadline = ltb last deadline

module _ {ℓ} {R : Type ℓ} ⦃q : Request R⦄ where
  abbrev pub push_early : Buffers R → R → Buffers R
  push_early b r = record b { early = b.early ++ r ∷ [] }

  abbrev pub free_removed : Buffers R → Option R → ℕ → Buffers R
  free_removed b none new_deadline = b
  free_removed b (some r) new_deadline = push_early b (q.set_deadline r new_deadline)

  unfoldable pub free_from_late : Buffers R → ℕ → ℕ → Buffers R
  free_from_late b id new_deadline =
      free_removed (record b { late = Assoc.remove b.late id }) (Assoc.get b.late id) new_deadline

  -- The branch of `insert` for a request whose turn has passed
  abbrev pub insert_late : Buffers R → R → Bool → ℕ → Buffers R × Option ℕ
  insert_late b r true fresh = (push_early b (q.set_deadline r fresh), some fresh)
  insert_late b r false fresh = (record b { late = Assoc.insert b.late (q.get_id r) r }, none)

  -- `fresh` is the clock's `new_deadline()`, and `ch` the channel made for the request.
  unfoldable pub insert : Buffers R → R → Bool → ℕ → ℕ → Buffers R × Option ℕ
  insert b r im_leader fresh ch =
      let b' = record b { notifiers = Assoc.insert b.notifiers (q.get_id r) ch } in
      if is_eligible b.last_released_deadline (q.get_deadline r)
      then (push_early b' r, none)
      else insert_late b' r im_leader fresh

  -- What the inner loop of `waiter` breaks with: the notifier, if there is one, and the request
  abbrev pub release : Buffers R → R × List R → Buffers R × Option ℕ × R
  release b (r, rest) = (
    record b {
      early = rest;
      last_released_deadline = some (q.get_deadline r);
      notifiers = Assoc.remove b.notifiers (q.get_id r);
    },
    Assoc.get b.notifiers (q.get_id r),
    r,
  )

  abbrev pub next_of : Buffers R → Option (R × List R) → Option (Buffers R × Option ℕ × R)
  next_of b none = none
  next_of b (some popped) = some (release b popped)

  -- The lock, `pop` and bookkeeping of `waiter`; none sleeps and tries again.
  unfoldable pub take_next : Buffers R → Option (Buffers R × Option ℕ × R)
  take_next b = next_of b (Heap.pop q.get_deadline b.early)
