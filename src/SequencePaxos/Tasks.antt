-- ===== src/SequencePaxos/Tasks.antt =====
-- The spawned tasks of crates/custom-paxos/omnipaxos/src/sequence_paxos/follower.rs, and the loop
-- of `waiter` of buffers.rs and of `tick_fn` of clock.rs. A proposal is four steps: it inserts its
-- entry and tells the peers, waits for the waiter's send, appends the request, and pushes the
-- acknowledgement. The other tasks are one step each, or two where they wait for an answer.
use omnipaxos_kv_project.Prelude.{
  ℕ, suc, Option, none, some, List, [], ◌∷◌, ◌++◌, map, Bool, ◌==◌, if◌then◌else◌,
}
use omnipaxos_kv_project.Prelude.Assoc
use omnipaxos_kv_project.Prelude.Assoc.{nat_eq}
use omnipaxos_kv_project.Request.{Request}
use omnipaxos_kv_project.Config.{contains}
use omnipaxos_kv_project.Messages.{sequence_paxos, PaxosMsg, new_deadline, sync_answer}
use omnipaxos_kv_project.Clock
use omnipaxos_kv_project.Buffers
use omnipaxos_kv_project.Storage.Memory.{Hashing, history_hash}
use omnipaxos_kv_project.Storage.Internal
use omnipaxos_kv_project.SequencePaxos.{
  SequencePaxos, Speculation, Task, propose, append_released, push_ack, free, decide, answer,
  reply_time, sync_with_master, await_time, Waiter, idle, waits, ready,
}

abbrev pub wake : {T : Type 0} → Waiter T → List ℕ → Waiter T
wake idle out = idle
wake (ready sender r) out = ready sender r
wake (waits ch sender r) out = if contains out ch then ready sender r else waits ch sender r

module _ {T S : Type 0} ⦃q : Request T⦄ (h : Hashing T) where
  -- The loop over the peers behind `Buffers::insert`
  abbrev pub tell_peers : SequencePaxos T S → ℕ → Option ℕ → SequencePaxos T S
  tell_peers s id none = s
  tell_peers s id (some deadline) = record s {
    outgoing =
        s.outgoing
        ++ map
            (λ peer.
              sequence_paxos (record { from = s.pid; to = peer; msg = new_deadline id deadline }))
            s.peers;
  }

  run_propose : SequencePaxos T S → T → Bool → Speculation → SequencePaxos T S
  run_propose s entry im_leader speculation =
      let ch = s.next_channel in
      let (buffers, deadline) =
        Buffers.insert s.buffers entry im_leader (Clock.new_deadline s.clock) ch in
      tell_peers
        (record s {
          buffers = buffers;
          next_channel = suc ch;
          waiting = (ch, speculation) ∷ s.waiting;
        })
        (q.get_id entry) deadline

  -- The answer of the master is taken from its channel; without one the task waits on.
  abbrev pub run_await : SequencePaxos T S → ℕ → List ℕ → SequencePaxos T S
  run_await s rtt [] = record s { tasks = s.tasks ++ await_time ∷ [] }
  run_await s rtt (t ∷ ts) = record s { master_times = ts; clock = Clock.finish_sync s.clock t rtt }

  -- The append of a released request and the hash of the log, under one lock. Without an accepted
  -- index the `unwrap` panics, and the task ends.
  abbrev pub acknowledge :
      SequencePaxos T S
      → T
      → Speculation
      → Internal.InternalStorage T S × Option ℕ
      → SequencePaxos T S
  acknowledge s r speculation (storage, none) = record s { internal_storage = storage }
  acknowledge s r speculation (storage, some accepted_idx) = record s {
    internal_storage = storage;
    tasks = s.tasks ++ push_ack r (history_hash h storage.storage) speculation accepted_idx ∷ [];
  }

  -- One task, which is no more in `tasks`; `rtt` is what a resync measures.
  unfoldable pub run_task : SequencePaxos T S → Task T → ℕ → SequencePaxos T S
  unfolding run_propose
  run_task s (propose entry im_leader speculation) rtt = run_propose s entry im_leader speculation
  run_task s (append_released r speculation) rtt =
      acknowledge s r speculation
        (Internal.append_entries_and_get_accepted_idx s.internal_storage (r ∷ []))
  run_task s (push_ack r hash speculation accepted_idx) rtt = record s {
    outgoing_clients =
        s.outgoing_clients
        ++ sequence_paxos (record {
          from = s.pid;
          to = q.client_id r;
          msg = PaxosMsg.ack r hash speculation accepted_idx;
        })
          ∷ [];
  }
  run_task s (free id deadline) rtt = record s {
    buffers = Buffers.free_from_late s.buffers id deadline;
  }
  run_task s (decide idx) rtt = record s {
    internal_storage = Internal.set_decided_idx s.internal_storage idx;
  }
  run_task s (answer t) rtt = record s { master_times = s.master_times ++ t ∷ [] }
  run_task s (reply_time to) rtt = record s {
    outgoing =
        s.outgoing
        ++ sequence_paxos (record { from = 1; to = to; msg = sync_answer (s.clock.logical_time) })
          ∷ [];
  }
  run_task s sync_with_master rtt =
      if s.clock.master == 1
      then record s { clock = Clock.finish_sync s.clock 0 rtt }
      else record s {
        outgoing = s.outgoing ++ Clock.sync_request s.clock;
        tasks = s.tasks ++ await_time ∷ [];
      }
  run_task s await_time rtt = run_await s rtt s.master_times

  -- The waiter takes the next request and gives its deadline to the clock.
  abbrev pub waiter_took :
      SequencePaxos T S → Option (Buffers.Buffers T × Option ℕ × T) → SequencePaxos T S
  waiter_took s none = s
  waiter_took s (some (buffers, sender, r)) =
      let ch = s.next_channel in
      record s {
        buffers = buffers;
        clock = Clock.add_deadline s.clock (q.get_deadline r) ch;
        waiter = waits ch sender r;
        next_channel = suc ch;
      }

  -- One round of the clock, which notifies the waiter and starts a resync when it is due
  unfoldable pub clock_tick : SequencePaxos T S → Bool → SequencePaxos T S
  clock_tick s coin =
      let (clock, out, sync) = Clock.tick s.clock coin in
      record s {
        clock = clock;
        waiter = wake s.waiter out;
        tasks = if sync then s.tasks ++ sync_with_master ∷ [] else s.tasks;
      }

  -- The proposal that waited for the request can go on with it, as a task of its own.
  abbrev pub resume : SequencePaxos T S → T → Option Speculation → SequencePaxos T S
  resume s r none = s
  resume s r (some speculation) = record s { tasks = s.tasks ++ append_released r speculation ∷ [] }

  -- `sender.send(req.0)` wakes the proposal behind the sender; when it runs is not said.
  abbrev pub delivered : SequencePaxos T S → Option ℕ → T → SequencePaxos T S
  delivered s none r = s
  delivered s (some ch) r =
      resume (record s { waiting = Assoc.remove s.waiting ch }) r (Assoc.get s.waiting ch)

  abbrev pub waiter_step : SequencePaxos T S → Waiter T → SequencePaxos T S
  waiter_step s idle = waiter_took s (Buffers.take_next s.buffers)
  waiter_step s (waits ch sender r) = s
  waiter_step s (ready sender r) = delivered (record s { waiter = idle }) sender r

  unfoldable pub run_waiter : SequencePaxos T S → SequencePaxos T S
  run_waiter s = waiter_step s s.waiter
