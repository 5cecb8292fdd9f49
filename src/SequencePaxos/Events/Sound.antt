-- ===== src/SequencePaxos/Events/Sound.antt =====
-- Every event keeps the acknowledgements of a replica true of its log.
use omnipaxos_kv_project.Prelude.{
  ℕ, zero, suc, Option, none, some, List, [], ◌∷◌, inl, inr, Bool, true, false, All, Bool-cases,
  ◌||◌, ◌==◌,
}
use omnipaxos_kv_project.Prelude.Assoc
use omnipaxos_kv_project.Prelude.Assoc.{nat_eq}
use omnipaxos_kv_project.Ballot
use omnipaxos_kv_project.Ballot.{Ballot}
use omnipaxos_kv_project.Buffers
use omnipaxos_kv_project.Clock
use omnipaxos_kv_project.Request.{Request}
use omnipaxos_kv_project.Messages.{PaxosMsg, confirm, new_deadline, sync_req, sync_answer}
use omnipaxos_kv_project.Storage.{StopSign}
use omnipaxos_kv_project.Storage.Memory.{Hashing}
use omnipaxos_kv_project.SequencePaxos.{
  SequencePaxos, Speculation, Task, propose, append_released, push_ack, free, decide, answer,
  reply_time, sync_with_master, await_time, Waiter, idle, waits, ready, Role, follower, leader,
}
use omnipaxos_kv_project.SequencePaxos.Tasks.{
  run_task, tell_peers, waiter_took, resume, delivered, waiter_step, run_waiter, clock_tick,
  run_await,
}
use omnipaxos_kv_project.SequencePaxos.Handlers.{
  Execute, handle, handle_msg, handle_execution, spawn, append, append_unless, propose_entry,
  take_outgoing_msgs, take_outgoing_client_msgs,
}
use omnipaxos_kv_project.SequencePaxos.Leading.{handle_leader, reconnected, get_promise}
use omnipaxos_kv_project.SequencePaxos.Events.{
  Event, runs, waiter_runs, ticks, appends, receives, leads, reconnects, sends, sends_clients,
  run_picked, pick, step, run,
}
use omnipaxos_kv_project.SequencePaxos.Events.Acks.{
  IsSound, IsPending, append-appended, spawned-IsSound, pushed-IsSound, appended-IsSound,
  led-IsSound, decided-IsSound,
}

-- What holds of all holds of the one that is picked and of the rest.
abbrev Picked : {A : Type 0} → (A → Type 0) → Option (A × List A) → Type 0
Picked P none = Unit
Picked P (some (x, xs)) = P x × All P xs

pick-Picked : {A : Type 0} (P : A → Type 0) (xs : List A) (i : ℕ) → All P xs → Picked P (pick xs i)
pick-Picked P [] i h = tt
pick-Picked P (x ∷ xs) zero h = h
pick-Picked P (x ∷ xs) (suc i) (here, there) = from (pick xs i) (pick-Picked P xs i there)
  where
    from :
        (o : Option (_ × List _))
        → Picked P o
        → Picked P (elim o [ none ↦ none | some (y, ys) ↦ some (y, x ∷ ys) ])
    from none j = tt
    from (some (y, ys)) (j, js) = (j, (here, js))

module _ {T S : Type 0} ⦃q : Request T⦄ (h : Hashing T) where
  abbrev pub Sound : SequencePaxos T S → Type 0
  Sound s = IsSound h s.internal_storage s.outgoing_clients s.tasks

  spawn-Sound :
      (s : SequencePaxos T S) (t : Task T)
      → IsPending h s.internal_storage.storage.log t
      → Sound s
      → Sound (spawn s t)
  spawn-Sound s t j k = spawned-IsSound h s.internal_storage s.outgoing_clients s.tasks t j k

  tell_peers-Sound :
      (s : SequencePaxos T S) (id : ℕ) (o : Option ℕ) → Sound s → Sound (tell_peers h s id o)
  tell_peers-Sound s id none k = k
  tell_peers-Sound s id (some d) k = k

  run_await-Sound :
      (s : SequencePaxos T S) (rtt : ℕ) (ts : List ℕ) → Sound s → Sound (run_await h s rtt ts)
  run_await-Sound s rtt [] k = spawn-Sound s await_time tt k
  run_await-Sound s rtt (t ∷ ts) k = k

  run_task-Sound :
      (s : SequencePaxos T S) (t : Task T) (rtt : ℕ)
      → IsPending h s.internal_storage.storage.log t
      → Sound s
      → Sound (run_task h s t rtt)
  unfolding run_task
  run_task-Sound s (propose entry im_leader speculation) rtt j k =
      tell_peers-Sound _ (q.get_id entry) _ k
  run_task-Sound s (append_released r spec) rtt j k =
      rw (append-appended h s.internal_storage r k.unbatched k.flushed)
        (appended-IsSound h s.internal_storage s.outgoing_clients s.tasks r spec k)
  run_task-Sound s (push_ack r hash spec idx) rtt j k =
      pushed-IsSound h s.internal_storage s.outgoing_clients s.tasks r hash idx (q.client_id r)
        s.pid spec j k
  run_task-Sound s (free id d) rtt j k = k
  run_task-Sound s (decide idx) rtt j k =
      decided-IsSound h s.internal_storage s.outgoing_clients s.tasks idx k
  run_task-Sound s (answer t) rtt j k = k
  run_task-Sound s (reply_time to) rtt j k = k
  run_task-Sound s sync_with_master rtt j k = elim (Bool-cases (s.clock.master == 1)) [
    | inl e ↦ rw e k
    | inr e ↦ rw e (spawn-Sound s await_time tt k)
  ]
  run_task-Sound s await_time rtt j k = run_await-Sound s rtt s.master_times k

  resume-Sound :
      (s : SequencePaxos T S) (r : T) (o : Option Speculation) → Sound s → Sound (resume h s r o)
  resume-Sound s r none k = k
  resume-Sound s r (some spec) k = spawn-Sound s (append_released r spec) tt k

  delivered-Sound :
      (s : SequencePaxos T S) (o : Option ℕ) (r : T) → Sound s → Sound (delivered h s o r)
  delivered-Sound s none r k = k
  delivered-Sound s (some ch) r k =
      resume-Sound (record s { waiting = Assoc.remove s.waiting ch }) r (Assoc.get s.waiting ch) k

  waiter_took-Sound :
      (s : SequencePaxos T S) (o : Option (Buffers.Buffers T × Option ℕ × T))
      → Sound s
      → Sound (waiter_took h s o)
  waiter_took-Sound s none k = k
  waiter_took-Sound s (some (b, sender, r)) k = k

  waiter_step-Sound : (s : SequencePaxos T S) (w : Waiter T) → Sound s → Sound (waiter_step h s w)
  waiter_step-Sound s idle k = waiter_took-Sound s (Buffers.take_next s.buffers) k
  waiter_step-Sound s (waits ch sender r) k = k
  waiter_step-Sound s (ready sender r) k = delivered-Sound (record s { waiter = idle }) sender r k

  run_picked-Sound :
      (s : SequencePaxos T S) (i rtt : ℕ) → Sound s → Sound (run_picked h s (pick s.tasks i) rtt)
  run_picked-Sound s i rtt k = from (pick s.tasks i) (pick-Picked _ s.tasks i k.pending)
    where
      from :
          (o : Option (Task T × List (Task T)))
          → Picked (IsPending h s.internal_storage.storage.log) o
          → Sound (run_picked h s o rtt)
      from none j = k
      from (some (t, rest)) (j, js) =
          run_task-Sound (record s { tasks = rest }) t rtt j
            (record {
              unbatched = k.unbatched;
              flushed = k.flushed;
              accepted = k.accepted;
              justified = k.justified;
              pending = js;
            })

  clock_tick-Sound : (s : SequencePaxos T S) (coin : Bool) → Sound s → Sound (clock_tick h s coin)
  unfolding clock_tick
  clock_tick-Sound s coin k = elim (Bool-cases (Clock.tick s.clock coin).2) [
    | inl e ↦ rw e (spawn-Sound s sync_with_master tt k)
    | inr e ↦ rw e k
  ]

  handle_leader-Sound : (s : SequencePaxos T S) (n : Ballot) → Sound s → Sound (handle_leader s n)
  unfolding handle_leader
  handle_leader-Sound s n k =
      elim (Bool-cases (Ballot.le n s.leader_state.n_leader || Ballot.le n (get_promise s))) [
        | inl old ↦ rw old k
        | inr new ↦ elim (Bool-cases (s.pid == n.pid)) [
          | inl mine ↦
              rw (new, mine) (led-IsSound h s.internal_storage s.outgoing_clients s.tasks n k)
          | inr other ↦ rw (new, other) k
        ]
      ]

  reconnected-Sound : (s : SequencePaxos T S) (pid : ℕ) → Sound s → Sound (reconnected s pid)
  unfolding reconnected
  reconnected-Sound s pid k = elim (Bool-cases (pid == s.pid)) [
    | inl me ↦ rw me k
    | inr peer ↦ elim (Bool-cases (pid == (get_promise s).pid)) [
      | inl led ↦ rw (peer, led) k
      | inr other ↦ rw (peer, other) k
    ]
  ]

module _ {T S D : Type 0} ⦃q : Request T⦄ (h : Hashing T) (e : Execute D T) where
  handle_execution-Sound :
      (r : Role) (s : SequencePaxos T S) (db : D) (c : T) (idx : ℕ)
      → Sound h s
      → Sound h (handle_execution e r s db c idx).0
  handle_execution-Sound follower s db c idx k = spawn-Sound h s (decide idx) tt k
  handle_execution-Sound leader s db c idx k = spawn-Sound h s (decide idx) tt k

  handle_msg-Sound :
      (s : SequencePaxos T S) (db : D) (from : ℕ) (m : PaxosMsg T)
      → Sound h s
      → Sound h (handle_msg e s db from m).0
  handle_msg-Sound s db from (PaxosMsg.ack r hash speculation idx) k = k
  handle_msg-Sound s db from (confirm c idx) k = handle_execution-Sound s.role s db c idx k
  handle_msg-Sound s db from (new_deadline id d) k = spawn-Sound h s (free id d) tt k
  handle_msg-Sound s db from (sync_answer t) k = spawn-Sound h s (answer t) tt k
  handle_msg-Sound s db from sync_req k = spawn-Sound h s (reply_time from) tt k

  propose_entry-Sound :
      (r : Role) (s : SequencePaxos T S) (db : D) (entry : T)
      → Sound h s
      → Sound h (propose_entry e r s db entry).0
  propose_entry-Sound follower s db entry k = spawn-Sound h s (propose entry false none) tt k
  propose_entry-Sound leader s db entry k =
      spawn-Sound h s (propose entry true (some (e db entry).1)) tt k

  append_unless-Sound :
      (o : Option StopSign) (s : SequencePaxos T S) (db : D) (entry : T)
      → Sound h s
      → Sound h (append_unless e o s db entry).0
  append_unless-Sound none s db entry k = propose_entry-Sound s.role s db entry k
  append_unless-Sound (some ss) s db entry k = k

  -- Every event keeps all acknowledgements that are to be sent true of the log.
  pub step-Sound :
      (s : SequencePaxos T S) (db : D) (event : Event T)
      → Sound h s
      → Sound h (step h e (s, db) event).0
  unfolding step handle append run_waiter take_outgoing_msgs take_outgoing_client_msgs
  step-Sound s db (runs i rtt) k = run_picked-Sound h s i rtt k
  step-Sound s db waiter_runs k = waiter_step-Sound h s s.waiter k
  step-Sound s db (ticks coin) k = clock_tick-Sound h s coin k
  step-Sound s db (appends entry) k =
      append_unless-Sound s.internal_storage.state_cache.stopsign s db entry k
  step-Sound s db (receives m) k = handle_msg-Sound s db m.from m.msg k
  step-Sound s db (leads n) k = handle_leader-Sound h s n k
  step-Sound s db (reconnects pid) k = reconnected-Sound h s pid k
  step-Sound s db sends k = k
  step-Sound s db sends_clients k = record {
    unbatched = k.unbatched;
    flushed = k.flushed;
    accepted = k.accepted;
    justified = tt;
    pending = k.pending;
  }

  -- From a replica that takes no batches, has an empty batch, counts its accepted entries by the
  -- length of its log, and holds, for its clients and in its tasks, only such acknowledgements: after
  -- any calls and any steps of its tasks in any order, a released request being appended and its
  -- acknowledgement pushed at any later steps, the replica is such again. Each message that it holds
  -- for the clients is an acknowledgement, which carries the hash of a prefix of its log that ends
  -- with the acknowledged request, and the length of that prefix modulo 2 ^ 64.
  pub run-Sound :
      (s : SequencePaxos T S × D) (events : List (Event T))
      → Sound h s.0
      → Sound h (run h e s events).0
  unfolding run
  run-Sound s [] k = k
  run-Sound (s, db) (event ∷ events) k =
      run-Sound (step h e (s, db) event) events (step-Sound s db event k)
