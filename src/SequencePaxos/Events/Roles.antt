-- ===== src/SequencePaxos/Events/Roles.antt =====
-- Who leads: how the events change the role, the phase and the promise of a replica.
use omnipaxos_kv_project.Prelude.{
  ℕ, ◌≡◌, ◌≢◌, refl, inl, inr, Option, none, some, List, [], ◌∷◌, true, ◌==◌, arith, Bool-cases,
}
use omnipaxos_kv_project.Prelude.Assoc
use omnipaxos_kv_project.Prelude.Assoc.{nat_eq}
use omnipaxos_kv_project.Ballot
use omnipaxos_kv_project.Ballot.{Ballot}
use omnipaxos_kv_project.Buffers
use omnipaxos_kv_project.Request.{Request}
use omnipaxos_kv_project.Storage.Cache
use omnipaxos_kv_project.Storage.Internal
use omnipaxos_kv_project.Storage.Memory.{Hashing}
use omnipaxos_kv_project.SequencePaxos.{
  SequencePaxos, Speculation, Task, propose, append_released, decide, sync_with_master, await_time,
  Waiter, idle, waits, ready, Role, follower, leader, Phase, prepare, recover,
}
use omnipaxos_kv_project.SequencePaxos.Tasks.{
  run_task, tell_peers, waiter_took, resume, acknowledge, delivered, waiter_step, run_await,
}
use omnipaxos_kv_project.SequencePaxos.Leading.{get_promise}
use omnipaxos_kv_project.SequencePaxos.Events.{run_picked}

-- What the leadership of a replica rests on
pub record Standing : Type 0 where
  pub role : Role
  pub phase : Phase
  pub pid : ℕ
  pub promise : Ballot
  pub n_leader : Ballot

-- The changes of a standing: none, the lead under a larger ballot of the own server, back to
-- following, and recovery.
pub data Move (a : Standing) : Standing → Type 0 where
  stays : Move a a
  takes_lead :
      (n : Ballot)
      → Ballot.lt a.promise n ≡ true
      → n.pid ≡ a.pid
      → Move a (record { role = leader; phase = prepare; pid = a.pid; promise = n; n_leader = n })
  follows : (n : Ballot) → n.pid ≢ a.pid → Move a (record a { role = follower })
  recovers : Move a (record a { role = follower; phase = recover })

module _ {T S : Type 0} where
  abbrev pub standing : SequencePaxos T S → Standing
  standing s = record {
    role = s.role;
    phase = s.phase;
    pid = s.pid;
    promise = get_promise s;
    n_leader = s.leader_state.n_leader;
  }

module _ {T S : Type 0} ⦃q : Request T⦄ (h : Hashing T) where
  tell_peers-standing :
      (s : SequencePaxos T S) (id : ℕ) (o : Option ℕ) → standing (tell_peers h s id o) ≡ standing s
  tell_peers-standing s id none = refl
  tell_peers-standing s id (some d) = refl

  run_await-standing :
      (s : SequencePaxos T S) (rtt : ℕ) (ts : List ℕ) → standing (run_await h s rtt ts) ≡ standing s
  run_await-standing s rtt [] = refl
  run_await-standing s rtt (t ∷ ts) = refl

  promise-append :
      (s : Internal.InternalStorage T S) (es : List T)
      → (Internal.append_entries_and_get_accepted_idx s es).0.state_cache.promise
        ≡ s.state_cache.promise
  unfolding Internal.append_entries_and_get_accepted_idx Cache.append_entries
  promise-append s es = ground arith

  acknowledge-standing :
      (s : SequencePaxos T S) (r : T) (spec : Speculation)
      (o : Internal.InternalStorage T S × Option ℕ)
      → o.0.state_cache.promise ≡ get_promise s
      → standing (acknowledge h s r spec o) ≡ standing s
  acknowledge-standing s r spec (storage, none) e = rw e
  acknowledge-standing s r spec (storage, some idx) e = rw e

  run_task-standing :
      (s : SequencePaxos T S) (t : Task T) (rtt : ℕ) → standing (run_task h s t rtt) ≡ standing s
  unfolding run_task Internal.set_decided_idx
  run_task-standing s (propose entry im_leader speculation) rtt =
      tell_peers-standing _ (q.get_id entry) _
  run_task-standing s (append_released r spec) rtt =
      acknowledge-standing s r spec
        (Internal.append_entries_and_get_accepted_idx s.internal_storage (r ∷ []))
        (promise-append s.internal_storage (r ∷ []))
  run_task-standing s (decide idx) rtt = refl
  run_task-standing s sync_with_master rtt = elim (Bool-cases (s.clock.master == 1)) [
    | inl e ↦ rw e
    | inr e ↦ rw e
  ]
  run_task-standing s await_time rtt = run_await-standing s rtt s.master_times
  run_task-standing s _ rtt = refl

  pub run_picked-standing :
      (s : SequencePaxos T S) (o : Option (Task T × List (Task T))) (rtt : ℕ)
      → standing (run_picked h s o rtt) ≡ standing s
  run_picked-standing s none rtt = refl
  run_picked-standing s (some (t, rest)) rtt = run_task-standing (record s { tasks = rest }) t rtt

  resume-standing :
      (s : SequencePaxos T S) (r : T) (o : Option Speculation)
      → standing (resume h s r o) ≡ standing s
  resume-standing s r none = refl
  resume-standing s r (some spec) = refl

  delivered-standing :
      (s : SequencePaxos T S) (o : Option ℕ) (r : T) → standing (delivered h s o r) ≡ standing s
  delivered-standing s none r = refl
  delivered-standing s (some ch) r =
      resume-standing (record s { waiting = Assoc.remove s.waiting ch }) r (Assoc.get s.waiting ch)

  waiter_took-standing :
      (s : SequencePaxos T S) (o : Option (Buffers.Buffers T × Option ℕ × T))
      → standing (waiter_took h s o) ≡ standing s
  waiter_took-standing s none = refl
  waiter_took-standing s (some (b, sender, r)) = refl

  pub waiter_step-standing :
      (s : SequencePaxos T S) (w : Waiter T) → standing (waiter_step h s w) ≡ standing s
  waiter_step-standing s idle = waiter_took-standing s (Buffers.take_next s.buffers)
  waiter_step-standing s (waits ch sender r) = refl
  waiter_step-standing s (ready sender r) = delivered-standing (record s { waiter = idle }) sender r
