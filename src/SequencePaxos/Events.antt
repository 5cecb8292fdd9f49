-- ===== src/SequencePaxos/Events.antt =====
-- What can happen to a replica, one event after another: the calls of the server's loop, and the
-- steps of the tasks in any order. An event comes with the choices that the code does not make:
-- which task runs, the random drift, the measured round trip.
pub mod Acks
pub mod Sound
pub mod Roles
pub mod Moves
use omnipaxos_kv_project.Prelude.{ℕ, zero, suc, Option, none, some, List, [], ◌∷◌, Bool}
use omnipaxos_kv_project.Ballot.{Ballot}
use omnipaxos_kv_project.Request.{Request}
use omnipaxos_kv_project.Messages.{PaxosMessage}
use omnipaxos_kv_project.Storage.Memory.{Hashing}
use omnipaxos_kv_project.SequencePaxos.{SequencePaxos, Task}
use omnipaxos_kv_project.SequencePaxos.Tasks.{run_task, run_waiter, clock_tick}
use omnipaxos_kv_project.SequencePaxos.Handlers.{
  Execute, handle, append, take_outgoing_msgs, take_outgoing_client_msgs,
}
use omnipaxos_kv_project.SequencePaxos.Leading.{handle_leader, reconnected}

pub data Event (T : Type 0) : Type 0 where
  -- the task at an index, with the round trip that a resync would measure
  runs : ℕ → ℕ → Event T
  waiter_runs : Event T
  ticks : Bool → Event T
  appends : T → Event T
  receives : PaxosMessage T → Event T
  leads : Ballot → Event T
  reconnects : ℕ → Event T
  sends sends_clients : Event T

abbrev pub pick : {A : Type 0} → List A → ℕ → Option (A × List A)
pick [] i = none
pick (x ∷ xs) zero = some (x, xs)
pick (x ∷ xs) (suc i) = elim (pick xs i) [ none ↦ none | some (y, ys) ↦ some (y, x ∷ ys) ]

module _ {T S : Type 0} ⦃q : Request T⦄ (h : Hashing T) where
  abbrev pub run_picked :
      SequencePaxos T S → Option (Task T × List (Task T)) → ℕ → SequencePaxos T S
  run_picked s none rtt = s
  run_picked s (some (t, rest)) rtt = run_task h (record s { tasks = rest }) t rtt

module _ {T S D : Type 0} ⦃q : Request T⦄ (h : Hashing T) (e : Execute D T) where
  unfoldable pub step : SequencePaxos T S × D → Event T → SequencePaxos T S × D
  step (s, db) (runs i rtt) = (run_picked h s (pick s.tasks i) rtt, db)
  step (s, db) waiter_runs = (run_waiter h s, db)
  step (s, db) (ticks coin) = (clock_tick h s coin, db)
  step (s, db) (appends entry) = let (s', db', error) = append e s db entry in (s', db')
  step (s, db) (receives m) = handle e s db m
  step (s, db) (leads n) = (handle_leader s n, db)
  step (s, db) (reconnects pid) = (reconnected s pid, db)
  step (s, db) sends = ((take_outgoing_msgs s []).0, db)
  step (s, db) sends_clients = ((take_outgoing_client_msgs s []).0, db)

  unfoldable pub run : SequencePaxos T S × D → List (Event T) → SequencePaxos T S × D
  run s [] = s
  run s (event ∷ events) = run (step s event) events
