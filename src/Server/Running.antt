-- ===== src/Server/Running.antt =====
-- The loops of src/server/server.rs: `establish_initial_leader`, then the main loop of `run`. What
-- `select!` takes next is an event; the messages of an event are those that `recv_many` received. The
-- handler of an arm goes on step by step, from one message to the next and from one lock of the
-- replica's shared data to the next, and the replica's tasks can run between any two steps. The file
-- that `save_output` writes before is left out.
use omnipaxos_kv_project.Prelude.{
  ◌>>=◌, ℕ, Option, none, some, List, [], ◌∷◌, Bool, true, false, ltb, ◌==◌, ◌||◌, if◌then◌else◌,
}
use omnipaxos_kv_project.Storage.Memory.{Hashing}
use omnipaxos_kv_project.SequencePaxos.Events
use omnipaxos_kv_project.Common.{
  Command, command_request, ClusterMessage, omni_paxos_message, leader_start_signal, ClientMessage,
}
use omnipaxos_kv_project.OmniPaxos
use omnipaxos_kv_project.OmniPaxos.{get_current_leader, try_become_leader}
use omnipaxos_kv_project.Server.Loop.{
  OmniPaxosServer, execute, handle_client_message, incoming, decided_idx, decide_to, send_to_peers,
  send_acks, send_cluster_start_signals, send_client_start_signals,
}

-- A tick comes with the start time of the experiment, two seconds after it.
pub data Selected : Type 0 where
  tick : ℕ → Selected
  cluster : List (ℕ × ClusterMessage) → Selected
  client : List (ℕ × ClientMessage) → Selected

-- Where the loop stands: at `select!`, in `handle_client_messages` or `handle_cluster_messages`
-- with the messages that are left and whether a start signal was received, at the two locks of
-- `handle_decided_entries`, or at the two of `send_outgoing_msgs` with whether the loop of
-- `establish_initial_leader` then ends.
pub data Stage : Type 0 where
  selecting : Stage
  in_client_messages : List (ℕ × ClientMessage) → Stage
  in_cluster_messages : List (ℕ × ClusterMessage) → Bool → Stage
  deciding : List (ℕ × ClusterMessage) → Bool → Stage
  reading : ℕ → List (ℕ × ClusterMessage) → Bool → Stage
  sending : Bool → Stage
  sending_acks : Bool → Stage

-- `selects` takes an arm, `advances` is a step of its handler. Beside the loop run the tasks of the
-- replica: one that it spawned, its buffers' waiter, and its clock.
pub data Event : Type 0 where
  selects : Selected → Event
  advances : Event
  runs : ℕ → ℕ → Event
  waiter_runs : Event
  ticks : Bool → Event

-- `led` says that the initial leader is established, so that the main loop runs.
pub record Running (S : Type 0) : Type 0 where
  pub server : OmniPaxosServer S
  pub led : Bool
  pub stage : Stage

abbrev pub leads : ℕ → Option (ℕ × Bool) → Bool
leads id none = false
leads id (some (curr_leader, is_accept)) = curr_leader == id

module _ {S : Type 0} where
  abbrev pub at : OmniPaxosServer S → Bool → Stage → Running S
  at s led stage = record { server = s; led = led; stage = stage }

  -- The tick of `establish_initial_leader`
  unfoldable pub leader_tick : OmniPaxosServer S → ℕ → Running S
  leader_tick s start_time =
      let signalled =
        send_client_start_signals (send_cluster_start_signals s start_time) start_time in
      let attempted = record s { omnipaxos = try_become_leader s.omnipaxos } in
      if leads s.id (get_current_leader s.omnipaxos)
      then at signalled true selecting
      else at attempted false (sending false)

  -- An arm of either `select!`; in the first, the tick is taken by the initial leader only.
  abbrev pub select : OmniPaxosServer S → Bool → Selected → Running S
  select s true (tick start_time) =
      at (record s { omnipaxos = OmniPaxos.tick s.omnipaxos }) true (sending false)
  select s false (tick start_time) =
      if s.config.cluster.initial_leader == s.id
      then leader_tick s start_time
      else at s false selecting
  select s led (cluster messages) = at s led (in_cluster_messages messages false)
  select s led (client messages) = at s led (in_client_messages messages)

  abbrev pub select_at : OmniPaxosServer S → Bool → Stage → Selected → Running S
  select_at s led selecting event = select s led event
  select_at s led stage event = at s led stage

  -- The next step of a handler
  abbrev pub advance : OmniPaxosServer S → Bool → Stage → Option (Running S)
  advance s led selecting = some (at s led selecting)
  advance s led (in_client_messages []) = some (at s led (sending false))
  advance s led (in_client_messages ((from, message) ∷ messages)) = do
    s' ← handle_client_message s from message
    some (at s' led (in_client_messages messages))
  advance s led (in_cluster_messages [] started) = some (at s led (sending started))
  advance s led (in_cluster_messages ((from, omni_paxos_message m) ∷ messages) started) =
      some (at (incoming s m) led (deciding messages started))
  advance s led (in_cluster_messages ((from, leader_start_signal time) ∷ messages) started) =
      some (at (send_client_start_signals s time) led (in_cluster_messages messages true))
  advance s led (deciding messages started) =
      if ltb s.current_decided_idx (decided_idx s)
      then some (at s led (reading (decided_idx s) messages started))
      else some (at s led (in_cluster_messages messages started))
  advance s led (reading new_decided_idx messages started) = do
    s' ← decide_to s new_decided_idx
    some (at s' led (in_cluster_messages messages started))
  advance s led (sending ends) = some (at (send_to_peers s) led (sending_acks ends))
  advance s led (sending_acks ends) = do s' ← send_acks s; some (at s' (led || ends) selecting)

  -- A step of the replica on its own
  abbrev pub background :
      Hashing Command → OmniPaxosServer S → Events.Event Command → OmniPaxosServer S
  background h s event =
      let (p, db) = Events.step h execute (s.omnipaxos.seq_paxos, s.database) event in
      record s { omnipaxos = record (s.omnipaxos) { seq_paxos = p }; database = db }

module _ {S : Type 0} (h : Hashing Command) where
  unfoldable pub step : Running S → Event → Option (Running S)
  unfolding leader_tick
  step r (selects event) = some (select_at r.server r.led r.stage event)
  step r advances = advance r.server r.led r.stage
  step r (runs i rtt) = some (record r { server = background h r.server (Events.runs i rtt) })
  step r waiter_runs = some (record r { server = background h r.server Events.waiter_runs })
  step r (ticks coin) = some (record r { server = background h r.server (Events.ticks coin) })

  -- `run`, as far as these events take it; none is a panic.
  unfoldable pub run : Running S → List Event → Option (Running S)
  unfolding step
  run r [] = some r
  run r (event ∷ events) = do r' ← step r event; run r' events
