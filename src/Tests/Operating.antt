-- ===== src/Tests/Operating.antt =====
-- The theorems on the loop and the network of a server, at a concrete server.
use omnipaxos_kv_project.Prelude.{
  ℕ, ◌≤◌, ◌≡◌, refl, inl, inr, Option, none, some, List, [], ◌∷◌, String, true, arith, length,
}
use omnipaxos_kv_project.Prelude.Assoc
use omnipaxos_kv_project.Common.{Command, KvCommand, ClientMessage}
use omnipaxos_kv_project.Server.Network
use omnipaxos_kv_project.Server.Network.{
  Network, NewConnection, to_peer, to_client, new_peer, new_client, all_connected, ready,
  initialize_connections,
}
use omnipaxos_kv_project.Server.Network.Connecting.{initialize_connections-ready}
use omnipaxos_kv_project.Server.Configs.{OmniPaxosKvConfig}
use omnipaxos_kv_project.Server.Loop.{OmniPaxosServer, handle_each_client_message, send_acks}
use omnipaxos_kv_project.Clock.{new_deadline}
use omnipaxos_kv_project.SequencePaxos.{SequencePaxos, Waiter}
use omnipaxos_kv_project.SequencePaxos.Handlers
use omnipaxos_kv_project.OmniPaxos
use omnipaxos_kv_project.OmniPaxos.{take_client_outgoing_messages, take_outgoing_messages}
use omnipaxos_kv_project.Server.Loop
use omnipaxos_kv_project.Server.Loop.{handle_decided_entries}
use omnipaxos_kv_project.Server.Sending.{respond}
use omnipaxos_kv_project.Server.Execution.{IsView, after_all, responses}
use omnipaxos_kv_project.Server.Appending.{
  proposed, replica_of, numbered, handle_each_client_message-proposed,
}
use omnipaxos_kv_project.Server.Deciding.{handle_decided_entries-IsView}
use omnipaxos_kv_project.Server.Acknowledging.{SoundServer, acks_of, delivered}
use omnipaxos_kv_project.Server.Running.{
  Event, selects, advances, client, runs, waiter_runs, Running, at, selecting, run,
}
use omnipaxos_kv_project.Server.Serving.{send_acks-run}
use omnipaxos_kv_project.Tests.Replication.{internal-IsConsistent}
use omnipaxos_kv_project.Tests.Serving.{nothing, nothing-IsView}
use omnipaxos_kv_project.Tests.{command, server, leading_replica, clock, hashing}

abbrev addresses : List (ℕ × String)
addresses = (2, "two") ∷ (3, "three") ∷ []

abbrev arrivals : List NewConnection
arrivals = to_client (new_client 1) ∷ to_peer (new_peer 3) ∷ to_peer (new_peer 2) ∷ []

initialize_connections-ready_example :
    (n : Network) × (initialize_connections 1 (Network.new addresses) arrivals ≡ ready n)
    × (all_connected n.peer_connections ≡ true)
    × (1 ≤ length n.client_connections)
unfolding Network.new Assoc.get Assoc.insert
initialize_connections-ready_example =
    initialize_connections-ready 1 addresses arrivals ((λ e. omega arith, tt), (tt, tt))
      ((1, refl), ((0, refl), tt)) (inr (inl refl), (inl refl, tt)) (refl, tt) (ground arith)
      (ground arith)

abbrev config : OmniPaxosKvConfig
config = record {
  local = record {
    location = none;
    server_id = 1;
    listen_address = "0.0.0.0";
    listen_port = 8000;
    num_clients = 1;
    output_filepath = "out.json";
    clock = none;
  };
  cluster = record {
    nodes = 1 ∷ 2 ∷ 3 ∷ [];
    node_addrs = "one" ∷ "two" ∷ "three" ∷ [];
    initial_leader = 1;
    initial_flexible_quorum = none;
  };
}

abbrev network : Network
network = record {
  peers = 2 ∷ 3 ∷ [];
  peer_connections = some (new_peer 2) ∷ some (new_peer 3) ∷ [];
  client_connections = (1, new_client 1) ∷ [];
  max_client_id = 1;
}

abbrev kv_server : OmniPaxosServer ℕ
kv_server = record {
  id = 1;
  private_command_id = 0;
  database = [];
  network = network;
  omnipaxos = server;
  current_decided_idx = 0;
  peers = 2 ∷ 3 ∷ [];
  config = config;
}

abbrev messages : List (ℕ × ClientMessage)
messages =
    (1, ClientMessage.append 7 (KvCommand.put "key" "value"))
    ∷ (1, ClientMessage.ack (command 1 10) 1)
    ∷ (2, ClientMessage.append 8 (KvCommand.get "key"))
    ∷ []

handle_each_client_message-proposed_example :
    (s' : OmniPaxosServer ℕ) × (handle_each_client_message kv_server messages ≡ some s')
    × (s'.private_command_id ≡ 2)
    × (proposed (replica_of s').tasks ≡ numbered 1 (new_deadline clock) 0 messages)
handle_each_client_message-proposed_example =
    handle_each_client_message-proposed kv_server messages refl (ground arith)

handle_decided_entries-IsView_example :
    (s' : OmniPaxosServer ℕ) × (handle_decided_entries kv_server ≡ some s')
    × (s'.current_decided_idx ≡ 1)
    × IsView s'.database (after_all nothing (command 1 10 ∷ []))
    × (s'.network ≡ respond network (responses 1 nothing (command 1 10 ∷ [])))
    × (s'.omnipaxos ≡ server)
handle_decided_entries-IsView_example =
    handle_decided_entries-IsView kv_server nothing (internal-IsConsistent 1) (ground arith)
      (ground arith) (ground arith) refl nothing-IsView

-- While the handler of a client's message is at work, the waiter sends a request to its proposal,
-- which appends it and pushes its acknowledgement; then the handler gets to its sends.
abbrev happenings : List Event
happenings =
    selects (client ((1, ClientMessage.append 7 (KvCommand.put "key" "value")) ∷ []))
    ∷ advances
    ∷ waiter_runs
    ∷ runs 1 0
    ∷ advances
    ∷ runs 1 0
    ∷ advances
    ∷ []

abbrev waiting_replica : SequencePaxos Command ℕ
waiting_replica = record leading_replica {
  waiting = (0, some none) ∷ [];
  waiter = Waiter.ready (some 0) (command 3 30);
  next_channel = 1;
}

abbrev first : Running ℕ
first =
    at (record kv_server { omnipaxos = record server { seq_paxos = waiting_replica } }) true
      selecting

abbrev or_same : Running ℕ → Option (Running ℕ) → Running ℕ
or_same r none = r
or_same r (some r') = r'

abbrev final : Running ℕ
final = or_same first (run hashing first happenings)

send_acks-run_example :
    let s = final.server in
    SoundServer hashing s
    × (s' : OmniPaxosServer ℕ) × (send_acks s ≡ some s')
    × (s'.network ≡ delivered s.network (acks_of s.omnipaxos.seq_paxos.outgoing_clients))
    × (s'.omnipaxos.seq_paxos.outgoing_clients ≡ [])
unfolding run Loop.handle_client_message OmniPaxos.append Handlers.append
send_acks-run_example =
    send_acks-run hashing first final happenings
      (record {
        unbatched = ground arith;
        flushed = refl;
        accepted = refl;
        justified = tt;
        pending = tt;
      })
      refl
