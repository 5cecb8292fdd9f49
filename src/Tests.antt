-- ===== src/Tests.antt =====
-- Concrete states of the program, at which its theorems are applied in the modules below.
pub mod Caching
pub mod Frequency
pub mod Replication
pub mod Leading
pub mod Queues
pub mod Proxying
pub mod Requesting
pub mod Serving
pub mod Persisting
pub mod Operating
use omnipaxos_kv_project.Prelude.{
  ℕ, ◌+◌, ◌*◌, none, some, List, [], ◌∷◌, Option, String, true, false,
}
use omnipaxos_kv_project.Ballot
use omnipaxos_kv_project.Ballot.{Ballot}
use omnipaxos_kv_project.Common.{Command, KvCommand, Hasher, command_hashing}
use omnipaxos_kv_project.Config.{ClusterConfig, FlexibleQuorum}
use omnipaxos_kv_project.Config.Quorum.{majority}
use omnipaxos_kv_project.Clock.{ClockState}
use omnipaxos_kv_project.Storage.Memory
use omnipaxos_kv_project.Storage.Memory.{Hashing, MemoryStorage}
use omnipaxos_kv_project.Storage.Cache.{StateCache}
use omnipaxos_kv_project.Storage.Internal.{InternalStorage}
use omnipaxos_kv_project.Election.{BallotLeaderElection}
use omnipaxos_kv_project.Messages.{HeartbeatReply}
use omnipaxos_kv_project.OmniPaxos.{OmniPaxos}
use omnipaxos_kv_project.Buffers
use omnipaxos_kv_project.SequencePaxos.{SequencePaxos, follower, leader, no_phase, prepare, idle}
use omnipaxos_kv_project.SequencePaxos.Handlers.{Execute}

abbrev pub command : ℕ → ℕ → Command
command id deadline = record {
  client_id = 1;
  coordinator_id = 1;
  id = id;
  private_id = id;
  deadline = deadline;
  kv_cmd = KvCommand.put "key" "value";
}

-- A hash that counts what is hashed
abbrev pub hasher : Hasher
hasher = record {
  State = ℕ;
  new = 0;
  write_id = λ state id. state * 10 + id;
  write_cmd = λ state cmd. state + 1;
  finish = λ state. state;
}

abbrev pub hashing : Hashing Command
hashing = command_hashing hasher

-- A database that counts the commands that it executed
abbrev pub counting : Execute ℕ Command
counting db c = (db + 1, none)

abbrev pub ballot : ℕ → ℕ → Ballot
ballot n pid = record { config_id = 1; n = n; priority = 0; pid = pid }

abbrev pub no_ballot : Ballot
no_ballot = Ballot.default

abbrev pub first_ballot : Ballot
first_ballot = ballot 1 1

abbrev pub second_ballot : Ballot
second_ballot = ballot 1 2

abbrev pub clock : ClockState
clock = record {
  master = 0;
  drift = 5;
  uncertainty = 5;
  sync_freq = 3;
  logical_time = 100;
  counter = 0;
  deadlines = 90 ∷ 120 ∷ 80 ∷ [];
  database = (90, 1) ∷ (80, 2) ∷ [];
}

-- The storage of a replica: two entries, of which `decided` are decided, with a batch size of 1
abbrev pub storage : ℕ → MemoryStorage Command ℕ
storage decided = record {
  log = command 1 10 ∷ command 2 20 ∷ [];
  n_prom = some no_ballot;
  acc_round = none;
  ld = decided;
  trimmed_idx = 0;
  compacted_idx = 0;
  snapshot = none;
  stopsign = none;
}

abbrev pub internal : ℕ → InternalStorage Command ℕ
internal decided = record {
  storage = storage decided;
  state_cache = record {
    batch_size = 1;
    batched_entries = [];
    promise = no_ballot;
    accepted_round = no_ballot;
    decided_idx = decided;
    accepted_idx = 2;
    compacted_idx = 0;
    stopsign = none;
  };
}

abbrev pub replica : SequencePaxos Command ℕ
replica = record {
  internal_storage = internal 1;
  buffers = Buffers.new;
  clock = clock;
  pid = 1;
  peers = 2 ∷ 3 ∷ [];
  role = follower;
  phase = no_phase;
  outgoing = [];
  outgoing_clients = [];
  leader_state = record { n_leader = no_ballot; max_pid = 3; quorum = majority 2 };
  latest_accepted_meta = none;
  tasks = [];
  waiting = [];
  waiter = idle;
  master_times = [];
  next_channel = 0;
}

abbrev pub leading_replica : SequencePaxos Command ℕ
leading_replica = record replica { role = leader; phase = prepare }

abbrev pub heartbeat : HeartbeatReply
heartbeat = record { round = 4; ballot = second_ballot; leader = second_ballot; happy = false }

-- A server that has heard in its round from one server, which is not happy
abbrev pub election : BallotLeaderElection
election = record {
  configuration_id = 1;
  pid = 1;
  peers = 2 ∷ 3 ∷ [];
  hb_round = 4;
  heartbeat_replies = heartbeat ∷ [];
  prev_replies = [];
  current_ballot = first_ballot;
  leader = first_ballot;
  happy = true;
  quorum = majority 2;
  outgoing = [];
}

abbrev pub server : OmniPaxos Command ℕ
server = record {
  seq_paxos = leading_replica;
  election = election;
  election_clock = record { time = 0; timeout = 1 };
}

abbrev pub cluster : ClusterConfig
cluster = record {
  configuration_id = 1;
  nodes = 1 ∷ 2 ∷ 3 ∷ 4 ∷ [];
  flexible_quorum = some (record { read_quorum_size = 3; write_quorum_size = 2 });
}
