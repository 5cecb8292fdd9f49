-- ===== src/SequencePaxos.antt =====
-- crates/custom-paxos/omnipaxos/src/sequence_paxos/mod.rs: the state of a replica. What the source
-- leaves to spawned tasks is in `tasks`, and the proposals that wait for their deadline are in
-- `waiting`, under the channels that their notifiers send on. A channel is known by its number.
pub mod Tasks
pub mod Handlers
pub mod Leading
pub mod Synchronising
pub mod Events
use Prim.Native.Nat.{max}
use omnipaxos_kv_project.Prelude.{ℕ, ◌+◌, Option, none, some, List, [], ◌∷◌, Bool, String, length}
use omnipaxos_kv_project.Prelude.Assoc.{Assoc}
use omnipaxos_kv_project.Ballot
use omnipaxos_kv_project.Ballot.{Ballot}
use omnipaxos_kv_project.Messages.{Message}
use omnipaxos_kv_project.Config.{FlexibleQuorum}
use omnipaxos_kv_project.Config.Quorum
use omnipaxos_kv_project.Config.Quorum.{Quorum}
use omnipaxos_kv_project.Clock.{ClockState}
use omnipaxos_kv_project.Buffers
use omnipaxos_kv_project.Buffers.{Buffers}
use omnipaxos_kv_project.Storage.Memory.{MemoryStorage}
use omnipaxos_kv_project.Storage.Internal
use omnipaxos_kv_project.Storage.Internal.{InternalStorage, or_default, set_promise}

pub data Role : Type 0 where
  follower leader : Role

pub data Phase : Type 0 where
  prepare accept recover no_phase : Phase

-- `LeaderState` of util.rs
pub record LeaderState : Type 0 where
  pub n_leader : Ballot
  pub max_pid : ℕ
  pub quorum : Quorum

-- What a leader's speculation gave, in the form of `PaxosMsg::Ack`
abbrev pub Speculation : Type 0
Speculation = Option (Option (Option String))

-- The bodies of the spawned tasks, with what they capture
pub data Task (T : Type 0) : Type 0 where
  -- `handle_new_proposal`: insert the entry, and wait for its deadline
  propose : T → Bool → Speculation → Task T
  -- `handle_new_proposal`, after its deadline: append the released request under the lock of the
  -- storage, then push the acknowledgement under the lock of the messages
  append_released : T → Speculation → Task T
  push_ack : T → ℕ → Speculation → ℕ → Task T
  -- `handle_new_deadline`
  free : ℕ → ℕ → Task T
  -- `handle_execution`
  decide : ℕ → Task T
  -- `handle_resync_answer`
  answer : ℕ → Task T
  -- `handle_resync_request`
  reply_time : ℕ → Task T
  -- `sync_with_master`, before and after its wait
  sync_with_master : Task T
  await_time : Task T

-- Where the loop of `Buffers::waiter` stands: it has a request and waits for the clock to notify
-- the channel, or is about to send the request to its notifier.
pub data Waiter (T : Type 0) : Type 0 where
  idle : Waiter T
  waits : ℕ → Option ℕ → T → Waiter T
  ready : Option ℕ → T → Waiter T

pub record SequencePaxos (T S : Type 0) : Type 0 where
  pub internal_storage : InternalStorage T S
  pub buffers : Buffers T
  pub clock : ClockState
  pub pid : ℕ
  pub peers : List ℕ
  pub role : Role
  pub phase : Phase
  pub outgoing : List (Message T)
  pub outgoing_clients : List (Message T)
  pub leader_state : LeaderState
  pub latest_accepted_meta : Option (Ballot × ℕ)
  pub tasks : List (Task T)
  pub waiting : Assoc ℕ Speculation
  pub waiter : Waiter T
  pub master_times : List ℕ
  pub next_channel : ℕ

pub record SequencePaxosConfig : Type 0 where
  pub pid : ℕ
  pub peers : List ℕ
  pub buffer_size : ℕ
  pub batch_size : ℕ
  pub flexible_quorum : Option FlexibleQuorum

max_of : ℕ → List ℕ → ℕ
max_of m [] = m
max_of m (p ∷ ps) = max_of (max m p) ps

abbrev pub initial_phase : Option Ballot → Phase
initial_phase none = no_phase
initial_phase (some b) = recover

-- `SequencePaxos::with`; a validated configuration has a peer, so its `unwrap` does not panic.
unfoldable pub with :
    {T S : Type 0} → SequencePaxosConfig → MemoryStorage T S → ClockState → SequencePaxos T S
unfolding max_of
with config storage clock =
    let leader = or_default storage.n_prom in
    record {
      internal_storage = set_promise (Internal.with storage config.batch_size) leader;
      buffers = Buffers.new;
      clock = clock;
      pid = config.pid;
      peers = config.peers;
      role = follower;
      phase = initial_phase storage.n_prom;
      outgoing = [];
      outgoing_clients = [];
      leader_state = record {
        n_leader = leader;
        max_pid = max_of config.pid config.peers;
        quorum = Quorum.with config.flexible_quorum (length config.peers + 1);
      };
      latest_accepted_meta = none;
      tasks = [];
      waiting = [];
      waiter = idle;
      master_times = [];
      next_channel = 0;
    }
