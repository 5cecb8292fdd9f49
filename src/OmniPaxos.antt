-- ===== src/OmniPaxos.antt =====
-- `OmniPaxos` of crates/custom-paxos/omnipaxos/src/omni_paxos.rs, over its two parts, with
-- `LogicalClock` of util.rs.
pub mod Leadership
pub mod Timeouts
use omnipaxos_kv_project.Prelude.{
  ℕ, Option, none, some, List, [], ◌∷◌, ◌++◌, map, Bool, true, false, ◌==◌, if◌then◌else◌,
}
use omnipaxos_kv_project.Prelude.Words.{add32, add64}
use omnipaxos_kv_project.Ballot
use omnipaxos_kv_project.Ballot.{Ballot}
use omnipaxos_kv_project.Messages.{Message, sequence_paxos, ble}
use omnipaxos_kv_project.Config.{
  ClusterConfig, ServerConfig, ConfigError, OmniPaxosConfig, Validation, valid, invalid, validate,
  validate_cluster,
}
use omnipaxos_kv_project.Clock.{ClockState}
use omnipaxos_kv_project.Storage.{StorageResult, ok, ◌>>=◌, LogEntry, StopSign}
use omnipaxos_kv_project.Storage.Memory.{MemoryStorage}
use omnipaxos_kv_project.Storage.Internal.Read
use omnipaxos_kv_project.Storage.Internal.Read.{Bound, included, excluded}
use omnipaxos_kv_project.Election
use omnipaxos_kv_project.Election.{BallotLeaderElection, BleConfig, hb_timeout}
use omnipaxos_kv_project.SequencePaxos
use omnipaxos_kv_project.SequencePaxos.{SequencePaxos, SequencePaxosConfig, Phase, accept}
use omnipaxos_kv_project.SequencePaxos.Handlers
use omnipaxos_kv_project.SequencePaxos.Handlers.{
  Execute, ProposeErr, config_error, handle, take_outgoing_msgs, take_outgoing_client_msgs,
}
use omnipaxos_kv_project.SequencePaxos.Leading
use omnipaxos_kv_project.SequencePaxos.Leading.{get_promise, handle_leader}

pub record LogicalClock : Type 0 where
  pub time : ℕ
  pub timeout : ℕ

-- `LogicalClock::with`
abbrev pub with_timeout : ℕ → LogicalClock
with_timeout timeout = record { time = 0; timeout = timeout }

unfoldable pub tick_and_check_timeout : LogicalClock → LogicalClock × Bool
tick_and_check_timeout c =
    let time = add64 c.time 1 in
    if time == c.timeout then (record c { time = 0 }, true) else (record c { time = time }, false)

pub record OmniPaxos (T S : Type 0) : Type 0 where
  pub seq_paxos : SequencePaxos T S
  pub election : BallotLeaderElection
  pub election_clock : LogicalClock

-- `filter(|x| *x != pid)`
abbrev pub without : ℕ → List ℕ → List ℕ
without pid [] = []
without pid (x ∷ xs) = let rest = without pid xs in if x == pid then rest else x ∷ rest

abbrev pub peers_of : OmniPaxosConfig → List ℕ
peers_of c = without c.server_config.pid c.cluster_config.nodes

-- `From<OmniPaxosConfig> for BLEConfig`
abbrev pub ble_config : OmniPaxosConfig → BleConfig
ble_config c = record {
  configuration_id = c.cluster_config.configuration_id;
  pid = c.server_config.pid;
  peers = peers_of c;
  priority = c.server_config.leader_priority;
  flexible_quorum = c.cluster_config.flexible_quorum;
}

-- `From<OmniPaxosConfig> for SequencePaxosConfig`
abbrev pub sequence_paxos_config : OmniPaxosConfig → SequencePaxosConfig
sequence_paxos_config c = record {
  pid = c.server_config.pid;
  peers = peers_of c;
  buffer_size = c.server_config.buffer_size;
  batch_size = c.server_config.batch_size;
  flexible_quorum = c.cluster_config.flexible_quorum;
}

pub data Built (T S : Type 0) : Type 0 where
  built : OmniPaxos T S → Built T S
  refused : ConfigError → Built T S

-- `Phase::Accept`
abbrev pub is_accept : Phase → Bool
is_accept accept = true
is_accept _ = false

-- `Vec::pop` on what was read
abbrev pub last {ℓ} : {A : Type ℓ} → List A → Option A
last [] = none
last (x ∷ []) = some x
last (x ∷ y ∷ ys) = last (y ∷ ys)

abbrev pub pop_read {ℓ} : {A : Type ℓ} → Option (List A) → Option A
pop_read none = none
pop_read (some es) = last es

module _ {T S : Type 0} where
  abbrev pub build_validated :
      Validation → OmniPaxosConfig → MemoryStorage T S → ClockState → Built T S
  build_validated (invalid e) config storage clock = refused e
  build_validated valid config storage clock = built (record {
    seq_paxos = SequencePaxos.with (sequence_paxos_config config) storage clock;
    election = Election.with (ble_config config) storage.n_prom;
    election_clock = with_timeout config.server_config.election_tick_timeout;
  })

  unfoldable pub build : OmniPaxosConfig → MemoryStorage T S → ClockState → Built T S
  build config storage clock = build_validated (validate config) config storage clock

  -- `ClusterConfig::build_for_server`
  unfoldable pub build_for_server :
      ClusterConfig → ServerConfig → MemoryStorage T S → ClockState → Built T S
  unfolding build
  build_for_server c server_config storage clock =
      build (record { cluster_config = c; server_config = server_config }) storage clock

  unfoldable pub get_current_leader : OmniPaxos T S → Option (ℕ × Bool)
  get_current_leader o =
      let promised_pid = (get_promise o.seq_paxos).pid in
      if promised_pid == 0 then none else some (promised_pid, is_accept o.seq_paxos.phase)

  unfoldable pub take_outgoing_messages :
      OmniPaxos T S → List (Message T) → OmniPaxos T S × List (Message T)
  take_outgoing_messages o buffer =
      let (s, taken) = take_outgoing_msgs o.seq_paxos buffer in
      (
        record o { seq_paxos = s; election = record (o.election) { outgoing = [] } },
        taken ++ map (λ m. ble m) o.election.outgoing,
      )

  unfoldable pub take_client_outgoing_messages :
      OmniPaxos T S → List (Message T) → OmniPaxos T S × List (Message T)
  take_client_outgoing_messages o buffer =
      let (s, taken) = take_outgoing_client_msgs o.seq_paxos buffer in
      (record o { seq_paxos = s }, taken)

  unfoldable pub read : OmniPaxos T S → ℕ → StorageResult (Option (LogEntry T))
  read o idx = do
    let s = o.seq_paxos.internal_storage
    es ← Read.read s (included idx) (excluded (add64 idx 1))
    ok (pop_read es)

  -- The two bounds of the range
  unfoldable pub read_entries :
      OmniPaxos T S → Bound → Bound → StorageResult (Option (List (LogEntry T)))
  read_entries o from to = Read.read o.seq_paxos.internal_storage from to

  unfoldable pub is_reconfigured : OmniPaxos T S → Option StopSign
  is_reconfigured o = Handlers.is_reconfigured o.seq_paxos

  unfoldable pub read_decided_suffix :
      OmniPaxos T S → ℕ → StorageResult (Option (List (LogEntry T)))
  read_decided_suffix o from_idx = Read.read_decided_suffix o.seq_paxos.internal_storage from_idx

  abbrev pub reconfigure_validated :
      Validation → OmniPaxos T S → ClusterConfig → Option (List ℕ) → Option (ProposeErr T)
  reconfigure_validated (invalid e) o c metadata = some (config_error e c metadata)
  reconfigure_validated valid o c metadata = Handlers.reconfigure o.seq_paxos c metadata

  unfoldable pub reconfigure :
      OmniPaxos T S → ClusterConfig → Option (List ℕ) → Option (ProposeErr T)
  reconfigure o c metadata = reconfigure_validated (validate_cluster c) o c metadata

  unfoldable pub reconnected : OmniPaxos T S → ℕ → OmniPaxos T S
  reconnected o pid = record o { seq_paxos = Leading.reconnected o.seq_paxos pid }

  abbrev pub lead_if : Option Ballot → SequencePaxos T S → SequencePaxos T S
  lead_if none s = s
  lead_if (some n) s = handle_leader s n

  unfoldable pub election_timeout : OmniPaxos T S → OmniPaxos T S
  election_timeout o =
      let s = o.seq_paxos in
      let (election, elected) = hb_timeout o.election s.role s.phase (get_promise s) in
      record o { seq_paxos = lead_if elected s; election = election }

  unfoldable pub tick : OmniPaxos T S → OmniPaxos T S
  unfolding election_timeout
  tick o =
      let (clock, timed_out) = tick_and_check_timeout o.election_clock in
      let ticked = record o { election_clock = clock } in
      if timed_out then election_timeout ticked else ticked

  -- The ballot of `try_become_leader`: the own one, past the promise
  abbrev pub my_ballot : OmniPaxos T S → Ballot
  my_ballot o =
      let c = o.election.current_ballot in
      record {
        config_id = c.config_id;
        n = add32 (get_promise o.seq_paxos).n 1;
        priority = c.priority;
        pid = c.pid;
      }

  unfoldable pub try_become_leader : OmniPaxos T S → OmniPaxos T S
  try_become_leader o = record o { seq_paxos = handle_leader o.seq_paxos (my_ballot o) }

  abbrev pub set_priority : OmniPaxos T S → ℕ → OmniPaxos T S
  set_priority o p = record o { election = Election.set_priority o.election p }

module _ {T S D : Type 0} (e : Execute D T) where
  unfoldable pub handle_incoming : OmniPaxos T S → D → Message T → OmniPaxos T S × D
  handle_incoming o db (sequence_paxos p) =
      let (s, db') = handle e o.seq_paxos db p in (record o { seq_paxos = s }, db')
  handle_incoming o db (ble b) = (record o { election = Election.handle o.election b }, db)

  unfoldable pub append : OmniPaxos T S → D → T → OmniPaxos T S × D × Option (ProposeErr T)
  append o db entry =
      let (s, db', error) = Handlers.append e o.seq_paxos db entry in
      (record o { seq_paxos = s }, db', error)
