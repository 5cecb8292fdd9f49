-- ===== src/Config.antt =====
-- The configurations of crates/custom-paxos/omnipaxos/src/omni_paxos.rs and their validation
-- (with errors.rs), and `Quorum` of util.rs.
pub mod Quorum
use Prim.Native.Nat.{◌%◌, ◌^◌}
use omnipaxos_kv_project.Prelude.{
  ℕ, ◌+◌, Option, none, some, List, [], ◌∷◌, Bool, true, false, not, String, ◌&&◌, ltb, leb, ◌==◌,
  length, if◌then◌else◌,
}
use omnipaxos_kv_project.Prelude.Words.{add64}

pub record FlexibleQuorum : Type 0 where
  pub read_quorum_size : ℕ
  pub write_quorum_size : ℕ

pub record ClusterConfig : Type 0 where
  pub configuration_id : ℕ
  pub nodes : List ℕ
  pub flexible_quorum : Option FlexibleQuorum

pub record ServerConfig : Type 0 where
  pub pid : ℕ
  pub election_tick_timeout : ℕ
  pub resend_message_tick_timeout : ℕ
  pub buffer_size : ℕ
  pub batch_size : ℕ
  pub flush_batch_tick_timeout : ℕ
  pub leader_priority : ℕ

-- `Default for ServerConfig`, with the constants of util.rs
abbrev pub default_server_config : ServerConfig
default_server_config = record {
  pid = 0;
  election_tick_timeout = 1;
  resend_message_tick_timeout = 100;
  buffer_size = 100_000;
  batch_size = 1;
  flush_batch_tick_timeout = 200;
  leader_priority = 0;
}

pub record OmniPaxosConfig : Type 0 where
  pub cluster_config : ClusterConfig
  pub server_config : ServerConfig

-- `ConfigError`; the variants of reading a TOML file do not arise in a validation.
pub data ConfigError : Type 0 where
  invalid_config : String → ConfigError

pub data Validation : Type 0 where
  valid : Validation
  invalid : ConfigError → Validation

-- `valid_config!` returns from the function that it stands in.
infixl 5 ◌>>◌
abbrev pub ◌>>◌ : Validation → Validation → Validation
valid >> next = next
invalid e >> next = invalid e

abbrev pub valid_config : Bool → String → Validation
valid_config true message = valid
valid_config false message = invalid (invalid_config message)

unfoldable pub validate_quorum : ℕ → Option FlexibleQuorum → Validation
validate_quorum num_nodes none = valid
validate_quorum num_nodes (some q) = do
  valid_config (ltb num_nodes (add64 q.read_quorum_size q.write_quorum_size))
      "The quorums must overlap i.e., the sum of their sizes must exceed the # of nodes"
  valid_config (leb 2 q.read_quorum_size && leb q.read_quorum_size num_nodes)
      "Read quorum must be in range 2 to # of nodes in the cluster"
  valid_config (leb 2 q.write_quorum_size && leb q.write_quorum_size num_nodes)
      "Write quorum must be in range 2 to # of nodes in the cluster"
  valid_config (leb q.write_quorum_size q.read_quorum_size)
      "Read quorum size must be >= the write quorum size."

-- `ClusterConfig::validate`
unfoldable pub validate_cluster : ClusterConfig → Validation
unfolding validate_quorum
validate_cluster c = do
  let num_nodes = length c.nodes
  valid_config (ltb 1 num_nodes) "Need more than 1 node"
  valid_config (not (c.configuration_id == 0)) "Configuration ID cannot be 0"
  validate_quorum num_nodes c.flexible_quorum

-- `ServerConfig::validate`
unfoldable pub validate_server : ServerConfig → Validation
validate_server s = do
  valid_config (not (s.pid == 0)) "Server pid cannot be 0"
  valid_config (not (s.buffer_size == 0)) "Buffer size must be greater than 0"
  valid_config (not (s.batch_size == 0)) "Batch size must be greater than 0"
  valid_config (not (s.election_tick_timeout == 0)) "Election tick timeout must be greater than 0"
  valid_config (not (s.resend_message_tick_timeout == 0))
      "Resend message tick timeout must be greater than 0"

abbrev pub contains : List ℕ → ℕ → Bool
contains [] x = false
contains (y ∷ ys) x = if y == x then true else contains ys x

-- `OmniPaxosConfig::validate`
unfoldable pub validate : OmniPaxosConfig → Validation
validate c = do
  validate_cluster c.cluster_config
  validate_server c.server_config
  valid_config (contains c.cluster_config.nodes c.server_config.pid)
      "Nodes must include own server pid"
