-- ===== src/Server/Configs.antt =====
-- src/server/configs.rs, without the reading of files: the configuration of a server, and what it
-- makes of it for its replica and its clock.
use omnipaxos_kv_project.Prelude.{
  ℕ, ◌*◌, Option, none, some, List, [], ◌∷◌, String, ◌==◌, if◌then◌else◌,
}
use omnipaxos_kv_project.Config.{FlexibleQuorum, OmniPaxosConfig, default_server_config}
use omnipaxos_kv_project.Clock
use omnipaxos_kv_project.Clock.{ClockState}

pub record ClusterConfig : Type 0 where
  pub nodes : List ℕ
  pub node_addrs : List String
  pub initial_leader : ℕ
  pub initial_flexible_quorum : Option FlexibleQuorum

pub record ClockConfig : Type 0 where
  pub clock_uncertainty_us : ℕ
  pub clock_sync_interval_ms : ℕ

-- `default_clock_uncertainty_us` and `default_clock_sync_interval_ms`
abbrev pub default_clock_uncertainty_us : ℕ
default_clock_uncertainty_us = 10

abbrev pub default_clock_sync_interval_ms : ℕ
default_clock_sync_interval_ms = 1

pub record LocalConfig : Type 0 where
  pub location : Option String
  pub server_id : ℕ
  pub listen_address : String
  pub listen_port : ℕ
  pub num_clients : ℕ
  pub output_filepath : String
  pub clock : Option ClockConfig

pub record OmniPaxosKvConfig : Type 0 where
  pub local : LocalConfig
  pub cluster : ClusterConfig

-- `Into<OmniPaxosConfig> for OmniPaxosKVConfig`
unfoldable pub omni_paxos_config : OmniPaxosKvConfig → OmniPaxosConfig
omni_paxos_config c = record {
  cluster_config = record {
    configuration_id = 1;
    nodes = c.cluster.nodes;
    flexible_quorum = c.cluster.initial_flexible_quorum;
  };
  server_config = record default_server_config { pid = c.local.server_id };
}

-- `ClockConfig::from_env`, for the numbers that the two environment variables parse to
unfoldable pub from_env : Option ℕ → Option ℕ → Option ClockConfig
from_env (some uncertainty) (some sync_ms) =
    some (record { clock_uncertainty_us = uncertainty; clock_sync_interval_ms = sync_ms })
from_env (some uncertainty) none = none
from_env none sync_ms = none

-- The filter of `get_peers`
unfoldable pub others : ℕ → List ℕ → List ℕ
others node [] = []
others node (id ∷ ids) = let rest = others node ids in if id == node then rest else id ∷ rest

unfoldable pub get_peers : OmniPaxosKvConfig → ℕ → List ℕ
unfolding others
get_peers c node = others node c.cluster.nodes

-- `clock.clone().or_else(ClockConfig::from_env)`
abbrev pub configured_or : Option ClockConfig → Option ClockConfig → Option ClockConfig
configured_or none from_environment = from_environment
configured_or (some c) from_environment = some c

abbrev pub clock_parameters : Option ClockConfig → ℕ × ℕ
clock_parameters none = (10, 1)
clock_parameters (some c) = (c.clock_uncertainty_us, c.clock_sync_interval_ms)

-- `clock_from_config` of src/server/server.rs at the time `now`; a microsecond is 1000 of the
-- clock's nanoseconds.
unfoldable pub clock_from_config : ℕ → Option ClockConfig → ℕ → ClockState
clock_from_config server_id clock_cfg now =
    let (uncertainty_us, sync_ms) = clock_parameters clock_cfg in
    let drift = uncertainty_us * 1000 in Clock.new server_id drift drift sync_ms now
