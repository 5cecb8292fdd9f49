-- ===== src/SequencePaxos/Handlers.antt =====
-- The handlers of crates/custom-paxos/omnipaxos/src/sequence_paxos/mod.rs and follower.rs. The
-- closures `e` and `s` that execute a command on the server's database take that database and
-- return it changed, beside their result.
use omnipaxos_kv_project.Prelude.{
  ℕ, Option, none, some, List, [], ◌∷◌, ◌++◌, Bool, true, false, String, if◌then◌else◌,
}
use omnipaxos_kv_project.Messages.{
  Message, PaxosMsg, PaxosMessage, confirm, new_deadline, sync_req, sync_answer,
}
use omnipaxos_kv_project.SequencePaxos.{
  SequencePaxos, Task, propose, free, decide, answer, reply_time, Role, follower, leader,
}
use omnipaxos_kv_project.Config.{ClusterConfig, ConfigError}
use omnipaxos_kv_project.Storage.{StopSign}
use omnipaxos_kv_project.Storage.Cache

-- A closure `Fn(T) -> Option<Option<String>>` over a database
abbrev pub Execute : Type 0 → Type 0 → Type 0
Execute D T = D → T → D × Option (Option String)

-- `ProposeErr` of omni_paxos.rs
pub data ProposeErr (T : Type 0) : Type 0 where
  pending_reconfig_entry : T → ProposeErr T
  pending_reconfig_config : ClusterConfig → Option (List ℕ) → ProposeErr T
  config_error : ConfigError → ClusterConfig → Option (List ℕ) → ProposeErr T

module _ {T S : Type 0} where
  -- `tokio::spawn`
  abbrev pub spawn : SequencePaxos T S → Task T → SequencePaxos T S
  spawn s t = record s { tasks = s.tasks ++ t ∷ [] }

module _ {T S D : Type 0} (e : Execute D T) where
  abbrev pub handle_execution : Role → SequencePaxos T S → D → T → ℕ → SequencePaxos T S × D
  handle_execution follower s db entry accepted_idx =
      (spawn s (decide accepted_idx), (e db entry).0)
  handle_execution leader s db entry accepted_idx = (spawn s (decide accepted_idx), db)

  abbrev pub handle_msg : SequencePaxos T S → D → ℕ → PaxosMsg T → SequencePaxos T S × D
  handle_msg s db from (PaxosMsg.ack r hash speculation idx) = (s, db)
  handle_msg s db from (confirm c accepted_idx) = handle_execution s.role s db c accepted_idx
  handle_msg s db from (new_deadline id deadline) = (spawn s (free id deadline), db)
  handle_msg s db from (sync_answer t) = (spawn s (answer t), db)
  handle_msg s db from sync_req = (spawn s (reply_time from), db)

  -- `SequencePaxos::handle`
  unfoldable pub handle : SequencePaxos T S → D → PaxosMessage T → SequencePaxos T S × D
  handle s db m = handle_msg s db m.from m.msg

  -- `handle_new_proposal`: the leader speculates before anything is inserted.
  abbrev pub handle_new_proposal : SequencePaxos T S → D → T → Bool → SequencePaxos T S × D
  handle_new_proposal s db entry true =
      let (db', result) = e db entry in (spawn s (propose entry true (some result)), db')
  handle_new_proposal s db entry false = (spawn s (propose entry false none), db)

  abbrev pub propose_entry : Role → SequencePaxos T S → D → T → SequencePaxos T S × D
  propose_entry follower s db entry = handle_new_proposal s db entry false
  propose_entry leader s db entry = handle_new_proposal s db entry true

  abbrev pub append_unless :
      {A : Type 0}
      → Option A
      → SequencePaxos T S
      → D
      → T
      → SequencePaxos T S × D × Option (ProposeErr T)
  append_unless none s db entry = let (s', db') = propose_entry s.role s db entry in (s', db', none)
  append_unless (some ss) s db entry = (s, db, some (pending_reconfig_entry entry))

  -- `SequencePaxos::append`, with its error if a stop-sign is accepted
  unfoldable pub append : SequencePaxos T S → D → T → SequencePaxos T S × D × Option (ProposeErr T)
  append s db entry = append_unless s.internal_storage.state_cache.stopsign s db entry

module _ {T S : Type 0} where
  -- `take_outgoing_msgs` for the caller's buffer: an empty buffer is swapped, another extended.
  unfoldable pub take_outgoing_msgs :
      SequencePaxos T S → List (Message T) → SequencePaxos T S × List (Message T)
  take_outgoing_msgs s [] = (record s { outgoing = []; latest_accepted_meta = none }, s.outgoing)
  take_outgoing_msgs s (m ∷ ms) =
      (record s { outgoing = []; latest_accepted_meta = none }, (m ∷ ms) ++ s.outgoing)

  unfoldable pub take_outgoing_client_msgs :
      SequencePaxos T S → List (Message T) → SequencePaxos T S × List (Message T)
  take_outgoing_client_msgs s [] =
      (record s { outgoing_clients = []; latest_accepted_meta = none }, s.outgoing_clients)
  take_outgoing_client_msgs s (m ∷ ms) = (
    record s { outgoing_clients = []; latest_accepted_meta = none },
    (m ∷ ms) ++ s.outgoing_clients,
  )

  -- `accepted_reconfiguration`, and `reconfigure`, which does nothing when no stop-sign is accepted
  abbrev pub reconfigure :
      SequencePaxos T S → ClusterConfig → Option (List ℕ) → Option (ProposeErr T)
  reconfigure s new_config metadata =
      if Cache.is_some s.internal_storage.state_cache.stopsign
      then some (pending_reconfig_config new_config metadata)
      else none

  unfoldable pub is_reconfigured : SequencePaxos T S → Option StopSign
  is_reconfigured s =
      let cache = s.internal_storage.state_cache in
      if Cache.stopsign_is_decided cache then cache.stopsign else none
