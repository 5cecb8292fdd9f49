-- ===== src/Server/Loop.antt =====
-- `OmniPaxosServer` of src/server/server.rs: its state, its handlers and the steps of its loop. Its
-- database is shared with the closures that it gives to its replica, so they take it and give it
-- back; its clock is that of the replica, which shares its state. A result of none is a panic.
use omnipaxos_kv_project.Prelude.{◌>>=◌, ℕ, Option, none, some, List, [], ◌∷◌, ltb, if◌then◌else◌}
use omnipaxos_kv_project.Prelude.Words.{add64}
use omnipaxos_kv_project.Common.{Command, KvCommand, ClientMessage}
use omnipaxos_kv_project.Messages.{Message, confirm}
use omnipaxos_kv_project.Clock.{new_deadline}
use omnipaxos_kv_project.Storage.{LogEntry}
use omnipaxos_kv_project.Storage.Memory
use omnipaxos_kv_project.SequencePaxos.Handlers.{Execute, ProposeErr, handle}
use omnipaxos_kv_project.OmniPaxos
use omnipaxos_kv_project.OmniPaxos.{
  OmniPaxos, Built, built, refused, handle_incoming, read_decided_suffix, take_outgoing_messages,
  take_client_outgoing_messages, get_current_leader, try_become_leader, tick,
}
use omnipaxos_kv_project.Server.{Database, handle_command, update_database_and_respond}
use omnipaxos_kv_project.Server.Network.{Network}
use omnipaxos_kv_project.Server.Sending.{
  decided_commands, unwrap_read, respond, send_all_to_cluster, send_all_to_client, up_from,
  start_clients, start_cluster,
}
use omnipaxos_kv_project.Server.Configs.{
  OmniPaxosKvConfig, ClockConfig, omni_paxos_config, get_peers, clock_from_config, configured_or,
}

pub record OmniPaxosServer (S : Type 0) : Type 0 where
  pub id : ℕ
  pub private_command_id : ℕ
  pub database : Database
  pub network : Network
  pub omnipaxos : OmniPaxos Command S
  pub current_decided_idx : ℕ
  pub peers : List ℕ
  pub config : OmniPaxosKvConfig

-- The closures `execute` and `speculate`
abbrev pub execute : Execute Database Command
execute db entry = handle_command db entry.kv_cmd

module _ {S : Type 0} where
  abbrev pub start_server :
      OmniPaxosKvConfig → Network → Built Command S → Option (OmniPaxosServer S)
  start_server config network (refused e) = none
  start_server config network (built o) = some (record {
    id = config.local.server_id;
    private_command_id = 0;
    database = [];
    network = network;
    omnipaxos = o;
    current_decided_idx = 0;
    peers = get_peers config config.local.server_id;
    config = config;
  })

  -- `OmniPaxosServer::new` at the time `now`, for the environment's clock configuration and the
  -- network that has its connections
  unfoldable pub new :
      OmniPaxosKvConfig → Option ClockConfig → ℕ → Network → Option (OmniPaxosServer S)
  new config environment now network =
      let clock =
        clock_from_config config.local.server_id (configured_or config.local.clock environment)
          now in
      start_server config network (OmniPaxos.build (omni_paxos_config config) Memory.empty clock)

  -- `handle_decided_entries`, from what was read on
  abbrev pub execute_decided :
      OmniPaxosServer S → ℕ → List (LogEntry Command) → Option (OmniPaxosServer S)
  execute_decided s new_decided_idx es = do
    commands ← decided_commands es
    let executed = update_database_and_respond s.id s.database commands
    some (record s {
      database = executed.0;
      network = respond s.network executed.1;
      current_decided_idx = new_decided_idx;
    })

  -- and with the read, under the second lock
  abbrev pub decide_to : OmniPaxosServer S → ℕ → Option (OmniPaxosServer S)
  decide_to s new_decided_idx =
      unwrap_read (read_decided_suffix s.omnipaxos s.current_decided_idx)
      >>= execute_decided s new_decided_idx

  abbrev pub decided_idx : OmniPaxosServer S → ℕ
  decided_idx s = s.omnipaxos.seq_paxos.internal_storage.state_cache.decided_idx

  -- `handle_decided_entries` where nothing comes between its two locks; Server/Running takes them
  -- apart.
  unfoldable pub handle_decided_entries : OmniPaxosServer S → Option (OmniPaxosServer S)
  handle_decided_entries s =
      let advanced = decide_to s (decided_idx s) in
      if ltb s.current_decided_idx (decided_idx s) then advanced else some s

  -- The two halves of `send_outgoing_msgs`, a lock and a `for` each; the buffer is empty before and
  -- after them.
  unfoldable pub send_to_peers : OmniPaxosServer S → OmniPaxosServer S
  send_to_peers s =
      let (o, msgs) = take_outgoing_messages s.omnipaxos [] in
      record s { omnipaxos = o; network = send_all_to_cluster s.network msgs }

  unfoldable pub send_acks : OmniPaxosServer S → Option (OmniPaxosServer S)
  unfolding send_all_to_client
  send_acks s = do
    let (o, msgs) = take_client_outgoing_messages s.omnipaxos []
    n ← send_all_to_client s.network msgs
    some (record s { omnipaxos = o; network = n })

  -- The command of `append_to_log`
  unfoldable pub new_command : OmniPaxosServer S → ℕ → ℕ → KvCommand → Command
  new_command s from command_id kv_command = record {
    client_id = from;
    coordinator_id = s.id;
    id = command_id;
    private_id = s.private_command_id;
    deadline = new_deadline s.omnipaxos.seq_paxos.clock;
    kv_cmd = kv_command;
  }

  -- `expect` on the result of the append
  abbrev pub appended :
      OmniPaxosServer S
      → OmniPaxos Command S × Database × Option (ProposeErr Command)
      → Option (OmniPaxosServer S)
  appended s (o, db, some e) = none
  appended s (o, db, none) =
      some (record s {
        omnipaxos = o;
        database = db;
        private_command_id = add64 s.private_command_id 1;
      })

  unfoldable pub append_to_log : OmniPaxosServer S → ℕ → ℕ → KvCommand → Option (OmniPaxosServer S)
  unfolding new_command
  append_to_log s from command_id kv_command =
      let command = new_command s from command_id kv_command in
      appended s (OmniPaxos.append execute s.omnipaxos s.database command)

  -- An ack of a client stands for the confirmation of the proxy.
  unfoldable pub handle_confirmation : OmniPaxosServer S → Command → ℕ → OmniPaxosServer S
  handle_confirmation s r last_idx =
      let (p, db) =
        handle execute s.omnipaxos.seq_paxos s.database
          (record { from = 10; to = 10; msg = confirm r last_idx }) in
      record s { omnipaxos = record (s.omnipaxos) { seq_paxos = p }; database = db }

  -- The match of `handle_client_messages`
  unfoldable pub handle_client_message :
      OmniPaxosServer S → ℕ → ClientMessage → Option (OmniPaxosServer S)
  unfolding append_to_log handle_confirmation
  handle_client_message s from (ClientMessage.append command_id kv_command) =
      append_to_log s from command_id kv_command
  handle_client_message s from (ClientMessage.ack r last_idx) =
      some (handle_confirmation s r last_idx)

  unfoldable pub handle_each_client_message :
      OmniPaxosServer S → List (ℕ × ClientMessage) → Option (OmniPaxosServer S)
  unfolding handle_client_message
  handle_each_client_message s [] = some s
  handle_each_client_message s ((from, message) ∷ messages) = do
    s' ← handle_client_message s from message
    handle_each_client_message s' messages

  unfoldable pub send_cluster_start_signals : OmniPaxosServer S → ℕ → OmniPaxosServer S
  send_cluster_start_signals s time = record s { network = start_cluster s.network s.peers time }

  unfoldable pub send_client_start_signals : OmniPaxosServer S → ℕ → OmniPaxosServer S
  send_client_start_signals s time = record s {
    network = start_clients s.network (up_from 1 s.config.local.num_clients) time;
  }

  abbrev pub incoming : OmniPaxosServer S → Message Command → OmniPaxosServer S
  incoming s m =
      let (o, db) = handle_incoming execute s.omnipaxos s.database m in
      record s { omnipaxos = o; database = db }
