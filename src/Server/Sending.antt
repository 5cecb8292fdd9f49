-- ===== src/Server/Sending.antt =====
-- What a server sends from the loop of src/server/server.rs: the messages that it takes from its
-- replica, the responses to commands, and the start signals. A result of none is a panic.
use omnipaxos_kv_project.Prelude.{◌>>=◌, ℕ, zero, suc, ◌+◌, Option, none, some, List, [], ◌∷◌}
use omnipaxos_kv_project.Common.{
  Command, omni_paxos_message, leader_start_signal, ServerMessage, start_signal,
}
use omnipaxos_kv_project.Messages.{Message, PaxosMsg, sequence_paxos, ble, get_receiver}
use omnipaxos_kv_project.Storage.{StorageResult, ok, LogEntry, decided}
use omnipaxos_kv_project.Server.Network.{Network, send_to_cluster, send_to_client}

-- `filter_map` over decided entries; another kind of entry is unreachable.
unfoldable pub decided_commands : List (LogEntry Command) → Option (List Command)
decided_commands [] = some []
decided_commands (decided cmd ∷ es) = do cmds ← decided_commands es; some (cmd ∷ cmds)
decided_commands (LogEntry.undecided cmd ∷ es) = none
decided_commands (LogEntry.trimmed idx ∷ es) = none
decided_commands (LogEntry.stop_sign ss is_decided ∷ es) = none

-- `unwrap` on what was read
abbrev pub unwrap_read {ℓ} : {A : Type ℓ} → StorageResult (Option A) → Option A
unwrap_read (ok (some es)) = some es
unwrap_read _ = none

-- The responses, each to its client
abbrev pub respond : Network → List (ℕ × ServerMessage) → Network
respond n [] = n
respond n ((to, response) ∷ sent) = respond (send_to_client n to response) sent

abbrev pub send_all_to_cluster : Network → List (Message Command) → Network
send_all_to_cluster n [] = n
send_all_to_cluster n (m ∷ ms) =
    send_all_to_cluster (send_to_cluster n (get_receiver m) (omni_paxos_message m)) ms

abbrev pub ack_only : PaxosMsg Command → Option ServerMessage
ack_only (PaxosMsg.ack a b c d) = some (ServerMessage.ack a b c d)
ack_only _ = none

-- What a client is sent of a message for clients, of which only acks are expected
unfoldable pub to_server_message : Message Command → Option ServerMessage
to_server_message (sequence_paxos p) = ack_only p.msg
to_server_message (ble b) = none

-- The second `for` of `send_outgoing_msgs`: everything goes to the client 1.
unfoldable pub send_all_to_client : Network → List (Message Command) → Option Network
unfolding to_server_message
send_all_to_client n [] = some n
send_all_to_client n (m ∷ ms) = do
  msg ← to_server_message m
  send_all_to_client (send_to_client n 1 msg) ms

-- `1..num_clients + 1`
abbrev pub up_from : ℕ → ℕ → List ℕ
up_from i zero = []
up_from i (suc n) = i ∷ up_from (i + 1) n

abbrev pub start_clients : Network → List ℕ → ℕ → Network
start_clients n [] time = n
start_clients n (id ∷ ids) time = start_clients (send_to_client n id (start_signal time)) ids time

abbrev pub start_cluster : Network → List ℕ → ℕ → Network
start_cluster n [] time = n
start_cluster n (peer ∷ peers) time =
    start_cluster (send_to_cluster n peer (leader_start_signal time)) peers time
