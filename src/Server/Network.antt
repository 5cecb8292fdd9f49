-- ===== src/Server/Network.antt =====
-- src/server/network.rs: the connections of a server to its peers and clients. The TCP streams are
-- outside: a handshake that a stream delivers, and a connection that a task has established, are
-- arguments. Of a connection the model keeps its id and the channel to its writer actor.
pub mod Pending
pub mod Connecting
use omnipaxos_kv_project.Prelude.{
  ℕ, suc, Option, none, some, List, [], ◌∷◌, Bool, true, false, ◌&&◌, String, ltb, leb, ◌==◌,
  length, set, get_or, replicate, map, if◌then◌else◌,
}
use omnipaxos_kv_project.Prelude.Assoc
use omnipaxos_kv_project.Prelude.Assoc.{Assoc, nat_eq}
use omnipaxos_kv_project.Prelude.Words.{add64}
use omnipaxos_kv_project.Common.{
  ClusterMessage, ServerMessage, RegistrationMessage, node_register, client_register,
}
use omnipaxos_kv_project.Network.{Channel, send}

pub record PeerConnection : Type 0 where
  pub peer_id : ℕ
  pub outgoing_messages : Channel ClusterMessage

pub record ClientConnection : Type 0 where
  pub client_id : ℕ
  pub outgoing_messages : Channel ServerMessage

pub data NewConnection : Type 0 where
  to_peer : PeerConnection → NewConnection
  to_client : ClientConnection → NewConnection

pub record Network : Type 0 where
  pub peers : List ℕ
  pub peer_connections : List (Option PeerConnection)
  pub client_connections : Assoc ℕ ClientConnection
  pub max_client_id : ℕ

abbrev pub fresh_channel {ℓ} : {M : Type ℓ} → Channel M
fresh_channel = record { queue = []; alive = true }

-- `PeerConnection::new` and `ClientConnection::new`
abbrev pub new_peer : ℕ → PeerConnection
new_peer id = record { peer_id = id; outgoing_messages = fresh_channel }

abbrev pub new_client : ℕ → ClientConnection
new_client id = record { client_id = id; outgoing_messages = fresh_channel }

-- The peers with their addresses: `zip` of the nodes and the addresses, without the own id
unfoldable pub peer_addresses : ℕ → List ℕ → List String → List (ℕ × String)
peer_addresses id [] addrs = []
peer_addresses id (node ∷ nodes) [] = []
peer_addresses id (node ∷ nodes) (addr ∷ addrs) =
    let rest = peer_addresses id nodes addrs in if node == id then rest else (node, addr) ∷ rest

-- `Network::new`, before it waits for its connections
unfoldable pub new : List (ℕ × String) → Network
new addresses = record {
  peers = map (λ (id, _). id) addresses;
  peer_connections = replicate (length addresses) none;
  client_connections = [];
  max_client_id = 0;
}

abbrev pub position_after : Option ℕ → Option ℕ
position_after none = none
position_after (some i) = some (suc i)

-- `iter().position`
abbrev pub position : List ℕ → ℕ → Option ℕ
position [] id = none
position (p ∷ ps) id =
    let later = position_after (position ps id) in if p == id then some 0 else later

unfoldable pub cluster_id_to_idx : Network → ℕ → Option ℕ
cluster_id_to_idx n id = position n.peers id

-- `handle_incoming_connection`: what the stream delivers first is none at its end, and none inside
-- where it is not deserialized.
unfoldable pub handle_incoming_connection :
    Network → Option (Option RegistrationMessage) → Network × Option NewConnection
handle_incoming_connection n (some (some (node_register id))) = (n, some (to_peer (new_peer id)))
handle_incoming_connection n (some (some client_register)) =
    let id = add64 n.max_client_id 1 in
    (record n { max_client_id = id }, some (to_client (new_client id)))
handle_incoming_connection n (some none) = (n, none)
handle_incoming_connection n none = (n, none)

-- The peers that `spawn_peer_connectors` connects to
unfoldable pub peers_to_connect_to : ℕ → List (ℕ × String) → List (ℕ × String)
peers_to_connect_to my_id [] = []
peers_to_connect_to my_id ((peer, addr) ∷ rest) =
    let others = peers_to_connect_to my_id rest in
    if ltb peer my_id then (peer, addr) ∷ others else others

abbrev pub store_at : Network → PeerConnection → Option ℕ → Option Network
store_at n c none = none
store_at n c (some idx) = some (record n { peer_connections = set n.peer_connections idx (some c) })

-- The match on a new connection; none is the panic of `unwrap`.
unfoldable pub connect : Network → NewConnection → Option Network
unfolding cluster_id_to_idx
connect n (to_peer c) = store_at n c (cluster_id_to_idx n c.peer_id)
connect n (to_client c) =
    some (record n { client_connections = Assoc.insert n.client_connections c.client_id c })

abbrev pub all_connected : List (Option PeerConnection) → Bool
all_connected [] = true
all_connected (none ∷ cs) = false
all_connected (some c ∷ cs) = all_connected cs

-- `all_clients_connected && all_cluster_connected`
abbrev pub is_ready : ℕ → Network → Bool
is_ready num_clients n =
    leb num_clients (length n.client_connections) && all_connected n.peer_connections

-- How the loop of `initialize_connections` stands
pub data Initialization : Type 0 where
  ready : Network → Initialization
  waiting : Network → Initialization
  panicked : Initialization

-- A round of the loop, with the rest of it
abbrev pub round : ℕ → (Network → Initialization) → Option Network → Initialization
round num_clients rest none = panicked
round num_clients rest (some n) = if is_ready num_clients n then ready n else rest n

-- The loop, for the connections in the order in which they are established
unfoldable pub initialize_connections : ℕ → Network → List NewConnection → Initialization
unfolding connect
initialize_connections num_clients n [] = waiting n
initialize_connections num_clients n (c ∷ cs) =
    round num_clients (λ n'. initialize_connections num_clients n' cs) (connect n c)

-- A connection after a send, and an empty slot after an error
abbrev pub after_peer_send :
    PeerConnection → Option (Channel ClusterMessage) → Option PeerConnection
after_peer_send c none = none
after_peer_send c (some sent) = some (record c { outgoing_messages = sent })

-- The slot of a peer after a message; an empty slot stays empty.
unfoldable pub send_peer : ClusterMessage → Option PeerConnection → Option PeerConnection
unfolding send
send_peer msg none = none
send_peer msg (some c) = after_peer_send c (send c.outgoing_messages msg)

abbrev pub send_at : Network → ClusterMessage → Option ℕ → Network
send_at n msg none = n
send_at n msg (some idx) = record n {
  peer_connections =
      set n.peer_connections idx (send_peer msg (get_or n.peer_connections idx none));
}

unfoldable pub send_to_cluster : Network → ℕ → ClusterMessage → Network
unfolding cluster_id_to_idx send_peer
send_to_cluster n to msg = send_at n msg (cluster_id_to_idx n to)

abbrev pub after_client_send :
    Assoc ℕ ClientConnection
    → ClientConnection
    → Option (Channel ServerMessage)
    → ℕ
    → Assoc ℕ ClientConnection
after_client_send m c none to = Assoc.remove m to
after_client_send m c (some sent) to = Assoc.insert m to (record c { outgoing_messages = sent })

abbrev pub send_client :
    Assoc ℕ ClientConnection
    → Option ClientConnection
    → ℕ
    → ServerMessage
    → Assoc ℕ ClientConnection
send_client m none to msg = m
send_client m (some c) to msg = after_client_send m c (send c.outgoing_messages msg) to

unfoldable pub send_to_client : Network → ℕ → ServerMessage → Network
unfolding send
send_to_client n to msg = record n {
  client_connections = send_client n.client_connections (Assoc.get n.client_connections to) to msg;
}

unfoldable pub shutdown : Network → Network
shutdown n = record n {
  peer_connections = replicate (length n.peers) none;
  client_connections = [];
}
