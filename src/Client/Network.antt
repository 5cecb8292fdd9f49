-- ===== src/Client/Network.antt =====
-- src/client/network.rs: the connections of a client, in the slots of its servers' ids. A
-- connection is the channel to its writer actor; the actors are those of `Network`. Connecting to
-- the servers is outside: whether each of the tasks succeeds is an argument.
use Prim.Native.Nat.{max}
use omnipaxos_kv_project.Prelude.{
  ℕ, ◌+◌, Option, none, some, List, [], ◌∷◌, Bool, true, false, length, replicate, set, get_elem?,
}
use omnipaxos_kv_project.Common.{ClientMessage}
use omnipaxos_kv_project.Network.{Channel, send}

pub record ServerConnection : Type 0 where
  pub outgoing_messages : Channel ClientMessage

pub record Network : Type 0 where
  pub server_connections : List (Option ServerConnection)

-- `ServerConnection::new`
abbrev pub new_connection : ServerConnection
new_connection = record { outgoing_messages = record { queue = []; alive = true } }

abbrev pub max_from : ℕ → List ℕ → ℕ
max_from greatest [] = greatest
max_from greatest (id ∷ ids) = max_from (max greatest id) ids

-- The slots of `Network::new`; none is the panic of `max().unwrap()`.
unfoldable pub slots : List ℕ → Option Network
slots [] = none
slots (id ∷ ids) = some (record { server_connections = replicate (max_from id ids + 1) none })

-- The loop of `initialize_connections` over the servers, each with whether its task succeeded; none
-- is a panic.
unfoldable pub initialize_connections : Network → List (ℕ × Bool) → Option Network
initialize_connections n [] = some n
initialize_connections n ((id, true) ∷ servers) =
    initialize_connections
      (record n { server_connections = set n.server_connections id (some new_connection) }) servers
initialize_connections n ((id, false) ∷ servers) = none

abbrev pub initialized : Option Network → List (ℕ × Bool) → Option Network
initialized none servers = none
initialized (some n) servers = initialize_connections n servers

abbrev pub ids_of : List (ℕ × Bool) → List ℕ
ids_of [] = []
ids_of ((id, connects) ∷ servers) = id ∷ ids_of servers

-- `Network::new`
unfoldable pub new : List (ℕ × Bool) → Option Network
unfolding slots initialize_connections
new servers = initialized (slots (ids_of servers)) servers

abbrev pub after_send : ServerConnection → Option (Channel ClientMessage) → Option ServerConnection
after_send c none = none
after_send c (some sent) = some (record c { outgoing_messages = sent })

-- The slot `to` after a message: a slot that is empty, or that there is not, stays so.
abbrev pub send_at : Network → ℕ → ClientMessage → Option (Option ServerConnection) → Network
send_at n to msg none = n
send_at n to msg (some none) = n
send_at n to msg (some (some c)) = record n {
  server_connections = set n.server_connections to (after_send c (send c.outgoing_messages msg));
}

-- `Network::send`
unfoldable pub send_to : Network → ℕ → ClientMessage → Network
unfolding send
send_to n to msg = send_at n to msg (get_elem? n.server_connections to)

unfoldable pub shutdown : Network → Network
shutdown n = record n { server_connections = replicate (length n.server_connections) none }
