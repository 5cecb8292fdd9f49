-- ===== src/Proxy/Actors.antt =====
-- `server_actor` of src/proxy/proxy.rs, which keeps a connection to one server. What the streams and
-- channels do comes with the event: whether a connection, a handshake or a send succeeds, and what
-- is received.
use omnipaxos_kv_project.Prelude.{
  Option, none, some, List, [], ◌∷◌, ◌++◌, Bool, true, false, if◌then◌else◌,
}
use omnipaxos_kv_project.Common.{ClientMessage, ServerMessage}

-- Whether the actor is connected, what it has written to the server, and what it has sent on to the
-- client's connection
pub record Actor : Type 0 where
  pub connected : Bool
  pub to_server : List ClientMessage
  pub to_client : List ServerMessage

pub data Event : Type 0 where
  -- the attempt to connect, with the handshake on the new stream
  connects : Bool → Bool → Event
  -- a message for the server, and whether its send succeeds
  sends : ClientMessage → Bool → Event
  -- a message of the server, or none for an error
  receives : Option ServerMessage → Event

-- A message for the server whose send fails is lost; an error makes the actor connect again.
unfoldable pub sent : Actor → ClientMessage → Bool → Actor
sent a msg true = record a { to_server = a.to_server ++ msg ∷ [] }
sent a msg false = record a { connected = false }

unfoldable pub received : Actor → Option ServerMessage → Actor
received a (some m) = record a { to_client = a.to_client ++ m ∷ [] }
received a none = record a { connected = false }

-- A round of the outer loop
abbrev pub reconnect : Actor → Event → Actor
reconnect a (connects true true) = record a { connected = true }
reconnect a (connects true false) = a
reconnect a (connects false handshake) = a
reconnect a (sends msg succeeds) = a
reconnect a (receives m) = a

-- A round of the inner loop
abbrev pub exchange : Actor → Event → Actor
exchange a (connects connection handshake) = a
exchange a (sends msg succeeds) = sent a msg succeeds
exchange a (receives m) = received a m

unfoldable pub step : Actor → Event → Actor
unfolding sent received
step a event = if a.connected then exchange a event else reconnect a event

unfoldable pub server_actor : Actor → List Event → Actor
unfolding step
server_actor a [] = a
server_actor a (event ∷ events) = server_actor (step a event) events
