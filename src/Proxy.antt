-- ===== src/Proxy.antt =====
-- The proxy between the clients and the servers: src/proxy/proxy.rs and src/proxy/database.rs.
-- A send to a server's actor does not fail, since the actor's loop never ends; whether a send on
-- the client's stream succeeds is a choice that comes with each message.
pub mod Acks
pub mod Quorum
pub mod Accepting
pub mod Actors
pub mod Interleaving
use omnipaxos_kv_project.Prelude.{
  ℕ, zero, suc, ◌+◌, Option, none, some, List, [], ◌∷◌, ◌++◌, map, Bool, true, false, ◌&&◌, leb,
  length, if◌then◌else◌,
}
use omnipaxos_kv_project.Prelude.Assoc
use omnipaxos_kv_project.Prelude.Assoc.{Assoc, nat_eq}
use omnipaxos_kv_project.Prelude.Words.{add64, sub64}
use omnipaxos_kv_project.Common.{
  Command, Speculation, ClientMessage, ServerMessage, start_signal, PrCommand,
}

pub record Database : Type 0 where
  pub db : Assoc ℕ (ℕ × Speculation)
  pub quorum : ℕ

abbrev pub new_database : ℕ → Database
new_database q = record { db = []; quorum = q }

-- `Database::handle_command`
unfoldable pub handle_command : Database → PrCommand → Database × Option (Option (ℕ × Speculation))
handle_command d (PrCommand.put key val) = (record d { db = Assoc.insert d.db key val }, none)
handle_command d (PrCommand.delete key) = (record d { db = Assoc.remove d.db key }, none)
handle_command d (PrCommand.get key) = (d, some (Assoc.get d.db key))

-- `Proxy::new`, for the number of nodes: the database with its quorum
abbrev pub new : ℕ → ℕ → Database
new nodes fault_tolerance = new_database (sub64 nodes fault_tolerance)

-- What a connection sends
pub data Sent : Type 0 where
  to_server : ℕ → ClientMessage → Sent
  to_client : ServerMessage → Sent

abbrev pub is_some {ℓ} : {A : Type ℓ} → Option A → Bool
is_some none = false
is_some (some a) = true

-- The count and the speculation that an ack makes of those that are stored
abbrev pub counted : Option (ℕ × Speculation) → Speculation → ℕ × Speculation
counted none suspect = (1, suspect)
counted (some (counter, none)) suspect = (add64 counter 1, suspect)
counted (some (counter, some s)) suspect = (add64 counter 1, some s)

-- The result of `Get`, as the handler's `if let Some(Some(..))` reads it
abbrev pub counted_result : Option (Option (ℕ × Speculation)) → Speculation → ℕ × Speculation
counted_result none suspect = counted none suspect
counted_result (some stored) suspect = counted stored suspect

abbrev pub has_quorum : ℕ → ℕ × Speculation → Bool
has_quorum q (counter, spec) = leb q counter && is_some spec

-- An ack: the command, its hash, the speculation and the index
pub record Ack : Type 0 where
  pub cmd : Command
  pub hash : ℕ
  pub suspect : Speculation
  pub last_idx : ℕ

-- The fan-out to every server, and the answer to the client
abbrev pub confirmation : List ℕ → Ack → List Sent
confirmation servers a =
    map (λ i. to_server i (ClientMessage.ack a.cmd a.last_idx)) servers
    ++ to_client (ServerMessage.ack a.cmd a.hash a.suspect a.last_idx) ∷ []

-- The arm of `ServerMessage::Ack`: what is sent, and whether the connection goes on
unfoldable pub handle_ack : List ℕ → Database → Ack → Bool → Database × List Sent × Bool
unfolding handle_command
handle_ack servers d a writable =
    let (d₁, stored) = handle_command d (PrCommand.get a.hash) in
    let now = counted_result stored a.suspect in
    let d₂ = (handle_command d₁ (PrCommand.put a.hash now)).0 in
    if has_quorum d.quorum now
    then (if writable
        then ((handle_command d₂ (PrCommand.delete a.hash)).0, confirmation servers a, true)
        else (d₂, map (λ i. to_server i (ClientMessage.ack a.cmd a.last_idx)) servers, false))
    else (d₂, [], true)

-- The arm of `client_receiver.recv()`
unfoldable pub handle_server_message :
    List ℕ → Database → ServerMessage → Bool → Database × List Sent × Bool
unfolding handle_ack
handle_server_message servers d (ServerMessage.ack cmd hash suspect last_idx) writable =
    handle_ack servers d (record { cmd = cmd; hash = hash; suspect = suspect; last_idx = last_idx })
      writable
handle_server_message servers d (start_signal t) writable =
    (d, if writable then to_client (start_signal t) ∷ [] else [], writable)
handle_server_message servers d _ writable = (d, [], true)

-- The arm of `reader.next()`: a message is multicast; an error or the end closes the connection.
abbrev pub handle_client_message : List ℕ → Option ClientMessage → List Sent × Bool
handle_client_message servers none = ([], false)
handle_client_message servers (some m) = (map (λ i. to_server i m) servers, true)

-- `run`: the receivers that no connection has yet, under the numbers of their nodes
pub record Listener : Type 0 where
  pub server_receivers : Assoc ℕ ℕ
  pub counter : ℕ

abbrev pub numbered : ℕ → ℕ → Assoc ℕ ℕ
numbered i zero = []
numbered i (suc n) = (i, i) ∷ numbered (i + 1) n

abbrev pub listener : ℕ → Listener
listener nodes = record { server_receivers = numbered 0 nodes; counter = 0 }

abbrev pub taken : Listener → ℕ → Option ℕ → Option (Listener × ℕ × ℕ)
taken l id none = none
taken l id (some receiver) =
    some
      (record { server_receivers = Assoc.remove l.server_receivers id; counter = id }, id, receiver)

-- The arm of `listener.accept()`: the number of the connection and its receiver; none is the panic
-- of the `unwrap`.
unfoldable pub accept_client : Listener → Option (Listener × ℕ × ℕ)
accept_client l = let id = add64 l.counter 1 in taken l id (Assoc.get l.server_receivers id)
