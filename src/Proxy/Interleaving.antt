-- ===== src/Proxy/Interleaving.antt =====
-- Several connections of the proxy that share its database: an ack is counted by a `Get` and a later
-- `Put`, and a confirmed hash is deleted after the confirmation is sent, with the lock of the
-- database free in between, so that the connections interleave.
pub mod Heard
pub mod Backing
pub mod Alone
pub mod Losing
use omnipaxos_kv_project.Prelude.{
  ℕ, Option, none, some, List, [], ◌∷◌, ◌++◌, map, Bool, true, false, ◌==◌, if◌then◌else◌,
}
use omnipaxos_kv_project.Common.{Speculation, ClientMessage, PrCommand}
use omnipaxos_kv_project.Proxy.{
  Database, Sent, to_server, Ack, handle_command, counted_result, has_quorum, confirmation,
}

-- Where a connection stands in the arm of an ack; `closed` is after its `return`.
pub data Stage : Type 0 where
  idle : Stage
  has_counted : Ack → ℕ × Speculation → Stage
  has_stored : Ack → Stage
  has_confirmed : Ack → Stage
  closed : Stage

-- What a connection does next: it receives an ack and reads its count, stores the new count, sends
-- the confirmation to the servers and to its client, if that can be written to, and deletes the hash.
pub data Event : Type 0 where
  receives : ℕ → Ack → Event
  stores : ℕ → Event
  confirms : ℕ → Bool → Event
  deletes : ℕ → Event

pub record Shared : Type 0 where
  pub database : Database
  pub stages : ℕ → Stage
  pub sent : List Sent

abbrev pub moves : Shared → ℕ → Stage → Shared
moves s i stage = record s { stages = λ j. if i == j then stage else s.stages j }

abbrev pub receive : Shared → ℕ → Ack → Stage → Shared
receive s i a idle =
    let stored = (handle_command s.database (PrCommand.get a.hash)).1 in
    moves s i (has_counted a (counted_result stored a.suspect))
receive s i a _ = s

abbrev pub store : Shared → ℕ → Stage → Shared
store s i (has_counted a now) =
    let stored = record s { database = (handle_command s.database (PrCommand.put a.hash now)).0 } in
    moves stored i (if has_quorum s.database.quorum now then has_stored a else idle)
store s i _ = s

abbrev pub confirm : List ℕ → Shared → ℕ → Bool → Stage → Shared
confirm servers s i true (has_stored a) =
    moves (record s { sent = s.sent ++ confirmation servers a }) i (has_confirmed a)
confirm servers s i false (has_stored a) =
    let fan_out = map (λ j. to_server j (ClientMessage.ack a.cmd a.last_idx)) servers in
    moves (record s { sent = s.sent ++ fan_out }) i closed
confirm servers s i writable _ = s

abbrev pub delete : Shared → ℕ → Stage → Shared
delete s i (has_confirmed a) =
    moves (record s { database = (handle_command s.database (PrCommand.delete a.hash)).0 }) i idle
delete s i _ = s

-- A connection that does not stand where the event is does nothing.
unfoldable pub step : List ℕ → Shared → Event → Shared
unfolding handle_command
step servers s (receives i a) = receive s i a (s.stages i)
step servers s (stores i) = store s i (s.stages i)
step servers s (confirms i writable) = confirm servers s i writable (s.stages i)
step servers s (deletes i) = delete s i (s.stages i)

unfoldable pub run : List ℕ → Shared → List Event → Shared
unfolding step
run servers s [] = s
run servers s (event ∷ events) = run servers (step servers s event) events

abbrev pub start : Database → Shared
start d = record { database = d; stages = λ i. idle; sent = [] }
