-- ===== src/Proxy/Interleaving/Alone.antt =====
-- A connection whose steps nothing comes between: it counts and confirms as the tally of its acks
-- says.
use omnipaxos_kv_project.Prelude.{ℕ, List, [], ◌∷◌, Bool}
use omnipaxos_kv_project.Proxy.{Ack, handle_command, counted_result}
use omnipaxos_kv_project.Common.{Speculation, PrCommand}
use omnipaxos_kv_project.Proxy.Interleaving.{
  Stage, has_counted, Event, receives, stores, confirms, deletes, Shared, moves,
}

-- The steps of one ack
abbrev pub alone : ℕ → Ack → Bool → List Event
alone i a writable = receives i a ∷ stores i ∷ confirms i writable ∷ deletes i ∷ []

abbrev now : Shared → Ack → ℕ × Speculation
now s a = counted_result (handle_command s.database (PrCommand.get a.hash)).1 a.suspect

-- The connection after it has stored the count
abbrev stored : Shared → ℕ → Ack → Stage → Shared
stored s i a stage =
    let counting = moves s i (has_counted a (now s a)) in
    let database = (handle_command s.database (PrCommand.put a.hash (now s a))).0 in
    moves (record counting { database = database }) i stage
