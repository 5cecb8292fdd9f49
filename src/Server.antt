-- ===== src/Server.antt =====
-- What a server does with decided commands: src/server/database.rs, and
-- `update_database_and_respond` of src/server/server.rs. A response goes with the client it is for.
pub mod Execution
pub mod Network
pub mod Configs
pub mod Sending
pub mod Loop
pub mod Running
pub mod Appending
pub mod Deciding
pub mod Acknowledging
pub mod Keeping
pub mod Serving
use omnipaxos_kv_project.Prelude.{
  ℕ, String, Option, none, some, List, [], ◌∷◌, ◌++◌, ◌==◌, if◌then◌else◌,
}
use omnipaxos_kv_project.Prelude.Assoc
use omnipaxos_kv_project.Prelude.Assoc.{Assoc, string_eq}
use omnipaxos_kv_project.Common.{Command, KvCommand, ServerMessage}

abbrev pub Database : Type 0
Database = Assoc String String

-- `Database::handle_command`
unfoldable pub handle_command : Database → KvCommand → Database × Option (Option String)
handle_command db (KvCommand.put key value) = (Assoc.insert db key value, none)
handle_command db (KvCommand.delete key) = (Assoc.remove db key, none)
handle_command db (KvCommand.get key) = (db, some (Assoc.get db key))

-- The match on `read`
abbrev pub response : ℕ → Option (Option String) → ServerMessage
response id none = ServerMessage.write id
response id (some result) = ServerMessage.read id result

-- `update_database_and_respond` of the server `me`: the database, and what is sent to clients
unfoldable pub update_database_and_respond :
    ℕ → Database → List Command → Database × List (ℕ × ServerMessage)
update_database_and_respond me db [] = (db, [])
update_database_and_respond me db (c ∷ cs) =
    let (db', read) = handle_command db c.kv_cmd in
    let (db'', sent) = update_database_and_respond me db' cs in
    (db'', (if c.coordinator_id == me then (c.client_id, response c.id read) ∷ sent else sent))
