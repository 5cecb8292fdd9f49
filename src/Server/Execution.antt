-- ===== src/Server/Execution.antt =====
-- The database of a server against a function from keys to values.
use omnipaxos_kv_project.Prelude.{
  ℕ, String, ◌≡◌, refl, ap, ◌∙◌, Option, none, some, List, [], ◌∷◌, ◌==◌, if◌then◌else◌,
}
use omnipaxos_kv_project.Prelude.Assoc
use omnipaxos_kv_project.Prelude.Assoc.{string_eq, get-insert, get-remove}
use omnipaxos_kv_project.Common.{Command, KvCommand, ServerMessage}
use omnipaxos_kv_project.Server.{Database, handle_command, response, update_database_and_respond}

abbrev pub View : Type 0
View = String → Option String

-- A command's effect on the view, and its result
abbrev pub after : View → KvCommand → View
after v (KvCommand.put key value) k = if string_eq.beq key k then some value else v k
after v (KvCommand.delete key) k = if string_eq.beq key k then none else v k
after v (KvCommand.get key) k = v k

abbrev pub result : View → KvCommand → Option (Option String)
result v (KvCommand.put key value) = none
result v (KvCommand.delete key) = none
result v (KvCommand.get key) = some (v key)

abbrev pub after_all : View → List Command → View
after_all v [] = v
after_all v (c ∷ cs) = after_all (after v c.kv_cmd) cs

-- What a server answers to the commands that it coordinates, each in the view that the commands
-- before it left
abbrev pub responses : ℕ → View → List Command → List (ℕ × ServerMessage)
responses me v [] = []
responses me v (c ∷ cs) =
    let rest = responses me (after v c.kv_cmd) cs in
    if c.coordinator_id == me then (c.client_id, response c.id (result v c.kv_cmd)) ∷ rest else rest

abbrev pub IsView : Database → View → Type 0
IsView db v = (k : String) → Assoc.get db k ≡ v k

handle_command-IsView :
    (db : Database) (v : View) (c : KvCommand)
    → IsView db v
    → IsView (handle_command db c).0 (after v c) × ((handle_command db c).1 ≡ result v c)
unfolding handle_command
handle_command-IsView db v (KvCommand.put key value) h = (
  (λ k. get-insert db key k value ∙ ap (λ o. if string_eq.beq key k then some value else o) (h k)),
  refl,
)
handle_command-IsView db v (KvCommand.delete key) h =
    ((λ k. get-remove db key k ∙ ap (λ o. if string_eq.beq key k then none else o) (h k)), refl)
handle_command-IsView db v (KvCommand.get key) h = (h, ap some (h key))

-- Where a database holds what a function from keys to values says, after any decided commands it
-- holds what the commands make of that function one after another, and the server answered exactly
-- those of the commands that it coordinates, in their order, a read with the value that the
-- commands before it left under its key.
pub update_database_and_respond-IsView :
    (me : ℕ) (db : Database) (v : View) (cs : List Command)
    → IsView db v
    → IsView (update_database_and_respond me db cs).0 (after_all v cs)
      × ((update_database_and_respond me db cs).1 ≡ responses me v cs)
unfolding update_database_and_respond
update_database_and_respond-IsView me db v [] h = (h, refl)
update_database_and_respond-IsView me db v (c ∷ cs) h =
    let (held, answered) = handle_command-IsView db v c.kv_cmd h in
    let (all, sent) =
      update_database_and_respond-IsView me (handle_command db c.kv_cmd).0 (after v c.kv_cmd) cs
        held in
    (all, rw (answered, sent) refl)
