-- ===== src/Tests/Serving.antt =====
-- The theorem on the execution of decided commands, at a concrete database.
use omnipaxos_kv_project.Prelude.{◌≡◌, none, some, List, [], ◌∷◌, refl}
use omnipaxos_kv_project.Prelude.Assoc
use omnipaxos_kv_project.Common.{Command, KvCommand, ServerMessage}
use omnipaxos_kv_project.Server.{update_database_and_respond}
use omnipaxos_kv_project.Server.Execution.{
  View, IsView, after_all, update_database_and_respond-IsView,
}
use omnipaxos_kv_project.Tests.{command}

abbrev pub nothing : View
nothing key = none

pub nothing-IsView : IsView [] nothing
unfolding Assoc.get
nothing-IsView key = refl

abbrev decided : List Command
decided = command 1 10 ∷ record (command 2 20) { kv_cmd = KvCommand.get "key" } ∷ []

update_database_and_respond-IsView_example :
    IsView (update_database_and_respond 1 [] decided).0 (after_all nothing decided)
    × ((update_database_and_respond 1 [] decided).1
        ≡ (1, ServerMessage.write 1) ∷ (1, ServerMessage.read 2 (some "value")) ∷ [])
update_database_and_respond-IsView_example =
    update_database_and_respond-IsView 1 [] nothing decided nothing-IsView
