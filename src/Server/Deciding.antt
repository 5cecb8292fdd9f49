-- ===== src/Server/Deciding.antt =====
-- What a server makes of newly decided entries, against its replica's log.
use omnipaxos_kv_project.Prelude.{◌≤◌, ◌<◌, ◌≡◌, refl, none, some, List, [], ◌∷◌, map, lt→ltb}
use omnipaxos_kv_project.Common.{Command}
use omnipaxos_kv_project.Storage.{decided}
use omnipaxos_kv_project.Storage.Internal.{InternalStorage}
use omnipaxos_kv_project.Storage.Internal.Consistency.{IsConsistent}
use omnipaxos_kv_project.Storage.Internal.Reading.{window, read_decided_suffix-window}
use omnipaxos_kv_project.OmniPaxos.{read_decided_suffix}
use omnipaxos_kv_project.Server.{update_database_and_respond}
use omnipaxos_kv_project.Server.Execution.{
  View, IsView, after_all, responses, update_database_and_respond-IsView,
}
use omnipaxos_kv_project.Server.Sending.{decided_commands, respond}
use omnipaxos_kv_project.Server.Loop.{OmniPaxosServer, handle_decided_entries}

decided_commands-map : (cmds : List Command) → decided_commands (map decided cmds) ≡ some cmds
unfolding decided_commands
decided_commands-map [] = refl
decided_commands-map (cmd ∷ cmds) = rw (decided_commands-map cmds) refl

module _ {S : Type 0} where
  -- The storage of the server's replica
  abbrev pub storage_of : OmniPaxosServer S → InternalStorage Command S
  storage_of s = s.omnipaxos.seq_paxos.internal_storage

  -- Where no task of the replica runs between the two locks of the handler, and
  -- the replica's storage is consistent and has no stop-sign, its decided index is within its
  -- accepted log and beyond the index up to which the server has executed, which is not compacted,
  -- and the server's database holds what a function from keys to values says: the server does not
  -- panic, takes the decided index over, executes exactly the entries of the log between the two
  -- indices in their order, answers the clients of those that it coordinates, each with the result
  -- at its place in that order, and leaves the replica as it is.
  pub handle_decided_entries-IsView :
      (s : OmniPaxosServer S) (v : View) (h : IsConsistent (storage_of s))
      → (storage_of s).state_cache.compacted_idx ≤ s.current_decided_idx
      → s.current_decided_idx < (storage_of s).state_cache.decided_idx
      → (storage_of s).state_cache.decided_idx ≤ (storage_of s).state_cache.accepted_idx
      → (storage_of s).state_cache.stopsign ≡ none
      → IsView s.database v
      → let decided_idx = (storage_of s).state_cache.decided_idx in
        let cmds = window (storage_of s) h s.current_decided_idx decided_idx in
        (s' : OmniPaxosServer S) × (handle_decided_entries s ≡ some s')
        × (s'.current_decided_idx ≡ decided_idx)
        × IsView s'.database (after_all v cmds)
        × (s'.network ≡ respond s.network (responses s.id v cmds))
        × (s'.omnipaxos ≡ s.omnipaxos)
  unfolding handle_decided_entries read_decided_suffix
  handle_decided_entries-IsView s v h l b u n held =
      let decided_idx = (storage_of s).state_cache.decided_idx in
      let cmds = window (storage_of s) h s.current_decided_idx decided_idx in
      let (view, answered) = update_database_and_respond-IsView s.id s.database v cmds held in
      let executed = update_database_and_respond s.id s.database cmds in
      (
        record s {
          database = executed.0;
          network = respond s.network executed.1;
          current_decided_idx = decided_idx;
        },
        rw
            (
              lt→ltb s.current_decided_idx decided_idx b,
              read_decided_suffix-window (storage_of s) h s.current_decided_idx l b u n,
              decided_commands-map cmds,
            )
            refl,
        refl,
        view,
        rw answered refl,
        refl,
      )
