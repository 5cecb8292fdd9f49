-- ===== src/Tests/Replication.antt =====
-- The theorems on the log and on the replica, at concrete states.
use omnipaxos_kv_project.Prelude.{ℕ, ◌+◌, true, length, ◌≡◌, refl, none, some, List, [], ◌∷◌, arith}
use omnipaxos_kv_project.Prelude.Words.{add64, sub64}
use omnipaxos_kv_project.Common.{Command, command_request}
use omnipaxos_kv_project.Storage.{decided, ok, Snapshot}
use omnipaxos_kv_project.Storage.Internal.{
  append_entries_and_get_accepted_idx, flush_batch, get_decided_idx_without_stopsign,
}
use omnipaxos_kv_project.Storage.Cache
use omnipaxos_kv_project.Storage.Internal.Read.{read_decided_suffix}
use omnipaxos_kv_project.Storage.Internal.Compact.{try_trim, new_compacted_idx}
use omnipaxos_kv_project.Storage.Memory
use omnipaxos_kv_project.Storage.Memory.{write_atomically}
use omnipaxos_kv_project.Storage.Internal.Consistency.{IsConsistent}
use omnipaxos_kv_project.Storage.Internal.Batching.{
  Write, append, flush, run, received, received-run,
}
use omnipaxos_kv_project.Storage.Internal.Reading.{
  read_decided_suffix-window, read_decided_suffix-beyond,
}
use omnipaxos_kv_project.Storage.Internal.Upkeep
use omnipaxos_kv_project.Storage.Internal.Upkeep.{
  Change, trims, flushes, stops, AllRoom, changes, changes-IsConsistent,
}
use omnipaxos_kv_project.SequencePaxos.Leading.{get_promise}
use omnipaxos_kv_project.SequencePaxos.Events
use omnipaxos_kv_project.SequencePaxos.Events.{
  Event, appends, runs, waiter_runs, ticks, leads, receives,
}
use omnipaxos_kv_project.SequencePaxos.Events.Sound.{Sound, run-Sound}
use omnipaxos_kv_project.SequencePaxos.Events.Roles.{standing}
use omnipaxos_kv_project.SequencePaxos.Events.Moves.{IsLed, Grows, run-IsLed, run-Grows}
use omnipaxos_kv_project.Tests.{command, hashing, counting, internal, replica, first_ballot}

-- A command is proposed and inserted, released, appended, and its acknowledgement pushed.
abbrev events : List (Event Command)
events =
    leads first_ballot
    ∷ appends (command 3 30)
    ∷ runs 0 0
    ∷ waiter_runs
    ∷ ticks true
    ∷ waiter_runs
    ∷ runs 0 0
    ∷ runs 0 0
    ∷ []

replica-Sound : Sound hashing replica
replica-Sound = record {
  unbatched = ground arith;
  flushed = refl;
  accepted = refl;
  justified = tt;
  pending = tt;
}

run-Sound_example : Sound hashing (Events.run hashing counting (replica, 0) events).0
run-Sound_example = run-Sound hashing counting (replica, 0) events replica-Sound

replica-IsLed : IsLed (standing replica)
replica-IsLed = record { never_accepts = λ e. cc; same_ballot = refl; leads_itself = λ e. cc }

run-IsLed_example : IsLed (standing (Events.run hashing counting (replica, 0) events).0)
run-IsLed_example = run-IsLed hashing counting (replica, 0) events replica-IsLed

run-Grows_example :
    Grows (get_promise replica) (get_promise (Events.run hashing counting (replica, 0) events).0)
run-Grows_example = run-Grows hashing counting (replica, 0) events

pub internal-IsConsistent : (d : ℕ) → IsConsistent (internal d)
internal-IsConsistent d = record {
  promise = refl;
  round = refl;
  decided = refl;
  compacted = refl;
  trimmed = refl;
  stopsign = refl;
  accepted = refl;
  fits = ground arith;
}

abbrev writes : List (Write Command)
writes = append (command 3 30 ∷ command 4 40 ∷ []) ∷ flush ∷ append (command 5 50 ∷ []) ∷ []

received-run_example :
    received (run (internal 1) writes)
    ≡ command 1 10 ∷ command 2 20 ∷ command 3 30 ∷ command 4 40 ∷ command 5 50 ∷ []
received-run_example = received-run (internal 1) writes

read_decided_suffix-window_example :
    read_decided_suffix (internal 1) 0 ≡ ok (some (decided (command 1 10) ∷ []))
read_decided_suffix-window_example =
    read_decided_suffix-window (internal 1) (internal-IsConsistent 1) 0 (ground arith)
      (ground arith) (ground arith) refl

read_decided_suffix-beyond_example : read_decided_suffix (internal 3) 0 ≡ ok none
read_decided_suffix-beyond_example =
    read_decided_suffix-beyond (internal 3) (internal-IsConsistent 3) 0 (ground arith)
      (ground arith) (ground arith)

-- A snapshot is the number of the entries that it stands for.
abbrev counted : Snapshot Command ℕ
counted = record { create = λ es. length es; merge = λ s t. s + t; use_snapshots = true }

abbrev upkeep : List (Change Command)
upkeep = Upkeep.append (command 3 30 ∷ []) ∷ trims 1 ∷ flushes ∷ stops none ∷ []

upkeep-AllRoom : AllRoom counted (internal 1) upkeep
unfolding append_entries_and_get_accepted_idx flush_batch try_trim new_compacted_idx
    get_decided_idx_without_stopsign Cache.append_entries Cache.take_batched_entries
    Memory.append_entries write_atomically add64 sub64 Cache.stopsign_is_decided Memory.trim
upkeep-AllRoom = (ground arith, (ground arith, (ground arith, (ground arith, tt))))

changes-IsConsistent_example : IsConsistent (changes counted (internal 1) upkeep)
changes-IsConsistent_example =
    changes-IsConsistent counted (internal 1) upkeep (internal-IsConsistent 1) upkeep-AllRoom
