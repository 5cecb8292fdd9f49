-- ===== src/Tests/Queues.antt =====
-- The theorems on the clock and on the deadline buffers, at concrete states.
use omnipaxos_kv_project.Prelude.{
  ℕ, ◌+◌, ◌*◌, ◌<◌, ◌≤◌, ◌≡◌, refl, Option, some, List, [], ◌∷◌, ◌++◌, map, true, false, All,
  Ascending, Perm, arith,
}
use omnipaxos_kv_project.Prelude.Assoc
use omnipaxos_kv_project.Common.{Command, command_request}
use omnipaxos_kv_project.Clock.{resync, get_uncertainty, millisecond, process_deadlines}
use omnipaxos_kv_project.Clock.Drift.{ticks, uncertainty_covers_drift, uncertainty_lost_at_sync}
use omnipaxos_kv_project.Clock.Deadlines.{Fires, process_deadlines-Fires}
use omnipaxos_kv_project.Buffers.{Buffers, insert, free_from_late, take_next}
use omnipaxos_kv_project.Buffers.Freeing.{freed_out_of_order}
use omnipaxos_kv_project.Buffers.Order.{
  Op, inserts, frees, takes, After, released, released-Ascending, step,
}
use omnipaxos_kv_project.Buffers.Holding.{ids}
use omnipaxos_kv_project.Buffers.Conserving.{after, released-conserves}
use omnipaxos_kv_project.Tests.{command, clock}

uncertainty_covers_drift_example :
    let d = ticks (resync clock 500) (true ∷ false ∷ []) in
    let now = 500 + 2 * millisecond in
    (now ≤ d.logical_time + get_uncertainty d) × (d.logical_time ≤ now + get_uncertainty d)
uncertainty_covers_drift_example =
    uncertainty_covers_drift clock 500 (true ∷ false ∷ []) (ground arith) (ground arith)

uncertainty_lost_at_sync_example :
    let d = ticks (resync clock 500) (true ∷ true ∷ true ∷ []) in
    (get_uncertainty d ≡ 0) × (d.logical_time ≡ 500 + 3 * (millisecond + 5))
uncertainty_lost_at_sync_example = uncertainty_lost_at_sync clock 500 2 refl (ground arith)

process_deadlines-Fires_example :
    (fired : List ℕ) × Fires clock fired (process_deadlines clock).0 (process_deadlines clock).1
process_deadlines-Fires_example = process_deadlines-Fires clock

-- Requests at the deadlines 40 and 50, and one that came late
abbrev buffers : Buffers Command
buffers = record {
  early = command 1 50 ∷ command 2 40 ∷ [];
  notifiers = (1, 1) ∷ (2, 2) ∷ (3, 3) ∷ [];
  late = (3, command 3 10) ∷ [];
  last_released_deadline = some 30;
}

abbrev calls : List (Op Command)
calls = inserts (command 4 60) false 60 4 ∷ frees 3 35 ∷ takes ∷ []

released-Ascending_example :
    All (λ r. After (some 30) r.deadline) (released buffers calls)
    × Ascending (map (λ r. r.deadline) (released buffers calls))
unfolding step insert
released-Ascending_example =
    released-Ascending buffers calls (ground arith, (ground arith, tt))
      (ground arith, (ground arith, (tt, tt)))

freed_out_of_order_example :
    (b : Buffers Command) × (ch : Option ℕ) × (r : Command) × (take_next
        (free_from_late buffers 3 20)
      ≡ some (b, ch, r))
    × (r.deadline < 30)
unfolding Assoc.get
freed_out_of_order_example =
    freed_out_of_order buffers 3 20 30 (command 3 10) refl refl (ground arith)

-- A request is inserted, the late one is freed, and it is the first to be released.
released-conserves_example :
    Perm
      (map command_request.get_id (released buffers calls) ++ ids (after buffers calls))
      (4 ∷ 1 ∷ 2 ∷ 3 ∷ [])
unfolding step insert Assoc.get
released-conserves_example =
    released-conserves buffers calls (refl, refl, tt) (refl, (tt, (tt, tt)))
