-- ===== src/Election/Runs.antt =====
-- The election from its start, over any run of messages, ends of rounds and new priorities.
use omnipaxos_kv_project.Prelude.{ℕ, refl, Option, List, [], ◌∷◌}
use omnipaxos_kv_project.Ballot.{Ballot}
use omnipaxos_kv_project.Messages.{BleMessage}
use omnipaxos_kv_project.SequencePaxos.{Role, Phase}
use omnipaxos_kv_project.Election.{
  BallotLeaderElection, BleConfig, with, set_priority, handle, hb_timeout,
}
use omnipaxos_kv_project.Election.Rounds.{IsRound, handle-IsRound, hb_timeout-IsRound}

-- The calls on the election
pub data Event : Type 0 where
  receives : BleMessage → Event
  ends_round : Role → Phase → Ballot → Event
  sets_priority : ℕ → Event

abbrev step : BallotLeaderElection → Event → BallotLeaderElection
step b (receives m) = handle b m
step b (ends_round role phase promise) = (hb_timeout b role phase promise).0
step b (sets_priority p) = set_priority b p

abbrev pub run : BallotLeaderElection → List Event → BallotLeaderElection
run b [] = b
run b (e ∷ events) = run (step b e) events

with-IsRound : (config : BleConfig) (recovered : Option Ballot) → IsRound (with config recovered)
unfolding with
with-IsRound config recovered = record { current = tt; own = refl }

set_priority-IsRound : (b : BallotLeaderElection) (p : ℕ) → IsRound b → IsRound (set_priority b p)
unfolding set_priority
set_priority-IsRound b p k = record { current = k.current; own = k.own }

kept : (b : BallotLeaderElection) (events : List Event) → IsRound b → IsRound (run b events)
kept b [] k = k
kept b (receives m ∷ events) k = kept (handle b m) events (handle-IsRound b m k)
kept b (ends_round role phase promise ∷ events) k =
    kept (hb_timeout b role phase promise).0 events (hb_timeout-IsRound b role phase promise k)
kept b (sets_priority p ∷ events) k = kept (set_priority b p) events (set_priority-IsRound b p k)

-- From the start, with a recovered leader or without: whatever messages arrive, however rounds end
-- and whatever priorities are set, in any order, the replies that count are of the current round and
-- of the server's configuration, and the ballot that the server runs for is its own.
pub run-IsRound :
    (config : BleConfig) (recovered : Option Ballot) (events : List Event)
    → IsRound (run (with config recovered) events)
run-IsRound config recovered events =
    kept (with config recovered) events (with-IsRound config recovered)
