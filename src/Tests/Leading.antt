-- ===== src/Tests/Leading.antt =====
-- The theorems on elections, quorums and leading, at concrete states.
use omnipaxos_kv_project.Prelude.{
  ℕ, ◌+◌, ◌<◌, ◌≡◌, ◌⊎◌, refl, none, some, List, [], ◌∷◌, true, false, length, arith, All,
}
use omnipaxos_kv_project.Ballot
use omnipaxos_kv_project.Ballot.{Ballot, lt, le}
use omnipaxos_kv_project.Common.{Command, command_request}
use omnipaxos_kv_project.Messages.{BleMessage, reply}
use omnipaxos_kv_project.Config.{
  validate, validate_cluster, validate_quorum, validate_server, invalid_config,
  default_server_config,
}
use omnipaxos_kv_project.Config.Quorum.{is_prepare_quorum, is_accept_quorum, quorums_overlap}
use omnipaxos_kv_project.Config.Quorum
use omnipaxos_kv_project.SequencePaxos.{follower, leader, no_phase}
use omnipaxos_kv_project.SequencePaxos.Leading.{get_promise}
use omnipaxos_kv_project.Prelude.Words.{add32, add64, sub64}
use omnipaxos_kv_project.SequencePaxos.Events.{Event, leads}
use omnipaxos_kv_project.SequencePaxos.Events.Roles.{standing}
use omnipaxos_kv_project.SequencePaxos.Events.Moves.{IsLed}
use omnipaxos_kv_project.Election.{
  BleConfig, with, hb_timeout, update_leader, update_happiness, check_takeover, sync_promise,
  new_hb_round,
}
use omnipaxos_kv_project.Election.Rounds.{IsRound}
use omnipaxos_kv_project.Election.Runs
use omnipaxos_kv_project.Election.Runs.{receives, ends_round, sets_priority, run-IsRound}
use omnipaxos_kv_project.Election.Takeover.{
  IsBelow, CanTakeOver, IsUnhappy, IsNext, hb_timeout-leader, hb_timeout-elected,
}
use omnipaxos_kv_project.OmniPaxos
use omnipaxos_kv_project.OmniPaxos.{OmniPaxos, tick, election_timeout, with_timeout, refused}
use omnipaxos_kv_project.SequencePaxos.Handlers
use omnipaxos_kv_project.Storage.{ok, decided, undecided}
use omnipaxos_kv_project.Storage.Cache
use omnipaxos_kv_project.Storage.Memory
use omnipaxos_kv_project.Storage.Internal.Read
use omnipaxos_kv_project.Storage.Internal.Read.{unbounded}
use omnipaxos_kv_project.OmniPaxos.Leadership.{IsOwn, tick-role, election_timeout-agrees}
use omnipaxos_kv_project.OmniPaxos.Timeouts.{timeouts, timeouts-period}
use omnipaxos_kv_project.Tests.{
  ballot, no_ballot, first_ballot, heartbeat, election, server, cluster, replica, command, storage,
  clock,
}

quorums_overlap_example : length cluster.nodes < 3 + 2
unfolding validate_cluster validate_quorum Quorum.with is_prepare_quorum is_accept_quorum add64
quorums_overlap_example = quorums_overlap cluster 3 2 refl refl refl

election-IsRound : IsRound election
election-IsRound = record { current = (ground arith, tt); own = refl }

abbrev message : BleMessage
message = record {
  from = 3;
  to = 1;
  msg = reply (record { round = 4; ballot = ballot 1 3; leader = first_ballot; happy = true });
}

-- A reply of the first round, the end of the round, and the same reply again, which comes too late
abbrev round_events : List Runs.Event
round_events =
    receives message
    ∷ ends_round follower no_phase no_ballot
    ∷ sets_priority 2
    ∷ receives message
    ∷ []

abbrev ble_config : BleConfig
ble_config = record {
  configuration_id = 1;
  pid = 1;
  peers = 2 ∷ 3 ∷ [];
  priority = 0;
  flexible_quorum = none;
}

run-IsRound_example : IsRound (Runs.run (with ble_config none) round_events)
run-IsRound_example = run-IsRound ble_config none round_events

hb_timeout-leader_example :
    let b = (hb_timeout election follower no_phase no_ballot).0 in
    (le first_ballot b.leader ≡ true)
    × (le no_ballot b.leader ≡ true)
    × All (IsBelow b.leader) (heartbeat ∷ [])
unfolding update_leader lt
hb_timeout-leader_example = hb_timeout-leader election follower no_phase no_ballot (ground arith)

-- The server takes over: its one neighbour and itself are a quorum, and neither is happy.
hb_timeout-elected_example :
    (le first_ballot (ballot 2 1) ≡ true)
    × (le no_ballot (ballot 2 1) ≡ true)
    × All (IsBelow (ballot 2 1)) (heartbeat ∷ [])
    × ((ballot 2 1 ≡ first_ballot)
        ⊎ (((ballot 2 1 ≡ no_ballot) × (no_ballot.pid ≡ election.pid))
            ⊎ (IsUnhappy election follower no_phase
                × CanTakeOver election
                × IsNext election (ballot 2 1))))
unfolding hb_timeout update_leader update_happiness check_takeover new_hb_round sync_promise lt le
    Ballot.eq is_prepare_quorum add32
hb_timeout-elected_example =
    hb_timeout-elected election follower no_phase no_ballot (ballot 2 1) (ground arith) refl

server-IsOwn : IsOwn server
server-IsOwn = (refl, election-IsRound)

tick-role_example : (tick server).seq_paxos.role ≡ leader
tick-role_example = tick-role server server-IsOwn refl

election_timeout-agrees_example :
    (le (ballot 2 1) (get_promise (election_timeout server).seq_paxos) ≡ true)
    × (le (get_promise (election_timeout server).seq_paxos) (ballot 2 1) ≡ true)
unfolding hb_timeout update_leader update_happiness check_takeover new_hb_round sync_promise lt le
    Ballot.eq is_prepare_quorum add32
election_timeout-agrees_example =
    election_timeout-agrees server (ballot 2 1) server-IsOwn refl (ground arith) refl

abbrev events : List (Event Command)
events = leads first_ballot ∷ []

abbrev following : OmniPaxos Command ℕ
following = record server { seq_paxos = replica }

following-IsLed : IsLed (standing replica)
following-IsLed = record { never_accepts = λ e. cc; same_ballot = refl; leads_itself = λ e. cc }

timeouts-period_example : timeouts (with_timeout 3) 3 ≡ (with_timeout 3, false ∷ false ∷ true ∷ [])
timeouts-period_example = timeouts-period 2 (ground arith)

-- The default number of a server is refused, and a read of the whole log says what is decided.
refused_without_pid :
    OmniPaxos.build_for_server cluster default_server_config (storage 1) clock
    ≡ refused (invalid_config "Server pid cannot be 0")
unfolding OmniPaxos.build_for_server OmniPaxos.build validate validate_cluster validate_quorum
    validate_server add64
refused_without_pid = refl

read_of_all :
    OmniPaxos.read_entries server unbounded unbounded
    ≡ ok (some (decided (command 1 10) ∷ undecided (command 2 20) ∷ []))
unfolding OmniPaxos.read_entries Read.read Read.start_idx Read.end_idx Read.get_entry_type
    Read.create_read_log_entries Read.label Memory.get_entries add64 sub64
read_of_all = refl

not_reconfigured : OmniPaxos.is_reconfigured server ≡ none
unfolding OmniPaxos.is_reconfigured Handlers.is_reconfigured Cache.stopsign_is_decided
not_reconfigured = refl
