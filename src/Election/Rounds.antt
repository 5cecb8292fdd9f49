-- ===== src/Election/Rounds.antt =====
-- The replies of a heartbeat round, and the leader over the rounds.
use omnipaxos_kv_project.Prelude.{
  ℕ, ◌≡◌, sym, subst, inl, inr, [], ◌∷◌, ◌&&◌, ◌==◌, arith, Bool-cases, All, All-append,
}
use omnipaxos_kv_project.Ballot.{Ballot}
use omnipaxos_kv_project.Messages.{BleMessage, HeartbeatMsg, HeartbeatReply, request, reply}
use omnipaxos_kv_project.SequencePaxos.{Role, Phase}
use omnipaxos_kv_project.Election.{
  BallotLeaderElection, new_hb_round, update_leader, update_happiness, check_takeover, sync_promise,
  hb_timeout, handle, handle_msg, handle_request, handle_reply,
}

-- A reply of the current round, from a server of the same configuration
abbrev pub IsCurrent : BallotLeaderElection → HeartbeatReply → Type 0
IsCurrent b r = (r.round ≡ b.hb_round) × (r.ballot.config_id ≡ b.configuration_id)

-- The replies that count are of the current round; the ballot that the server runs for is its own.
pub record IsRound (b : BallotLeaderElection) : Type 0 where
  pub current : All (IsCurrent b) b.heartbeat_replies
  pub own : b.current_ballot.pid ≡ b.pid

handle_reply-IsRound :
    (b : BallotLeaderElection) (r : HeartbeatReply) → IsRound b → IsRound (handle_reply b r)
unfolding handle_reply
handle_reply-IsRound b r k =
    elim (Bool-cases (r.round == b.hb_round && r.ballot.config_id == b.configuration_id)) [
      | inl e ↦ rw e (record {
        current =
            All-append (IsCurrent b) b.heartbeat_replies (r ∷ []) k.current (ground arith, tt);
        own = k.own;
      })
      | inr e ↦ rw e k
    ]

handle_msg-IsRound :
    (b : BallotLeaderElection) (from : ℕ) (m : HeartbeatMsg)
    → IsRound b
    → IsRound (handle_msg b from m)
unfolding handle_msg handle_request
handle_msg-IsRound b from (request req) k = record { current = k.current; own = k.own }
handle_msg-IsRound b from (reply rep) k = handle_reply-IsRound b rep k

pub handle-IsRound : (b : BallotLeaderElection) (m : BleMessage) → IsRound b → IsRound (handle b m)
unfolding handle
handle-IsRound b m k = handle_msg-IsRound b m.from m.msg k

check_takeover-own :
    (b : BallotLeaderElection)
    → b.current_ballot.pid ≡ b.pid
    → (check_takeover b).current_ballot.pid ≡ (check_takeover b).pid
unfolding check_takeover
check_takeover-own b k = ground arith

sync_promise-own :
    (b : BallotLeaderElection) (promise : Ballot)
    → b.current_ballot.pid ≡ b.pid
    → (sync_promise b promise).current_ballot.pid ≡ (sync_promise b promise).pid
unfolding sync_promise
sync_promise-own b promise k = ground arith

update-own :
    (b : BallotLeaderElection) (role : Role) (phase : Phase)
    → b.current_ballot.pid ≡ b.pid
    → (update_happiness (update_leader b) role phase).current_ballot.pid
      ≡ (update_happiness (update_leader b) role phase).pid
unfolding update_happiness update_leader
update-own b role phase k = k

new_hb_round-own :
    (b : BallotLeaderElection)
    → b.current_ballot.pid ≡ b.pid
    → (new_hb_round b).current_ballot.pid ≡ (new_hb_round b).pid
unfolding new_hb_round
new_hb_round-own b k = k

hb_timeout-own :
    (b : BallotLeaderElection) (role : Role) (phase : Phase) (promise : Ballot)
    → b.current_ballot.pid ≡ b.pid
    → (hb_timeout b role phase promise).0.current_ballot.pid
      ≡ (hb_timeout b role phase promise).0.pid
unfolding hb_timeout
hb_timeout-own b role phase promise k =
    sync_promise-own (new_hb_round (check_takeover (update_happiness (update_leader b) role phase)))
      promise
      (new_hb_round-own (check_takeover (update_happiness (update_leader b) role phase)) (
        check_takeover-own (update_happiness (update_leader b) role phase)
          (update-own b role phase k)))

sync_promise-replies :
    (b : BallotLeaderElection) (promise : Ballot)
    → (sync_promise b promise).heartbeat_replies ≡ b.heartbeat_replies
unfolding sync_promise
sync_promise-replies b promise = ground arith

hb_timeout-replies :
    (b : BallotLeaderElection) (role : Role) (phase : Phase) (promise : Ballot)
    → (hb_timeout b role phase promise).0.heartbeat_replies ≡ []
unfolding hb_timeout new_hb_round
hb_timeout-replies b role phase promise =
    sync_promise-replies
      (new_hb_round (check_takeover (update_happiness (update_leader b) role phase))) promise

pub hb_timeout-IsRound :
    (b : BallotLeaderElection) (role : Role) (phase : Phase) (promise : Ballot)
    → IsRound b
    → IsRound (hb_timeout b role phase promise).0
hb_timeout-IsRound b role phase promise k = record {
  current =
      subst (All (IsCurrent (hb_timeout b role phase promise).0))
        (sym (hb_timeout-replies b role phase promise)) tt;
  own = hb_timeout-own b role phase promise k.own;
}
