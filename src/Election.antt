-- ===== src/Election.antt =====
-- `BallotLeaderElection` of crates/custom-paxos/omnipaxos/src/ballot_leader_election.rs. The round
-- and the ballot numbers are `u32`.
pub mod Rounds
pub mod Runs
pub mod Takeover
use omnipaxos_kv_project.Prelude.{
  ℕ, ◌+◌, Option, none, some, List, [], ◌∷◌, ◌++◌, map, Bool, true, false, not, ◌&&◌, ◌||◌, ◌==◌,
  length, if◌then◌else◌,
}
use omnipaxos_kv_project.Prelude.Words.{add32}
use omnipaxos_kv_project.Ballot
use omnipaxos_kv_project.Ballot.{Ballot}
use omnipaxos_kv_project.Messages.{
  BleMessage, HeartbeatMsg, HeartbeatReply, HeartbeatRequest, request, reply,
}
use omnipaxos_kv_project.Config.{FlexibleQuorum}
use omnipaxos_kv_project.Config.Quorum
use omnipaxos_kv_project.Config.Quorum.{Quorum, is_prepare_quorum, is_accept_quorum}
use omnipaxos_kv_project.SequencePaxos.{Role, follower, leader, Phase, accept}

pub record BallotLeaderElection : Type 0 where
  pub configuration_id : ℕ
  pub pid : ℕ
  pub peers : List ℕ
  pub hb_round : ℕ
  pub heartbeat_replies : List HeartbeatReply
  pub prev_replies : List HeartbeatReply
  pub current_ballot : Ballot
  pub leader : Ballot
  pub happy : Bool
  pub quorum : Quorum
  pub outgoing : List BleMessage

pub record BleConfig : Type 0 where
  pub configuration_id : ℕ
  pub pid : ℕ
  pub peers : List ℕ
  pub priority : ℕ
  pub flexible_quorum : Option FlexibleQuorum

unfoldable pub new_hb_round : BallotLeaderElection → BallotLeaderElection
new_hb_round b =
    let round = add32 b.hb_round 1 in
    record b {
      prev_replies = b.heartbeat_replies;
      heartbeat_replies = [];
      hb_round = round;
      outgoing =
          b.outgoing
          ++ map
              (λ peer. record { from = b.pid; to = peer; msg = request (record { round = round }) })
              b.peers;
    }

-- The recovered leader counts unless it is the default ballot; then the own ballot restarts at
-- the round 0 in place of 1.
is_recovered : Option Ballot → Bool
is_recovered none = false
is_recovered (some b) = not (Ballot.eq b Ballot.default)

recovered_or : Option Ballot → Ballot → Ballot
recovered_or none own = own
recovered_or (some b) own = b

-- `BallotLeaderElection::with`
unfoldable pub with : BleConfig → Option Ballot → BallotLeaderElection
unfolding is_recovered recovered_or new_hb_round
with config recovered_leader =
    let recovered = is_recovered recovered_leader in
    let own : Ballot = record {
      config_id = config.configuration_id;
      n = if recovered then 0 else 1;
      priority = config.priority;
      pid = config.pid;
    } in
    new_hb_round (record {
      configuration_id = config.configuration_id;
      pid = config.pid;
      peers = config.peers;
      hb_round = 0;
      heartbeat_replies = [];
      prev_replies = [];
      current_ballot = own;
      leader = if recovered then recovered_or recovered_leader own else own;
      happy = true;
      quorum = Quorum.with config.flexible_quorum (length config.peers + 1);
      outgoing = [];
    })

unfoldable pub set_priority : BallotLeaderElection → ℕ → BallotLeaderElection
set_priority b p =
    let c = b.current_ballot in
    record b {
      current_ballot = record { config_id = c.config_id; n = c.n; priority = p; pid = c.pid };
    }

-- `iter().map(|r| r.ballot).max()`: of equal maxima the last one
abbrev pub max_from : Ballot → List HeartbeatReply → Ballot
max_from m [] = m
max_from m (r ∷ rs) = max_from (if Ballot.lt r.ballot m then m else r.ballot) rs

abbrev pub max_ballot : List HeartbeatReply → Option Ballot
max_ballot [] = none
max_ballot (r ∷ rs) = some (max_from r.ballot rs)

abbrev pub raised : Ballot → Option Ballot → Ballot
raised current none = current
raised current (some m) = if Ballot.lt current m then m else current

unfoldable pub update_leader : BallotLeaderElection → BallotLeaderElection
update_leader b = record b { leader = raised b.leader (max_ballot b.heartbeat_replies) }

abbrev pub count : (HeartbeatReply → Bool) → List HeartbeatReply → ℕ
count p [] = 0
count p (r ∷ rs) = (if p r then 1 else 0) + count p rs

abbrev pub any : (HeartbeatReply → Bool) → List HeartbeatReply → Bool
any p [] = false
any p (r ∷ rs) = p r || any p rs

abbrev pub all : (HeartbeatReply → Bool) → List HeartbeatReply → Bool
all p [] = true
all p (r ∷ rs) = p r && all p rs

abbrev pub can_form_quorum : Quorum → Role → Phase → ℕ → Bool
can_form_quorum q leader accept n = is_accept_quorum q n
can_form_quorum q _ _ n = is_prepare_quorum q n

unfoldable pub update_happiness : BallotLeaderElection → Role → Phase → BallotLeaderElection
update_happiness b role phase =
    let replies = b.heartbeat_replies in
    let potential_followers = count (λ r. Ballot.le r.leader b.current_ballot) replies in
    record b {
      happy =
          if Ballot.eq b.leader b.current_ballot
          then (can_form_quorum b.quorum role phase (potential_followers + 1)
              || any (λ r. Ballot.lt b.current_ballot r.leader && r.happy) replies)
          else any (λ r. Ballot.eq r.ballot b.leader && r.happy) replies;
    }

-- The own ballot, past that of the leader
abbrev pub next_ballot : BallotLeaderElection → Ballot
next_ballot b =
    let c = b.current_ballot in
    record { config_id = c.config_id; n = add32 b.leader.n 1; priority = c.priority; pid = c.pid }

unfoldable pub check_takeover : BallotLeaderElection → BallotLeaderElection
check_takeover b =
    if not b.happy
      && all (λ r. not r.happy) b.heartbeat_replies
      && is_prepare_quorum b.quorum (length b.heartbeat_replies + 1)
    then record b { current_ballot = next_ballot b; leader = next_ballot b; happy = true }
    else b

-- The end of `hb_timeout`: the leader is brought up to the promise of `SequencePaxos`.
unfoldable pub sync_promise : BallotLeaderElection → Ballot → BallotLeaderElection
sync_promise b promise =
    if Ballot.lt b.leader promise
    then record b {
      leader = promise;
      current_ballot = if promise.pid == b.pid then promise else b.current_ballot;
      happy = true;
    }
    else b

-- `hb_timeout`, with the elected ballot if this server is elected
unfoldable pub hb_timeout :
    BallotLeaderElection → Role → Phase → Ballot → BallotLeaderElection × Option Ballot
unfolding update_leader update_happiness check_takeover new_hb_round sync_promise
hb_timeout b role phase promise =
    let ended = check_takeover (update_happiness (update_leader b) role phase) in
    let b' = sync_promise (new_hb_round ended) promise in
    (b', if Ballot.eq b'.leader b'.current_ballot then some b'.current_ballot else none)

unfoldable pub handle_request : BallotLeaderElection → ℕ → HeartbeatRequest → BallotLeaderElection
handle_request b from req = record b {
  outgoing =
      b.outgoing
      ++ record {
        from = b.pid;
        to = from;
        msg = reply (record {
          round = req.round;
          ballot = b.current_ballot;
          leader = b.leader;
          happy = b.happy;
        });
      }
        ∷ [];
}

unfoldable pub handle_reply : BallotLeaderElection → HeartbeatReply → BallotLeaderElection
handle_reply b rep =
    if rep.round == b.hb_round && rep.ballot.config_id == b.configuration_id
    then record b { heartbeat_replies = b.heartbeat_replies ++ rep ∷ [] }
    else b

handle_msg : BallotLeaderElection → ℕ → HeartbeatMsg → BallotLeaderElection
handle_msg b from (request req) = handle_request b from req
handle_msg b from (reply rep) = handle_reply b rep

-- `BallotLeaderElection::handle`
unfoldable pub handle : BallotLeaderElection → BleMessage → BallotLeaderElection
unfolding handle_msg handle_request handle_reply
handle b m = handle_msg b m.from m.msg
