-- ===== src/SequencePaxos/Leading.antt =====
-- crates/custom-paxos/omnipaxos/src/sequence_paxos/leader.rs, and `reconnected` of mod.rs.
use omnipaxos_kv_project.Prelude.{ℕ, ◌||◌, ◌==◌, if◌then◌else◌}
use omnipaxos_kv_project.Ballot
use omnipaxos_kv_project.Ballot.{Ballot}
use omnipaxos_kv_project.Storage.Internal
use omnipaxos_kv_project.SequencePaxos.{SequencePaxos, follower, leader, prepare, recover}

module _ {T S : Type 0} where
  abbrev pub get_promise : SequencePaxos T S → Ballot
  get_promise s = s.internal_storage.state_cache.promise

  unfoldable pub become_follower : SequencePaxos T S → SequencePaxos T S
  become_follower s = record s { role = follower }

  -- The branch of `handle_leader` for a ballot of this server
  abbrev pub become_leader : SequencePaxos T S → Ballot → SequencePaxos T S
  become_leader s n = record s {
    leader_state = record (s.leader_state) { n_leader = n };
    internal_storage = Internal.set_promise (Internal.flush_batch s.internal_storage).0 n;
    role = leader;
    phase = prepare;
  }

  unfoldable pub handle_leader : SequencePaxos T S → Ballot → SequencePaxos T S
  unfolding become_follower
  handle_leader s n =
      if Ballot.le n s.leader_state.n_leader || Ballot.le n (get_promise s)
      then s
      else if s.pid == n.pid
      then become_leader s n
      else become_follower s

  unfoldable pub reconnected : SequencePaxos T S → ℕ → SequencePaxos T S
  reconnected s pid =
      if pid == s.pid
      then s
      else if pid == (get_promise s).pid
      then record s { role = follower; phase = recover }
      else s
