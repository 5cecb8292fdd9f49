-- ===== src/OmniPaxos/Leadership.antt =====
-- Leading: what a tick and an attempt to lead do to a server.
use omnipaxos_kv_project.Prelude.{
  ℕ, ◌+◌, ◌^◌, ◌<◌, ◌≡◌, ◌≢◌, refl, sym, subst, ap, ◌∙◌, inl, inr, Option, none, some, Bool, true,
  false, ◌==◌, ==_iff, arith, Bool-cases,
}
use omnipaxos_kv_project.Prelude.Words.{add32}
use omnipaxos_kv_project.Ballot
use omnipaxos_kv_project.Ballot.{Ballot}
use omnipaxos_kv_project.Storage.Internal
use omnipaxos_kv_project.Election.{BallotLeaderElection, hb_timeout, next_ballot, update_leader}
use omnipaxos_kv_project.Election.Takeover.{elected-from, hb_timeout-leader, HasNext}
use omnipaxos_kv_project.Election.Rounds.{IsRound}
use omnipaxos_kv_project.SequencePaxos.{SequencePaxos, Role, leader, Phase, prepare, accept}
use omnipaxos_kv_project.SequencePaxos.Leading.{get_promise, handle_leader, become_leader}
use omnipaxos_kv_project.Prelude.{List, some-injective, if◌then◌else◌}
use omnipaxos_kv_project.Request.{Request}
use omnipaxos_kv_project.Storage.Memory.{Hashing}
use omnipaxos_kv_project.SequencePaxos.{recover, no_phase}
use omnipaxos_kv_project.SequencePaxos.Handlers.{Execute}
use omnipaxos_kv_project.SequencePaxos.Events.{Event, run}
use omnipaxos_kv_project.SequencePaxos.Events.Roles.{standing}
use omnipaxos_kv_project.SequencePaxos.Events.Moves.{IsLed, run-IsLed}
use omnipaxos_kv_project.OmniPaxos.{
  is_accept, OmniPaxos, get_current_leader, lead_if, election_timeout, tick, try_become_leader,
  my_ballot, tick_and_check_timeout,
}

-- The parts of a server carry its number.
abbrev pub IsOwn : {T S : Type 0} → OmniPaxos T S → Type 0
IsOwn o = (o.election.pid ≡ o.seq_paxos.pid) × IsRound o.election

next-pid : (b : BallotLeaderElection) → (next_ballot (update_leader b)).pid ≡ b.current_ballot.pid
unfolding update_leader
next-pid b = refl

elected-pid :
    (b : BallotLeaderElection) (role : Role) (phase : Phase) (promise c : Ballot)
    → b.current_ballot.pid ≡ b.pid
    → (hb_timeout b role phase promise).1 ≡ some c
    → c.pid ≡ b.pid
elected-pid b role phase promise c k e = elim (elected-from b role phase promise c e) [
  | inl r ↦ ap (λ x. x.pid) r ∙ k
  | inr (inl r) ↦ ap (λ x. x.pid) r.0 ∙ r.1
  | inr (inr r) ↦ ap (λ x. x.pid) r.2 ∙ next-pid b ∙ k
]

own_ballot-role :
    {T S : Type 0} (s : SequencePaxos T S) (n : Ballot)
    → n.pid ≡ s.pid
    → s.role ≡ leader
    → (handle_leader s n).role ≡ leader
unfolding handle_leader
own_ballot-role s n e k = ground arith

own_ballot-promise :
    {T S : Type 0} (s : SequencePaxos T S) (n : Ballot)
    → n.pid ≡ s.pid
    → s.leader_state.n_leader ≡ get_promise s
    → Ballot.le n (get_promise (handle_leader s n)) ≡ true
unfolding handle_leader Ballot.le Internal.set_promise
own_ballot-promise s n e k = ground arith

lt-not-le : (a b : Ballot) → Ballot.lt a b ≡ true → Ballot.le b a ≡ false
unfolding Ballot.lt Ballot.le
lt-not-le a b h = ground arith

own_ballot-leads :
    {T S : Type 0} (s : SequencePaxos T S) (n : Ballot)
    → n.pid ≡ s.pid
    → s.leader_state.n_leader ≡ get_promise s
    → Ballot.lt (get_promise s) n ≡ true
    → handle_leader s n ≡ become_leader s n
unfolding handle_leader
own_ballot-leads s n e k j =
    let old : Ballot.le n (get_promise s) ≡ false = lt-not-le (get_promise s) n j in
    rw (ap (Ballot.le n) k ∙ old, old, (==_iff s.pid n.pid).1 (sym e)) refl

lead_if-role :
    {T S : Type 0} (s : SequencePaxos T S) (elected : Option Ballot)
    → ((n : Ballot) → elected ≡ some n → n.pid ≡ s.pid)
    → s.role ≡ leader
    → (lead_if elected s).role ≡ leader
lead_if-role s none own k = k
lead_if-role s (some n) own k = own_ballot-role s n (own n refl) k

past : (p n : Ballot) → p.n + 1 < 2 ^ 32 → n.n ≡ add32 p.n 1 → Ballot.lt p n ≡ true
unfolding Ballot.lt add32
past p n b e = ground arith

become_leader-promise :
    {T S : Type 0} (s : SequencePaxos T S) (n : Ballot) → get_promise (become_leader s n) ≡ n
unfolding Internal.set_promise
become_leader-promise s n = refl

module _ {T S : Type 0} where
  elected_for : OmniPaxos T S → BallotLeaderElection × Option Ballot
  elected_for o = hb_timeout o.election o.seq_paxos.role o.seq_paxos.phase (get_promise o.seq_paxos)

  election_timeout-role :
      (o : OmniPaxos T S)
      → IsOwn o
      → o.seq_paxos.role ≡ leader
      → (election_timeout o).seq_paxos.role ≡ leader
  unfolding election_timeout elected_for
  election_timeout-role o k l =
      lead_if-role o.seq_paxos (elected_for o).1
        (λ n e.
          elected-pid o.election o.seq_paxos.role o.seq_paxos.phase (get_promise o.seq_paxos) n
            k.1.own e
          ∙ k.0)
        l

  -- Where the parts of a server carry its number, and its ballot too, a tick never makes a leader
  -- step down, whatever heartbeats it has counted.
  pub tick-role :
      (o : OmniPaxos T S) → IsOwn o → o.seq_paxos.role ≡ leader → (tick o).seq_paxos.role ≡ leader
  unfolding tick
  tick-role o k l = elim (Bool-cases (tick_and_check_timeout o.election_clock).1) [
    | inl due ↦ rw due (
        election_timeout-role
          (record o { election_clock = (tick_and_check_timeout o.election_clock).0 }) k l)
    | inr early ↦ rw early l
  ]

  -- Where the ballot that the server runs for carries its number, the ballot that it leads under is
  -- its promise, and the promise's round number is not the last: an attempt to lead makes the
  -- server lead, in the prepare phase, and promise the ballot that it made up, which is larger than
  -- the promise before.
  pub try_become_leader-leads :
      (o : OmniPaxos T S)
      → o.election.current_ballot.pid ≡ o.seq_paxos.pid
      → o.seq_paxos.leader_state.n_leader ≡ get_promise o.seq_paxos
      → (get_promise o.seq_paxos).n + 1 < 2 ^ 32
      → ((try_become_leader o).seq_paxos.role ≡ leader)
        × ((try_become_leader o).seq_paxos.phase ≡ prepare)
        × (get_promise (try_become_leader o).seq_paxos ≡ my_ballot o)
        × (Ballot.lt (get_promise o.seq_paxos) (my_ballot o) ≡ true)
  unfolding try_become_leader
  try_become_leader-leads o k j b =
      let larger = past (get_promise o.seq_paxos) (my_ballot o) b refl in
      let eq = own_ballot-leads o.seq_paxos (my_ballot o) k j larger in
      (
        ap (λ s. s.role) eq,
        ap (λ s. s.phase) eq,
        ap get_promise eq ∙ become_leader-promise o.seq_paxos (my_ballot o),
        larger,
      )

elected-leader :
    (b : BallotLeaderElection) (role : Role) (phase : Phase) (promise c : Ballot)
    → (hb_timeout b role phase promise).1 ≡ some c
    → (hb_timeout b role phase promise).0.leader ≡ c
unfolding hb_timeout Ballot.eq
elected-leader b role phase promise c e = ground arith

lead_own-promise :
    {T S : Type 0} (s : SequencePaxos T S) (n : Ballot)
    → Ballot.le (get_promise s) n ≡ true
    → Ballot.le (get_promise (handle_leader s n)) n ≡ true
unfolding handle_leader Ballot.le Internal.set_promise
lead_own-promise s n k = ground arith

lead_if-agrees :
    {T S : Type 0} (s : SequencePaxos T S) (elected : Option Ballot) (c : Ballot)
    → elected ≡ some c
    → c.pid ≡ s.pid
    → s.leader_state.n_leader ≡ get_promise s
    → Ballot.le (get_promise s) c ≡ true
    → (Ballot.le c (get_promise (lead_if elected s)) ≡ true)
      × (Ballot.le (get_promise (lead_if elected s)) c ≡ true)
lead_if-agrees s none c e own j k = cc
lead_if-agrees s (some n) c e own j k =
    let same : n ≡ c = cc in rw same (own_ballot-promise s c own j, lead_own-promise s c k)

module _ {T S : Type 0} where
  -- Where the parts of a server carry its number, the ballot that it leads under is its promise,
  -- and the round numbers do not wrap: when the election elects a ballot, the promise of the server
  -- after it and that ballot are equal in the order of ballots, so the log and the election agree
  -- on who leads.
  pub election_timeout-agrees :
      (o : OmniPaxos T S) (c : Ballot)
      → IsOwn o
      → o.seq_paxos.leader_state.n_leader ≡ get_promise o.seq_paxos
      → HasNext o.election
      → (hb_timeout o.election o.seq_paxos.role o.seq_paxos.phase (get_promise o.seq_paxos)).1
        ≡ some c
      → (Ballot.le c (get_promise (election_timeout o).seq_paxos) ≡ true)
        × (Ballot.le (get_promise (election_timeout o).seq_paxos) c ≡ true)
  unfolding election_timeout
  election_timeout-agrees o c k j w e =
      let s = o.seq_paxos in
      lead_if-agrees s (hb_timeout o.election s.role s.phase (get_promise s)).1 c e
        (elected-pid o.election s.role s.phase (get_promise s) c k.1.own e ∙ k.0) j
        (subst (λ l. Ballot.le (get_promise s) l ≡ true)
          (elected-leader o.election s.role s.phase (get_promise s) c e)
          (hb_timeout-leader o.election s.role s.phase (get_promise s) w).1)

flag_unset :
    (b : Bool) (pid : ℕ) (phase : Phase) (p : ℕ × Bool)
    → phase ≢ accept
    → (if b then none else some (pid, is_accept phase)) ≡ some p
    → p.1 ≡ false
flag_unset true pid phase p k e = cc
flag_unset false pid prepare p k e = sym (ap (λ x. x.1) (some-injective e))
flag_unset false pid accept p k e = absurd (k refl)
flag_unset false pid recover p k e = sym (ap (λ x. x.1) (some-injective e))
flag_unset false pid no_phase p k e = sym (ap (λ x. x.1) (some-injective e))

module _ {T S D : Type 0} ⦃q : Request T⦄ (h : Hashing T) (e : Execute D T) where
  -- From a replica that is not in the accept phase, whose leader ballot is its promise, and that
  -- leads, if it does, with a promise of its own: whatever the events and their order, the flag
  -- that says that the leader is in the accept phase is not set in any leader that is then
  -- reported.
  pub get_current_leader-run :
      (o : OmniPaxos T S) (db : D) (events : List (Event T)) (p : ℕ × Bool)
      → IsLed (standing o.seq_paxos)
      → get_current_leader (record o { seq_paxos = (run h e (o.seq_paxos, db) events).0 }) ≡ some p
      → p.1 ≡ false
  unfolding get_current_leader
  get_current_leader-run o db events p k eq =
      let s = (run h e (o.seq_paxos, db) events).0 in
      flag_unset ((get_promise s).pid == 0) (get_promise s).pid s.phase p
        (run-IsLed h e (o.seq_paxos, db) events k).never_accepts eq
