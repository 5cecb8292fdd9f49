-- ===== src/Election/Takeover.antt =====
-- What the end of a heartbeat round decides: the leader it follows, and when it elects.
use omnipaxos_kv_project.Prelude.{
  ◌+◌, ◌^◌, ◌<◌, ◌≡◌, refl, sym, ap, subst, ◌∙◌, ◌⊎◌, inl, inr, Option, none, some, List, [], ◌∷◌,
  true, false, not, ◌&&◌, arith, Bool-cases, All, All-mono, length, if◌then◌else◌,
}
use omnipaxos_kv_project.Prelude.Words.{add32}
use omnipaxos_kv_project.Ballot
use omnipaxos_kv_project.Ballot.{Ballot}
use omnipaxos_kv_project.Ballot.Order.{le_trans}
use omnipaxos_kv_project.Messages.{HeartbeatReply}
use omnipaxos_kv_project.Config.Quorum.{is_prepare_quorum}
use omnipaxos_kv_project.SequencePaxos.{Role, Phase}
use omnipaxos_kv_project.Election.{
  BallotLeaderElection, new_hb_round, max_from, max_ballot, raised, update_leader, update_happiness,
  check_takeover, next_ballot, sync_promise, hb_timeout, all, any, count, can_form_quorum,
}

le-kept-left : (m c : Ballot) → Ballot.le m (if Ballot.lt c m then m else c) ≡ true
unfolding Ballot.le Ballot.lt
le-kept-left m c = ground arith

le-kept-right : (m c : Ballot) → Ballot.le c (if Ballot.lt c m then m else c) ≡ true
unfolding Ballot.le Ballot.lt
le-kept-right m c = ground arith

max_from-le : (m : Ballot) (rs : List HeartbeatReply) → Ballot.le m (max_from m rs) ≡ true
unfolding Ballot.le
max_from-le m [] = ground arith
max_from-le m (r ∷ rs) =
    let m' = if Ballot.lt r.ballot m then m else r.ballot in
    le_trans m m' (max_from m' rs) (le-kept-left m r.ballot) (max_from-le m' rs)

abbrev pub IsBelow : Ballot → HeartbeatReply → Type 0
IsBelow m r = Ballot.le r.ballot m ≡ true

max_from-All : (m : Ballot) (rs : List HeartbeatReply) → All (IsBelow (max_from m rs)) rs
max_from-All m [] = tt
max_from-All m (r ∷ rs) =
    let m' = if Ballot.lt r.ballot m then m else r.ballot in
    (
      le_trans r.ballot m' (max_from m' rs) (le-kept-right m r.ballot) (max_from-le m' rs),
      max_from-All m' rs,
    )

le-raised : (l : Ballot) (o : Option Ballot) → Ballot.le l (raised l o) ≡ true
unfolding Ballot.le Ballot.lt
le-raised l none = ground arith
le-raised l (some m) = ground arith

raised-le : (l m : Ballot) → Ballot.le m (raised l (some m)) ≡ true
unfolding Ballot.le Ballot.lt
raised-le l m = ground arith

raised-All : (l : Ballot) (rs : List HeartbeatReply) → All (IsBelow (raised l (max_ballot rs))) rs
raised-All l [] = tt
raised-All l (r ∷ rs) =
    let m = max_from r.ballot rs in
    let top = raised l (some m) in
    (
      le_trans r.ballot m top (max_from-le r.ballot rs) (raised-le l m),
      All-mono (IsBelow m) (IsBelow top) rs (λ x h. le_trans x.ballot m top h (raised-le l m))
          (max_from-All r.ballot rs),
    )

-- The round number that a takeover would elect does not wrap.
abbrev pub HasNext : BallotLeaderElection → Type 0
HasNext b = (update_leader b).leader.n + 1 < 2 ^ 32

check_takeover-le :
    (b : BallotLeaderElection)
    → b.leader.n + 1 < 2 ^ 32
    → Ballot.le b.leader (check_takeover b).leader ≡ true
unfolding check_takeover Ballot.le add32
check_takeover-le b k = ground arith

sync_promise-le :
    (b : BallotLeaderElection) (promise : Ballot)
    → Ballot.le b.leader (sync_promise b promise).leader ≡ true
unfolding sync_promise Ballot.le Ballot.lt
sync_promise-le b promise = ground arith

promise-le :
    (b : BallotLeaderElection) (promise : Ballot)
    → Ballot.le promise (sync_promise b promise).leader ≡ true
unfolding sync_promise Ballot.le Ballot.lt
promise-le b promise = ground arith

updated-le :
    (b : BallotLeaderElection) (role : Role) (phase : Phase) (promise : Ballot)
    → HasNext b
    → Ballot.le (update_leader b).leader (hb_timeout b role phase promise).0.leader ≡ true
unfolding hb_timeout new_hb_round update_happiness
updated-le b role phase promise k =
    let ended = update_happiness (update_leader b) role phase in
    le_trans (update_leader b).leader (check_takeover ended).leader
      (hb_timeout b role phase promise).0.leader (check_takeover-le ended k)
      (sync_promise-le (new_hb_round (check_takeover ended)) promise)

-- While the round numbers do not wrap, the leader after a round is at least the leader before it,
-- the promise of the log and every ballot that was counted in the round.
pub hb_timeout-leader :
    (b : BallotLeaderElection) (role : Role) (phase : Phase) (promise : Ballot)
    → HasNext b
    → (Ballot.le b.leader (hb_timeout b role phase promise).0.leader ≡ true)
      × (Ballot.le promise (hb_timeout b role phase promise).0.leader ≡ true)
      × All (IsBelow (hb_timeout b role phase promise).0.leader) b.heartbeat_replies
unfolding hb_timeout update_leader
hb_timeout-leader b role phase promise k =
    let l = (update_leader b).leader in
    let l' = (hb_timeout b role phase promise).0.leader in
    (
      le_trans b.leader l l' (le-raised b.leader (max_ballot b.heartbeat_replies))
          (updated-le b role phase promise k),
      promise-le (new_hb_round (check_takeover (update_happiness (update_leader b) role phase)))
          promise,
      All-mono (IsBelow l) (IsBelow l') b.heartbeat_replies
          (λ r h. le_trans r.ballot l l' h (updated-le b role phase promise k))
          (raised-All b.leader b.heartbeat_replies),
    )

-- No counted server is happy, and with this one they are a prepare quorum.
abbrev pub CanTakeOver : BallotLeaderElection → Type 0
CanTakeOver b =
    (all (λ r. not r.happy) b.heartbeat_replies ≡ true)
    × (is_prepare_quorum b.quorum (length b.heartbeat_replies + 1) ≡ true)

-- The server is not happy: with its own ballot as the leader it has no quorum of followers and no
-- happy server above it, and otherwise the leader is not heard of as happy.
abbrev pub IsUnhappy : BallotLeaderElection → Role → Phase → Type 0
IsUnhappy b role phase =
    let own = b.current_ballot in
    let top = (update_leader b).leader in
    let replies = b.heartbeat_replies in
    ((Ballot.eq top own ≡ true)
      × (can_form_quorum b.quorum role phase (count (λ r. Ballot.le r.leader own) replies + 1)
          ≡ false)
      × (any (λ r. Ballot.lt own r.leader && r.happy) replies ≡ false))
    ⊎ ((Ballot.eq top own ≡ false) × (any (λ r. Ballot.eq r.ballot top && r.happy) replies ≡ false))

-- The own ballot with the round number past that of the greatest leader heard of
abbrev pub IsNext : BallotLeaderElection → Ballot → Type 0
IsNext b c =
    (c.n ≡ (update_leader b).leader.n + 1)
    × (c.pid ≡ b.current_ballot.pid)
    × (c.priority ≡ b.current_ballot.priority)
    × (c.config_id ≡ b.current_ballot.config_id)

update_happiness-IsUnhappy :
    (b : BallotLeaderElection) (role : Role) (phase : Phase)
    → (update_happiness (update_leader b) role phase).happy ≡ false
    → IsUnhappy b role phase
unfolding update_happiness update_leader
update_happiness-IsUnhappy b role phase unhappy =
    elim (Bool-cases (Ballot.eq (update_leader b).leader b.current_ballot)) [
      | inl own ↦ let h = rw own at unhappy in inl (own, ground (arith, h), ground (arith, h))
      | inr other ↦ inr (other, rw other at unhappy)
    ]

check_takeover-elected :
    (b : BallotLeaderElection)
    → ((check_takeover b).current_ballot ≡ b.current_ballot)
      ⊎ ((b.happy ≡ false) × CanTakeOver b × ((check_takeover b).current_ballot ≡ next_ballot b))
unfolding check_takeover
check_takeover-elected b =
    elim (Bool-cases (
      not b.happy
      && all (λ r. not r.happy) b.heartbeat_replies
      && is_prepare_quorum b.quorum (length b.heartbeat_replies + 1))) [
        | inl e ↦ rw e (inr (ground arith, (ground arith, ground arith), refl))
        | inr e ↦ rw e (inl refl)
      ]

check_takeover-pid : (b : BallotLeaderElection) → (check_takeover b).pid ≡ b.pid
unfolding check_takeover
check_takeover-pid b = ground arith

sync_promise-elected :
    (b : BallotLeaderElection) (promise : Ballot)
    → ((sync_promise b promise).current_ballot ≡ b.current_ballot)
      ⊎ (((sync_promise b promise).current_ballot ≡ promise) × (promise.pid ≡ b.pid))
unfolding sync_promise
sync_promise-elected b promise = ground arith

next_ballot-IsNext :
    (b : BallotLeaderElection) (c : Ballot)
    → HasNext b
    → c ≡ next_ballot (update_leader b)
    → IsNext b c
unfolding add32 update_leader
next_ballot-IsNext b c room e = (
  ap (λ x. x.n) e ∙ omega (arith, room),
  ap (λ x. x.pid) e,
  ap (λ x. x.priority) e,
  ap (λ x. x.config_id) e,
)

elected-by :
    (b : BallotLeaderElection) (role : Role) (phase : Phase) (promise c : Ballot)
    → (hb_timeout b role phase promise).0.current_ballot ≡ c
    → (c ≡ b.current_ballot)
      ⊎ (((c ≡ promise) × (promise.pid ≡ b.pid))
          ⊎ (IsUnhappy b role phase × CanTakeOver b × (c ≡ next_ballot (update_leader b))))
unfolding hb_timeout new_hb_round update_happiness update_leader
elected-by b role phase promise c e =
    let ready = update_happiness (update_leader b) role phase in
    elim (sync_promise-elected (new_hb_round (check_takeover ready)) promise) [
      | inr k ↦ inr (inl (sym e ∙ k.0, k.1 ∙ check_takeover-pid ready))
      | inl k ↦ elim (check_takeover-elected ready) [
        | inl t ↦ inl (sym e ∙ k ∙ t)
        | inr t ↦ inr (inr (update_happiness-IsUnhappy b role phase t.0, t.1, sym e ∙ k ∙ t.2))
      ]
    ]

elected-current :
    (b : BallotLeaderElection) (role : Role) (phase : Phase) (promise c : Ballot)
    → (hb_timeout b role phase promise).1 ≡ some c
    → ((hb_timeout b role phase promise).0.current_ballot ≡ c)
      × (Ballot.eq
            (hb_timeout b role phase promise).0.leader
            (hb_timeout b role phase promise).0.current_ballot
          ≡ true)
unfolding hb_timeout
elected-current b role phase promise c e = (ground arith, ground arith)

-- Where an elected ballot comes from
pub elected-from :
    (b : BallotLeaderElection) (role : Role) (phase : Phase) (promise c : Ballot)
    → (hb_timeout b role phase promise).1 ≡ some c
    → (c ≡ b.current_ballot)
      ⊎ (((c ≡ promise) × (promise.pid ≡ b.pid))
          ⊎ (IsUnhappy b role phase × CanTakeOver b × (c ≡ next_ballot (update_leader b))))
elected-from b role phase promise c e =
    elected-by b role phase promise c (elected-current b role phase promise c e).0

-- Two ballots that are equal are below the same ballots.
le-eq : (x l c : Ballot) → Ballot.eq l c ≡ true → Ballot.le x l ≡ true → Ballot.le x c ≡ true
unfolding Ballot.le Ballot.eq
le-eq x l c same below = ground arith

-- Where the round number past the greatest leader heard of does not wrap: a server is elected with a
-- ballot that is at least the leader before, the promise of its log and every ballot counted in the
-- round. It is the ballot that it ran for already, or the promise of its log, which carries its
-- number, or its own ballot with the round number past that of the greatest leader heard of, the
-- last only when the server is not happy, no counted server is, and they are a prepare quorum with
-- it.
pub hb_timeout-elected :
    (b : BallotLeaderElection) (role : Role) (phase : Phase) (promise c : Ballot)
    → HasNext b
    → (hb_timeout b role phase promise).1 ≡ some c
    → (Ballot.le b.leader c ≡ true)
      × (Ballot.le promise c ≡ true)
      × All (IsBelow c) b.heartbeat_replies
      × ((c ≡ b.current_ballot)
          ⊎ (((c ≡ promise) × (promise.pid ≡ b.pid))
              ⊎ (IsUnhappy b role phase × CanTakeOver b × IsNext b c)))
hb_timeout-elected b role phase promise c room e =
    let (current, equal) = elected-current b role phase promise c e in
    let top = (hb_timeout b role phase promise).0.leader in
    let same = subst (λ x. Ballot.eq top x ≡ true) current equal in
    let (leader, promised, replies) = hb_timeout-leader b role phase promise room in
    (
      le-eq b.leader top c same leader,
      le-eq promise top c same promised,
      All-mono (IsBelow top) (IsBelow c) b.heartbeat_replies (λ r h. le-eq r.ballot top c same h)
          replies,
      elim (elected-from b role phase promise c e) [
        | inl own ↦ inl own
        | inr (inl promise_own) ↦ inr (inl promise_own)
        | inr (inr (unhappy, can, next)) ↦
            inr (inr (unhappy, can, next_ballot-IsNext b c room next))
      ],
    )
