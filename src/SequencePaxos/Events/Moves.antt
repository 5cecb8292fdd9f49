-- ===== src/SequencePaxos/Events/Moves.antt =====
-- The moves of a standing, event by event, and what any run of events keeps.
use omnipaxos_kv_project.Prelude.{
  ℕ, ◌≡◌, ◌≢◌, refl, sym, subst, ◌⊎◌, inl, inr, Option, none, some, List, [], ◌∷◌, true, ◌==◌,
  ==_iff, arith, Bool-cases,
}
use omnipaxos_kv_project.Ballot
use omnipaxos_kv_project.Ballot.{Ballot}
use omnipaxos_kv_project.Ballot.Order.{lt_trans, lt_of_not_le}
use omnipaxos_kv_project.Request.{Request}
use omnipaxos_kv_project.Messages.{PaxosMsg, confirm}
use omnipaxos_kv_project.Storage.{StopSign}
use omnipaxos_kv_project.Storage.Cache
use omnipaxos_kv_project.Storage.Internal
use omnipaxos_kv_project.Storage.Memory.{Hashing}
use omnipaxos_kv_project.SequencePaxos.{SequencePaxos, Role, follower, leader, accept}
use omnipaxos_kv_project.SequencePaxos.Tasks.{run_waiter, clock_tick}
use omnipaxos_kv_project.SequencePaxos.Handlers.{
  Execute, handle, handle_msg, handle_execution, append, append_unless, propose_entry,
  take_outgoing_msgs, take_outgoing_client_msgs,
}
use omnipaxos_kv_project.SequencePaxos.Leading.{
  handle_leader, reconnected, become_follower, get_promise,
}
use omnipaxos_kv_project.SequencePaxos.Events.{
  Event, runs, waiter_runs, appends, receives, leads, reconnects, pick, step, run,
}
use omnipaxos_kv_project.SequencePaxos.Events.Roles.{
  Standing, Move, stays, takes_lead, follows, recovers, standing, run_picked-standing,
  waiter_step-standing,
}

stays_equal : {a b : Standing} → b ≡ a → Move a b
stays_equal {a} e = subst (Move a) (sym e) stays

-- The ballot that a replica leads under is its promise, and while it leads that is a ballot of
-- its own. It is not in the accept phase.
pub record IsLed (a : Standing) : Type 0 where
  pub never_accepts : a.phase ≢ accept
  pub same_ballot : a.n_leader ≡ a.promise
  pub leads_itself : a.role ≡ leader → a.promise.pid ≡ a.pid

Move-IsLed : {a b : Standing} → Move a b → IsLed a → IsLed b
Move-IsLed stays k = k
Move-IsLed (takes_lead n larger mine) k = record {
  never_accepts = λ e. cc;
  same_ballot = refl;
  leads_itself = λ e. mine;
}
Move-IsLed (follows n other) k = record {
  never_accepts = k.never_accepts;
  same_ballot = k.same_ballot;
  leads_itself = λ e. cc;
}
Move-IsLed recovers k = record {
  never_accepts = λ e. cc;
  same_ballot = k.same_ballot;
  leads_itself = λ e. cc;
}

-- A promise is kept or gives way to a larger one.
abbrev pub Grows : Ballot → Ballot → Type 0
Grows p p' = (p' ≡ p) ⊎ (Ballot.lt p p' ≡ true)

Grows-trans : (a b c : Ballot) → Grows a b → Grows b c → Grows a c
Grows-trans a b c (inl e) g = subst (λ x. Grows x c) e g
Grows-trans a b c (inr l) (inl f) = inr (subst (λ x. Ballot.lt a x ≡ true) (sym f) l)
Grows-trans a b c (inr l) (inr m) = inr (lt_trans a b c l m)

Move-Grows : {a b : Standing} → Move a b → Grows a.promise b.promise
Move-Grows stays = inl refl
Move-Grows (takes_lead n larger mine) = inr larger
Move-Grows (follows n other) = inl refl
Move-Grows recovers = inl refl

module _ {T S : Type 0} where
  handle_leader-Move :
      (s : SequencePaxos T S) (n : Ballot) → Move (standing s) (standing (handle_leader s n))
  unfolding handle_leader become_follower Internal.set_promise Internal.flush_batch
      Cache.take_batched_entries
  handle_leader-Move s n = elim (Bool-cases (Ballot.le n s.leader_state.n_leader)) [
    | inl old ↦ rw old stays
    | inr new ↦ elim (Bool-cases (Ballot.le n (get_promise s))) [
      | inl promised ↦ rw (new, promised) stays
      | inr larger ↦ elim (Bool-cases (s.pid == n.pid)) [
        | inl mine ↦
            rw (new, larger, mine)
              (takes_lead n (lt_of_not_le n _ larger) (sym ((==_iff s.pid n.pid).0 mine)))
        | inr other ↦ rw (new, larger, other) (follows n (ground arith))
      ]
    ]
  ]

  reconnected-Move :
      (s : SequencePaxos T S) (pid : ℕ) → Move (standing s) (standing (reconnected s pid))
  unfolding reconnected
  reconnected-Move s pid = elim (Bool-cases (pid == s.pid)) [
    | inl me ↦ rw me stays
    | inr peer ↦ elim (Bool-cases (pid == (get_promise s).pid)) [
      | inl led ↦ rw (peer, led) recovers
      | inr other ↦ rw (peer, other) stays
    ]
  ]

module _ {T S D : Type 0} (e : Execute D T) where
  handle_execution-standing :
      (r : Role) (s : SequencePaxos T S) (db : D) (c : T) (idx : ℕ)
      → standing (handle_execution e r s db c idx).0 ≡ standing s
  handle_execution-standing follower s db c idx = refl
  handle_execution-standing leader s db c idx = refl

  handle_msg-standing :
      (s : SequencePaxos T S) (db : D) (from : ℕ) (m : PaxosMsg T)
      → standing (handle_msg e s db from m).0 ≡ standing s
  handle_msg-standing s db from (confirm c idx) = handle_execution-standing s.role s db c idx
  handle_msg-standing s db from _ = refl

  propose_entry-standing :
      (r : Role) (s : SequencePaxos T S) (db : D) (entry : T)
      → standing (propose_entry e r s db entry).0 ≡ standing s
  propose_entry-standing follower s db entry = refl
  propose_entry-standing leader s db entry = refl

  append_unless-standing :
      (o : Option StopSign) (s : SequencePaxos T S) (db : D) (entry : T)
      → standing (append_unless e o s db entry).0 ≡ standing s
  append_unless-standing none s db entry = propose_entry-standing s.role s db entry
  append_unless-standing (some ss) s db entry = refl

module _ {T S D : Type 0} ⦃q : Request T⦄ (h : Hashing T) (e : Execute D T) where
  step-Move :
      (s : SequencePaxos T S) (db : D) (event : Event T)
      → Move (standing s) (standing (step h e (s, db) event).0)
  unfolding step handle append run_waiter clock_tick take_outgoing_msgs take_outgoing_client_msgs
  step-Move s db (runs i rtt) = stays_equal (run_picked-standing h s (pick s.tasks i) rtt)
  step-Move s db waiter_runs = stays_equal (waiter_step-standing h s s.waiter)
  step-Move s db (appends entry) =
      stays_equal (append_unless-standing e s.internal_storage.state_cache.stopsign s db entry)
  step-Move s db (receives m) = stays_equal (handle_msg-standing e s db m.from m.msg)
  step-Move s db (leads n) = handle_leader-Move s n
  step-Move s db (reconnects pid) = reconnected-Move s pid
  step-Move s db _ = stays

  -- From a replica that is not in the accept phase, whose leader ballot is its promise, and that
  -- leads, if it does, with a promise of its own: whatever the events and their order, it never
  -- enters the accept phase, the ballot that it leads under stays its promise, and while it leads
  -- that promise is a ballot of its own.
  pub run-IsLed :
      (s : SequencePaxos T S × D) (events : List (Event T))
      → IsLed (standing s.0)
      → IsLed (standing (run h e s events).0)
  unfolding run
  run-IsLed s [] k = k
  run-IsLed (s, db) (event ∷ events) k =
      run-IsLed (step h e (s, db) event) events (Move-IsLed (step-Move s db event) k)

  -- The promise of a replica is kept or gives way to a larger ballot, whatever the events.
  pub run-Grows :
      (s : SequencePaxos T S × D) (events : List (Event T))
      → Grows (get_promise s.0) (get_promise (run h e s events).0)
  unfolding run
  run-Grows s [] = inl refl
  run-Grows (s, db) (event ∷ events) =
      Grows-trans (get_promise s) _ _ (Move-Grows (step-Move s db event))
        (run-Grows (step h e (s, db) event) events)
