-- ===== src/Proxy/Interleaving/Backing.antt =====
-- However the connections interleave, what is counted and what is confirmed was heard from the
-- servers.
use omnipaxos_kv_project.Prelude.{
  ℕ, ◌≤◌, ◌≡◌, refl, sym, ◌∙◌, ◌⊎◌, inl, inr, Option, some, some-injective, some-ne-none, subst,
  List, [], ◌∷◌, ◌++◌, Bool, true, false, ◌==◌, ==_iff, arith, Bool-cases, if◌then◌else◌,
}
use omnipaxos_kv_project.Prelude.Assoc
use omnipaxos_kv_project.Prelude.Assoc.{nat_eq, get-insert, get-remove}
use omnipaxos_kv_project.Common.{Speculation, ClientMessage}
use omnipaxos_kv_project.Proxy.{new, Ack, handle_command, counted, has_quorum, confirmation}
use omnipaxos_kv_project.Proxy.Acks.{
  confirmations, confirmations-append, confirmations-servers, confirmations-confirmation,
}
use omnipaxos_kv_project.Proxy.Interleaving.{
  Stage, idle, has_counted, has_stored, has_confirmed, closed, Event, receives, stores, confirms,
  deletes, Shared, moves, receive, store, confirm, delete, step, run, start,
}
use omnipaxos_kv_project.Proxy.Interleaving.Heard.{
  Heard, nothing, hear, hears, Backed, Enough, StageBacked, IsBacked, IsBacked-hear, counted-Backed,
}

module _ (h : Heard) (q : ℕ) (s : Shared) (b : IsBacked h q s) (i : ℕ) where
  moved :
      (stage : Stage)
      → StageBacked h q stage
      → (j : ℕ) → StageBacked h q ((moves s i stage).stages j)
  moved stage ok j = elim (Bool-cases (i == j)) [ inl e ↦ rw e ok | inr e ↦ rw e (b.stages j) ]

  receive-IsBacked :
      (a : Ack) (stage : Stage)
      → ((o : Option (ℕ × Speculation))
          → o ≡ Assoc.get s.database.db a.hash
          → Backed h a.hash (counted o a.suspect))
      → IsBacked h q (receive s i a stage)
  unfolding handle_command
  receive-IsBacked a idle counts = record {
    quorum = b.quorum;
    stored = b.stored;
    stages =
        moved (has_counted a (counted (Assoc.get s.database.db a.hash) a.suspect))
          (counts (Assoc.get s.database.db a.hash) refl);
    sent = b.sent;
  }
  receive-IsBacked a (has_counted a' now) counts = b
  receive-IsBacked a (has_stored a') counts = b
  receive-IsBacked a (has_confirmed a') counts = b
  receive-IsBacked a closed counts = b

  quorum_stage :
      (a : Ack) (now : ℕ × Speculation)
      → Backed h a.hash now
      → StageBacked h q (if has_quorum s.database.quorum now then has_stored a else idle)
  quorum_stage a now backed = elim (Bool-cases (has_quorum s.database.quorum now)) [
    | inl e ↦ rw e (ground (arith, e, b.quorum, backed.0), backed.1 (ground (arith, e)))
    | inr e ↦ rw e tt
  ]

  put-Backed :
      (a : Ack) (now : ℕ × Speculation)
      → Backed h a.hash now
      → (k : ℕ) (v : ℕ × Speculation) → Assoc.get (Assoc.insert s.database.db a.hash now) k ≡ some v
      → Backed h k v
  put-Backed a now backed k v at = elim (Bool-cases (a.hash == k)) [
    | inl e ↦
        let same = (==_iff a.hash k).0 e in
        let found : now ≡ v =
          some-injective (rw e at (sym (get-insert s.database.db a.hash k now) ∙ at)) in
        subst (λ j. Backed h j v) same (subst (Backed h a.hash) found backed)
    | inr e ↦ b.stored k v (rw e at (sym (get-insert s.database.db a.hash k now) ∙ at))
  ]

  store-IsBacked : (stage : Stage) → StageBacked h q stage → IsBacked h q (store s i stage)
  unfolding handle_command
  store-IsBacked idle ok = b
  store-IsBacked (has_counted a now) ok = record {
    quorum = b.quorum;
    stored = put-Backed a now ok;
    stages =
        moved (if has_quorum s.database.quorum now then has_stored a else idle)
          (quorum_stage a now ok);
    sent = b.sent;
  }
  store-IsBacked (has_stored a) ok = b
  store-IsBacked (has_confirmed a) ok = b
  store-IsBacked closed ok = b

  confirmed-Enough :
      (servers : List ℕ) (a : Ack)
      → Enough h q a.hash
      → (k : ℕ) → (confirmations k (s.sent ++ confirmation servers a) ≡ 0) ⊎ Enough h q k
  confirmed-Enough servers a ok k = elim (Bool-cases (a.hash == k)) [
    | inl e ↦ inr (subst (Enough h q) ((==_iff a.hash k).0 e) ok)
    | inr e ↦ elim (b.sent k) [
      | inl none_sent ↦ inl (
          rw
            (
              confirmations-append k s.sent (confirmation servers a),
              confirmations-confirmation k servers a,
              e,
              none_sent,
            )
            refl)
      | inr enough ↦ inr enough
    ]
  ]

  confirm-IsBacked :
      (servers : List ℕ) (writable : Bool) (stage : Stage)
      → StageBacked h q stage
      → IsBacked h q (confirm servers s i writable stage)
  confirm-IsBacked servers true idle ok = b
  confirm-IsBacked servers false idle ok = b
  confirm-IsBacked servers true (has_counted a now) ok = b
  confirm-IsBacked servers false (has_counted a now) ok = b
  confirm-IsBacked servers true (has_stored a) ok = record {
    quorum = b.quorum;
    stored = b.stored;
    stages = moved (has_confirmed a) tt;
    sent = confirmed-Enough servers a ok;
  }
  confirm-IsBacked servers false (has_stored a) ok = record {
    quorum = b.quorum;
    stored = b.stored;
    stages = moved closed tt;
    sent = λ k. elim (b.sent k) [
      | inl none_sent ↦ inl (
          rw
            (
              confirmations-append k s.sent _,
              confirmations-servers k servers (ClientMessage.ack a.cmd a.last_idx),
              none_sent,
            )
            refl)
      | inr enough ↦ inr enough
    ];
  }
  confirm-IsBacked servers true (has_confirmed a) ok = b
  confirm-IsBacked servers false (has_confirmed a) ok = b
  confirm-IsBacked servers true closed ok = b
  confirm-IsBacked servers false closed ok = b

  delete-IsBacked : (stage : Stage) → IsBacked h q (delete s i stage)
  unfolding handle_command
  delete-IsBacked idle = b
  delete-IsBacked (has_counted a now) = b
  delete-IsBacked (has_stored a) = b
  delete-IsBacked (has_confirmed a) = record {
    quorum = b.quorum;
    stored = λ k v at. b.stored k v (ground (arith, get-remove s.database.db a.hash k, at));
    stages = moved idle tt;
    sent = b.sent;
  }
  delete-IsBacked closed = b

step-IsBacked :
    (servers : List ℕ) (h : Heard) (q : ℕ) (s : Shared) (e : Event)
    → IsBacked h q s
    → IsBacked (hear h e) q (step servers s e)
unfolding step
step-IsBacked servers h q s (receives i a) b =
    let e = receives i a in
    receive-IsBacked (hear h e) q s (IsBacked-hear h e q s b) i a (s.stages i)
      (λ o at. counted-Backed h i a o (λ v found. b.stored a.hash v (sym at ∙ found)))
step-IsBacked servers h q s (stores i) b =
    let b' = IsBacked-hear h (stores i) q s b in
    store-IsBacked (hear h (stores i)) q s b' i (s.stages i) (b'.stages i)
step-IsBacked servers h q s (confirms i writable) b =
    let b' = IsBacked-hear h (confirms i writable) q s b in
    confirm-IsBacked (hear h (confirms i writable)) q s b' i servers writable (s.stages i)
      (b'.stages i)
step-IsBacked servers h q s (deletes i) b =
    let b' = IsBacked-hear h (deletes i) q s b in
    delete-IsBacked (hear h (deletes i)) q s b' i (s.stages i)

run-IsBacked :
    (servers : List ℕ) (h : Heard) (q : ℕ) (s : Shared) (events : List Event)
    → IsBacked h q s
    → IsBacked (hears h events) q (run servers s events)
unfolding run
run-IsBacked servers h q s [] b = b
run-IsBacked servers h q s (e ∷ events) b =
    run-IsBacked servers (hear h e) q (step servers s e) events (step-IsBacked servers h q s e b)

-- From an empty database, however any number of connections that share it interleave, between their
-- reads and writes of it too: a hash of which any client gets a confirmation was acknowledged at
-- least as often as the quorum, and one of those acks carried a speculation.
pub confirmed-run :
    (servers : List ℕ) (nodes fault_tolerance : ℕ) (events : List Event) (k : ℕ)
    → let d = new nodes fault_tolerance in
      (confirmations k (run servers (start d) events).sent ≡ 0)
      ⊎ ((d.quorum ≤ (hears nothing events k).0) × ((hears nothing events k).1 ≡ true))
unfolding Assoc.get
confirmed-run servers nodes fault_tolerance events k =
    let d = new nodes fault_tolerance in
    let first : IsBacked nothing d.quorum (start d) = record {
      quorum = refl;
      stored = λ j v at. absurd (some-ne-none (sym at));
      stages = λ i. tt;
      sent = λ j. inl refl;
    } in
    (run-IsBacked servers nothing d.quorum (start d) events first).sent k
