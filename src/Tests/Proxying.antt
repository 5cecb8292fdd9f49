-- ===== src/Tests/Proxying.antt =====
-- The theorems on the proxy, at concrete states.
use omnipaxos_kv_project.Prelude.{
  ◌*◌, ◌≤◌, ◌≡◌, ◌⊎◌, refl, none, some, List, [], ◌∷◌, Bool, true, arith,
}
use omnipaxos_kv_project.Prelude.Assoc
use omnipaxos_kv_project.Prelude.Assoc.{nat_eq}
use omnipaxos_kv_project.Common.{Speculation}
use omnipaxos_kv_project.Proxy.{new, Ack, handle_ack, listener}
use omnipaxos_kv_project.Proxy.Quorum.{
  Tally, IsTally, tally_ack, with_ack, answer, handle_ack-IsTally, new-IsTally,
}
use omnipaxos_kv_project.Proxy.Acks.{handle_acks, confirmations, confirmations_need_quorum}
use omnipaxos_kv_project.Proxy.Accepting.{accept_clients, accept_clients-panics}
use omnipaxos_kv_project.Proxy.Interleaving.{Event, receives, stores, confirms, deletes, run, start}
use omnipaxos_kv_project.Proxy.Interleaving.Heard.{nothing, hears}
use omnipaxos_kv_project.Proxy.Interleaving.Backing.{confirmed-run}
use omnipaxos_kv_project.Proxy.Interleaving.Losing.{second_store-counted}
use omnipaxos_kv_project.Tests.{command}

abbrev ack : Speculation → Ack
ack suspect = record { cmd = command 1 10; hash = 7; suspect = suspect; last_idx = 1 }

abbrev none_yet : Tally
none_yet hash = []

handle_ack-IsTally_example :
    let d = new 3 1 in
    let done = handle_ack (1 ∷ 2 ∷ []) d (ack (some none)) true in
    IsTally done.0 (tally_ack d.quorum none_yet (ack (some none)) true)
    × (done.1
        ≡ (answer
            (1 ∷ 2 ∷ [])
            d.quorum
            (with_ack none_yet (ack (some none)))
            (ack (some none))
            true).0)
    × (done.2
        ≡ (answer
            (1 ∷ 2 ∷ [])
            d.quorum
            (with_ack none_yet (ack (some none)))
            (ack (some none))
            true).1)
    × (done.0.quorum ≡ d.quorum)
handle_ack-IsTally_example =
    handle_ack-IsTally (1 ∷ 2 ∷ []) (new 3 1) none_yet (ack (some none)) true
      (new-IsTally (new 3 1).quorum)

-- A follower's ack, the leader's, and another follower's: one confirmation of a quorum of two.
abbrev acks : List (Ack × Bool)
acks = (ack none, true) ∷ (ack (some none), true) ∷ (ack none, true) ∷ []

confirmations_need_quorum_example :
    (new 3 1).quorum * confirmations 7 (handle_acks (1 ∷ 2 ∷ 3 ∷ []) (new 3 1) acks).1 ≤ 3
confirmations_need_quorum_example = confirmations_need_quorum (1 ∷ 2 ∷ 3 ∷ []) 3 1 acks 7

accept_clients-panics_example : accept_clients 3 (listener 3) ≡ none
accept_clients-panics_example =
    accept_clients-panics 3 3 (ground arith) (ground arith) (ground arith)

-- Two connections read the count before either stores it: the ack of the first is not counted, and
-- only a third leads to a confirmation.
abbrev interleaved : List Event
interleaved =
    receives 1 (ack (some none))
    ∷ receives 2 (ack none)
    ∷ stores 1
    ∷ stores 2
    ∷ confirms 2 true
    ∷ receives 1 (ack (some none))
    ∷ stores 1
    ∷ confirms 1 true
    ∷ deletes 1
    ∷ []

confirmed-run_example :
    (confirmations 7 (run (1 ∷ []) (start (new 3 1)) interleaved).sent ≡ 0)
    ⊎ (((new 3 1).quorum ≤ (hears nothing interleaved 7).0)
        × ((hears nothing interleaved 7).1 ≡ true))
confirmed-run_example = confirmed-run (1 ∷ []) 3 1 interleaved 7

second_store-counted_example :
    let events = receives 1 (ack (some none)) ∷ receives 2 (ack none) ∷ stores 1 ∷ stores 2 ∷ [] in
    Assoc.get (run (1 ∷ []) (start (new 3 1)) events).database.db 7 ≡ some (1, none)
unfolding Assoc.get
second_store-counted_example =
    second_store-counted (1 ∷ []) (start (new 3 1)) 1 2 (ack (some none)) (ack none) refl refl refl
      refl
