-- ===== src/Server/Network/Connecting.antt =====
-- The loop of `initialize_connections` ends once the peers and the clients have connected.
use omnipaxos_kv_project.Prelude.{
  ℕ, ◌+◌, ◌≤◌, ◌<◌, ◌≡◌, refl, sym, ap, inl, inr, none, some, some-ne-none, List, [], ◌∷◌, true,
  Bool-cases, String, ◌==◌, arith, length, length-map, subst, set, replicate, All,
}
use omnipaxos_kv_project.Prelude.Assoc
use omnipaxos_kv_project.Prelude.Assoc.{Assoc, nat_eq}
use omnipaxos_kv_project.Server.Network.{
  ClientConnection, NewConnection, to_peer, to_client, Network, new, cluster_id_to_idx, connect,
  all_connected, is_ready, ready, initialize_connections,
}
use omnipaxos_kv_project.Server.Network.Pending.{
  Distinct, Arrives, Known, NewClients, clients, Pending, Pending-nil, Pending-fresh,
  Pending-client, Pending-set,
}

remove-fresh : (m : Assoc ℕ ClientConnection) (k : ℕ) → Assoc.get m k ≡ none → Assoc.remove m k ≡ m
unfolding Assoc.get Assoc.remove
remove-fresh [] k h = refl
remove-fresh ((j, v) ∷ m) k h = elim (Bool-cases (j == k)) [
  | inl e ↦ absurd (some-ne-none (rw e at h))
  | inr e ↦ rw e (ap (λ l. (j, v) ∷ l) (remove-fresh m k (rw e at h)))
]

-- A step of the loop
record Step (n n' : Network) (c : NewConnection) (cs : List NewConnection) : Type 0 where
  connected : connect n c ≡ some n'
  peers : n'.peers ≡ n.peers
  known : Known n.peers cs
  pending : Pending n.peers n'.peer_connections cs
  new_clients : NewClients n'.client_connections cs
  count : length n'.client_connections + clients cs ≡ length n.client_connections + clients (c ∷ cs)

step :
    (n : Network) (c : NewConnection) (cs : List NewConnection)
    → Distinct n.peers
    → Pending n.peers n.peer_connections (c ∷ cs)
    → Known n.peers (c ∷ cs)
    → NewClients n.client_connections (c ∷ cs)
    → (n' : Network) × Step n n' c cs
unfolding connect cluster_id_to_idx Assoc.insert
step n (to_peer c) cs d pending known fresh =
    let (idx, at) = known.0 in
    (
      record n { peer_connections = set n.peer_connections idx (some c) },
      record {
        connected = rw at refl;
        peers = refl;
        known = known.1;
        pending = Pending-set n.peers n.peer_connections c cs idx d at pending;
        new_clients = fresh;
        count = refl;
      },
    )
step n (to_client c) cs d pending known fresh = (
  record n { client_connections = Assoc.insert n.client_connections c.client_id c },
  record {
    connected = refl;
    peers = refl;
    known = known;
    pending = Pending-client n.peers n.peer_connections c cs pending;
    new_clients = fresh.1;
    count = rw (remove-fresh n.client_connections c.client_id fresh.0) (omega arith);
  },
)

end_ready :
    (num_clients : ℕ) (n : Network)
    → Pending n.peers n.peer_connections []
    → num_clients ≤ length n.client_connections
    → is_ready num_clients n ≡ true
end_ready num_clients n pending enough =
    ground (arith, Pending-nil n.peers n.peer_connections pending)

-- Where one connection or more are left, the loop ends with one of them.
ends :
    (num_clients : ℕ) (n : Network) (c : NewConnection) (cs : List NewConnection)
    → Distinct n.peers
    → Pending n.peers n.peer_connections (c ∷ cs)
    → Known n.peers (c ∷ cs)
    → NewClients n.client_connections (c ∷ cs)
    → num_clients ≤ length n.client_connections + clients (c ∷ cs)
    → (n' : Network) × (initialize_connections num_clients n (c ∷ cs) ≡ ready n')
      × (is_ready num_clients n' ≡ true)
unfolding initialize_connections
ends num_clients n c [] d pending known fresh enough =
    let (n', s) = step n c [] d pending known fresh in
    let done = end_ready num_clients n' (rw s.peers s.pending) (omega (arith, s.count)) in
    (n', rw (s.connected, done) refl, done)
ends num_clients n c (c' ∷ cs) d pending known fresh enough =
    let (n', s) = step n c (c' ∷ cs) d pending known fresh in
    elim (Bool-cases (is_ready num_clients n')) [
      | inl e ↦ (n', rw (s.connected, e) refl, e)
      | inr e ↦
          let (final, reached, done) =
            ends num_clients n' c' cs (rw s.peers d) (rw s.peers s.pending)
              (subst (λ ps. Known ps (c' ∷ cs)) (sym s.peers) s.known) s.new_clients
              (omega (arith, s.count)) in
          (final, rw (s.connected, e) reached, done)
    ]

-- From a network that has no connections yet, to distinct peers: when the connections that are
-- established, in any order, are all to its peers, are at least one to each of them, and have
-- at least the number of clients that it waits for, none of whose ids comes twice, the loop does not
-- panic and ends after some of them, with every peer connected and that number of clients.
pub initialize_connections-ready :
    (num_clients : ℕ) (addresses : List (ℕ × String)) (cs : List NewConnection)
    → Distinct (new addresses).peers
    → Known (new addresses).peers cs
    → All (Arrives cs) (new addresses).peers
    → NewClients [] cs
    → num_clients ≤ clients cs
    → 0 < length cs
    → (n : Network) × (initialize_connections num_clients (new addresses) cs ≡ ready n)
      × (all_connected n.peer_connections ≡ true)
      × (num_clients ≤ length n.client_connections)
unfolding new
initialize_connections-ready num_clients addresses [] d known arrive fresh enough some_come =
    absurd (omega arith)
initialize_connections-ready num_clients addresses (c ∷ cs) d known arrive fresh enough some_come =
    let peers = (new addresses).peers in
    let pending : Pending peers (new addresses).peer_connections (c ∷ cs) =
      subst (λ k. Pending peers (replicate k none) (c ∷ cs)) (length-map addresses (λ (id, _). id))
        (Pending-fresh peers (c ∷ cs) arrive) in
    let (n, reached, done) =
      ends num_clients (new addresses) c cs d pending known fresh (omega arith) in
    (n, reached, ground (arith, done), ground (arith, done))
