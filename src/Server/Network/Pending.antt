-- ===== src/Server/Network/Pending.antt =====
-- The peers that a server still waits for, while its connections are established.
use omnipaxos_kv_project.Prelude.{
  ℕ, suc, ◌≡◌, ◌≢◌, refl, sym, ◌∙◌, ◌⊎◌, inl, inr, Option, none, some, some-injective, ℕ_discrete,
  List, [], ◌∷◌, true, arith, length, set, replicate, All, All-mono,
}
use omnipaxos_kv_project.Prelude.Assoc
use omnipaxos_kv_project.Prelude.Assoc.{Assoc, nat_eq}
use omnipaxos_kv_project.Server.Network.{
  PeerConnection, ClientConnection, NewConnection, to_peer, to_client, position, position_after,
  all_connected,
}

abbrev pub Distinct : List ℕ → Type 0
Distinct [] = Unit
Distinct (p ∷ ps) = All (λ q. p ≢ q) ps × Distinct ps

-- A connection to the peer is among those that are established.
abbrev pub Arrives : List NewConnection → ℕ → Type 0
Arrives [] p = ⊥
Arrives (to_peer c ∷ cs) p = (c.peer_id ≡ p) ⊎ Arrives cs p
Arrives (to_client c ∷ cs) p = Arrives cs p

-- The connections are to peers of this list.
abbrev pub Known : List ℕ → List NewConnection → Type 0
Known peers [] = Unit
Known peers (to_peer c ∷ cs) = ((idx : ℕ) × (position peers c.peer_id ≡ some idx)) × Known peers cs
Known peers (to_client c ∷ cs) = Known peers cs

-- No client's id comes twice.
abbrev pub NewClients : Assoc ℕ ClientConnection → List NewConnection → Type 0
NewClients m [] = Unit
NewClients m (to_peer c ∷ cs) = NewClients m cs
NewClients m (to_client c ∷ cs) =
    (Assoc.get m c.client_id ≡ none) × NewClients (Assoc.insert m c.client_id c) cs

abbrev pub clients : List NewConnection → ℕ
clients [] = 0
clients (to_peer c ∷ cs) = clients cs
clients (to_client c ∷ cs) = suc (clients cs)

-- Each peer without a connection will have one.
abbrev pub Pending : List ℕ → List (Option PeerConnection) → List NewConnection → Type 0
Pending [] [] cs = Unit
Pending [] (slot ∷ slots) cs = ⊥
Pending (p ∷ ps) [] cs = ⊥
Pending (p ∷ ps) (none ∷ slots) cs = Arrives cs p × Pending ps slots cs
Pending (p ∷ ps) (some c ∷ slots) cs = Pending ps slots cs

pub Pending-nil :
    (ps : List ℕ) (slots : List (Option PeerConnection))
    → Pending ps slots []
    → all_connected slots ≡ true
Pending-nil [] [] h = refl
Pending-nil [] (slot ∷ slots) h = absurd h
Pending-nil (p ∷ ps) [] h = absurd h
Pending-nil (p ∷ ps) (none ∷ slots) h = absurd h.0
Pending-nil (p ∷ ps) (some c ∷ slots) h = Pending-nil ps slots h

pub Pending-fresh :
    (ps : List ℕ) (cs : List NewConnection)
    → All (Arrives cs) ps
    → Pending ps (replicate (length ps) none) cs
Pending-fresh [] cs h = tt
Pending-fresh (p ∷ ps) cs h = (h.0, Pending-fresh ps cs h.1)

pub Pending-client :
    (ps : List ℕ) (slots : List (Option PeerConnection)) (c : ClientConnection)
    (cs : List NewConnection)
    → Pending ps slots (to_client c ∷ cs)
    → Pending ps slots cs
Pending-client [] [] c cs h = tt
Pending-client [] (slot ∷ slots) c cs h = h
Pending-client (p ∷ ps) [] c cs h = h
Pending-client (p ∷ ps) (none ∷ slots) c cs h = (h.0, Pending-client ps slots c cs h.1)
Pending-client (p ∷ ps) (some d ∷ slots) c cs h = Pending-client ps slots c cs h

-- A connection to none of these peers makes no difference to them.
Pending-other :
    (ps : List ℕ) (slots : List (Option PeerConnection)) (c : PeerConnection)
    (cs : List NewConnection)
    → All (λ q. c.peer_id ≢ q) ps
    → Pending ps slots (to_peer c ∷ cs)
    → Pending ps slots cs
Pending-other [] [] c cs a h = tt
Pending-other [] (slot ∷ slots) c cs a h = h
Pending-other (p ∷ ps) [] c cs a h = h
Pending-other (p ∷ ps) (none ∷ slots) c cs a h = (
  elim h.0 [ inl same ↦ absurd (a.0 same) | inr later ↦ later ],
  Pending-other ps slots c cs a.1 h.1,
)
Pending-other (p ∷ ps) (some d ∷ slots) c cs a h = Pending-other ps slots c cs a.1 h

-- The first peer, or a later one
position-cons :
    (p : ℕ) (ps : List ℕ) (id idx : ℕ)
    → position (p ∷ ps) id ≡ some idx
    → ((p ≡ id) × (idx ≡ 0)) ⊎ ((p ≢ id) × (i : ℕ) × (idx ≡ suc i) × (position ps id ≡ some i))
position-cons p ps id idx at = elim (ℕ_discrete p id) [
  | yes same ↦ inl (same, ground (arith, at))
  | no differ ↦
      let (i, suc_i, at') = later (position ps id) idx (ground (arith, at)) in
      inr (differ, i, suc_i, at')
]
  where
    later :
        (o : Option ℕ) (idx : ℕ)
        → position_after o ≡ some idx
        → (i : ℕ) × (idx ≡ suc i) × (o ≡ some i)
    later none idx e = cc
    later (some i) idx e = (i, sym (some-injective e), refl)

others : (p : ℕ) (ps : List ℕ) (id : ℕ) → p ≡ id → All (λ q. p ≢ q) ps → All (λ q. id ≢ q) ps
others p ps id same = All-mono (λ q. p ≢ q) (λ q. id ≢ q) ps (λ q ne e. ne (same ∙ e))

-- A connection is stored in the slot of its peer.
pub Pending-set :
    (ps : List ℕ) (slots : List (Option PeerConnection)) (c : PeerConnection)
    (cs : List NewConnection) (idx : ℕ)
    → Distinct ps
    → position ps c.peer_id ≡ some idx
    → Pending ps slots (to_peer c ∷ cs)
    → Pending ps (set slots idx (some c)) cs
Pending-set [] slots c cs idx d at h = cc
Pending-set (p ∷ ps) [] c cs idx d at h = absurd h
Pending-set (p ∷ ps) (none ∷ slots) c cs idx d at h = elim (position-cons p ps c.peer_id idx at) [
  | inl (same, first) ↦ rw first (Pending-other ps slots c cs (others p ps c.peer_id same d.0) h.1)
  | inr (differ, i, later, at') ↦ rw later (
    elim h.0 [ inl same ↦ absurd (differ (sym same)) | inr arrives ↦ arrives ],
    Pending-set ps slots c cs i d.1 at' h.1,
  )
]
Pending-set (p ∷ ps) (some old ∷ slots) c cs idx d at h =
    elim (position-cons p ps c.peer_id idx at) [
      | inl (same, first) ↦
          rw first (Pending-other ps slots c cs (others p ps c.peer_id same d.0) h)
      | inr (differ, i, later, at') ↦ rw later (Pending-set ps slots c cs i d.1 at' h)
    ]
