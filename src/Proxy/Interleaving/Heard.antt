-- ===== src/Proxy/Interleaving/Heard.antt =====
-- What was heard from the servers, and a state of the connections that is backed by it
use omnipaxos_kv_project.Prelude.{
  ℕ, suc, ◌≤◌, ◌≡◌, refl, ◌⊎◌, inl, inr, Option, none, some, List, [], ◌∷◌, Bool, true, false, ◌||◌,
  ◌==◌, arith, if◌then◌else◌,
}
use omnipaxos_kv_project.Prelude.Assoc
use omnipaxos_kv_project.Prelude.Assoc.{nat_eq, get-insert, get-remove}
use omnipaxos_kv_project.Prelude.Words.{add64}
use omnipaxos_kv_project.Common.{Speculation}
use omnipaxos_kv_project.Proxy.{Ack, counted, is_some}
use omnipaxos_kv_project.Proxy.Acks.{confirmations}
use omnipaxos_kv_project.Proxy.Interleaving.{
  Stage, idle, has_counted, has_stored, has_confirmed, closed, Event, receives, stores, confirms,
  deletes, Shared,
}

-- For each hash, how many acks were received, and whether one carried a speculation
abbrev pub Heard : Type 0
Heard = ℕ → ℕ × Bool

abbrev pub nothing : Heard
nothing k = (0, false)

abbrev pub hear : Heard → Event → Heard
hear h (receives i a) k = if a.hash == k then (suc (h k).0, (h k).1 || is_some a.suspect) else h k
hear h (stores i) k = h k
hear h (confirms i writable) k = h k
hear h (deletes i) k = h k

abbrev pub hears : Heard → List Event → Heard
hears h [] = h
hears h (event ∷ events) = hears (hear h event) events

-- A count and its speculation do not exceed what was heard.
abbrev pub Backed : Heard → ℕ → ℕ × Speculation → Type 0
Backed h k v = (v.0 ≤ (h k).0) × (is_some v.1 ≡ true → (h k).1 ≡ true)

abbrev pub Enough : Heard → ℕ → ℕ → Type 0
Enough h q k = (q ≤ (h k).0) × ((h k).1 ≡ true)

abbrev pub StageBacked : Heard → ℕ → Stage → Type 0
StageBacked h q (has_counted a now) = Backed h a.hash now
StageBacked h q (has_stored a) = Enough h q a.hash
StageBacked h q _ = Unit

pub record IsBacked (h : Heard) (q : ℕ) (s : Shared) : Type 0 where
  pub quorum : s.database.quorum ≡ q
  pub stored : (k : ℕ) (v : ℕ × Speculation) → Assoc.get s.database.db k ≡ some v → Backed h k v
  pub stages : (i : ℕ) → StageBacked h q (s.stages i)
  pub sent : (k : ℕ) → (confirmations k s.sent ≡ 0) ⊎ Enough h q k

hear-le : (h : Heard) (e : Event) (k : ℕ) → (h k).0 ≤ (hear h e k).0
hear-le h (receives i a) k = ground arith
hear-le h (stores i) k = omega arith
hear-le h (confirms i writable) k = omega arith
hear-le h (deletes i) k = omega arith

hear-led : (h : Heard) (e : Event) (k : ℕ) → (h k).1 ≡ true → (hear h e k).1 ≡ true
hear-led h (receives i a) k led = ground arith
hear-led h (stores i) k led = led
hear-led h (confirms i writable) k led = led
hear-led h (deletes i) k led = led

Backed-hear :
    (h : Heard) (e : Event) (k : ℕ) (v : ℕ × Speculation) → Backed h k v → Backed (hear h e) k v
Backed-hear h e k v b = (omega (arith, b.0, hear-le h e k), λ led. hear-led h e k (b.1 led))

Enough-hear : (h : Heard) (e : Event) (q k : ℕ) → Enough h q k → Enough (hear h e) q k
Enough-hear h e q k b = (omega (arith, b.0, hear-le h e k), hear-led h e k b.1)

StageBacked-hear :
    (h : Heard) (e : Event) (q : ℕ) (stage : Stage)
    → StageBacked h q stage
    → StageBacked (hear h e) q stage
StageBacked-hear h e q idle b = tt
StageBacked-hear h e q (has_counted a now) b = Backed-hear h e a.hash now b
StageBacked-hear h e q (has_stored a) b = Enough-hear h e q a.hash b
StageBacked-hear h e q (has_confirmed a) b = tt
StageBacked-hear h e q closed b = tt

-- The state is backed by more that is heard.
pub IsBacked-hear :
    (h : Heard) (e : Event) (q : ℕ) (s : Shared) → IsBacked h q s → IsBacked (hear h e) q s
IsBacked-hear h e q s b = record {
  quorum = b.quorum;
  stored = λ k v at. Backed-hear h e k v (b.stored k v at);
  stages = λ i. StageBacked-hear h e q (s.stages i) (b.stages i);
  sent = λ k. elim (b.sent k) [
    | inl none_sent ↦ inl none_sent
    | inr enough ↦ inr (Enough-hear h e q k enough)
  ];
}

-- The new count of an ack
pub counted-Backed :
    (h : Heard) (i : ℕ) (a : Ack) (o : Option (ℕ × Speculation))
    → ((v : ℕ × Speculation) → o ≡ some v → Backed h a.hash v)
    → Backed (hear h (receives i a)) a.hash (counted o a.suspect)
unfolding add64
counted-Backed h i a none b = (ground arith, λ led. ground arith)
counted-Backed h i a (some (n, none)) b =
    let known = b (n, none) refl in (ground (arith, known.0), λ led. ground arith)
counted-Backed h i a (some (n, some spec)) b =
    let known = b (n, some spec) refl in
    (ground (arith, known.0), λ led. ground (arith, known.1 refl))
