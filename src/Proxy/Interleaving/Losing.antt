-- ===== src/Proxy/Interleaving/Losing.antt =====
-- What is lost when two connections handle acks of one hash at once.
use omnipaxos_kv_project.Prelude.{
  ℕ, ap, subst, ◌≡◌, refl, sym, ◌∙◌, some, List, [], ◌∷◌, false, ◌==◌, ==_refl, if◌then◌else◌,
  arith,
}
use omnipaxos_kv_project.Prelude.Assoc
use omnipaxos_kv_project.Prelude.Assoc.{nat_eq, get-insert}
use omnipaxos_kv_project.Common.{Speculation}
use omnipaxos_kv_project.Proxy.{Ack, handle_command, counted}
use omnipaxos_kv_project.Proxy.Interleaving.{
  Stage, idle, has_counted, receives, stores, Shared, store, step, run,
}

stored-counted :
    (s : Shared) (j : ℕ) (b : Ack) (now : ℕ × Speculation) (stage : Stage)
    → stage ≡ has_counted b now
    → Assoc.get (store s j stage).database.db b.hash ≡ some now
unfolding handle_command
stored-counted s j b now stage waits = rw waits (
    get-insert s.database.db b.hash b.hash now
    ∙ ap (λ same. if same then some now else Assoc.get s.database.db b.hash) (==_refl b.hash))

-- The second connection keeps what it counted while the first stores.
still_counted :
    (servers : List ℕ) (s : Shared) (i j : ℕ) (a b : Ack)
    → s.stages i ≡ idle
    → s.stages j ≡ idle
    → (i == j) ≡ false
    → (run servers s (receives i a ∷ receives j b ∷ stores i ∷ [])).stages j
      ≡ has_counted b (counted (Assoc.get s.database.db b.hash) b.suspect)
unfolding run step handle_command
still_counted servers s i j a b i_waits j_waits apart =
    let flipped : (j == i) ≡ false = ground (arith, apart) in
    rw (i_waits, apart, j_waits, flipped, ==_refl i, apart, ==_refl j) refl

-- Where two connections wait for a message, and each receives an ack of the same hash before either
-- stores its count: the count that stays is the one that the second makes of what was stored before,
-- so the ack that the first received is not counted.
pub second_store-counted :
    (servers : List ℕ) (s : Shared) (i j : ℕ) (a b : Ack)
    → s.stages i ≡ idle
    → s.stages j ≡ idle
    → (i == j) ≡ false
    → a.hash ≡ b.hash
    → let done = run servers s (receives i a ∷ receives j b ∷ stores i ∷ stores j ∷ []) in
      Assoc.get done.database.db a.hash ≡ some (counted (Assoc.get s.database.db a.hash) b.suspect)
unfolding run step handle_command
second_store-counted servers s i j a b i_waits j_waits apart same =
    let before = run servers s (receives i a ∷ receives j b ∷ stores i ∷ []) in
    let now = counted (Assoc.get s.database.db b.hash) b.suspect in
    let after = (store before j (before.stages j)).database.db in
    let waits = still_counted servers s i j a b i_waits j_waits apart in
    subst (λ k. Assoc.get after k ≡ some (counted (Assoc.get s.database.db k) b.suspect)) (sym same)
      (stored-counted before j b now (before.stages j) waits)
