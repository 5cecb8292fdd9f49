-- ===== src/Proxy/Acks.antt =====
-- The proxy over a sequence of acks, none handled while another is.
use omnipaxos_kv_project.Prelude.{
  ℕ, ◌+◌, ◌*◌, ◌%◌, ◌^◌, ◌≤◌, ◌≡◌, refl, sym, ap, subst, ◌∙◌, inl, inr, List, [], ◌∷◌, ◌++◌, map,
  Bool, true, false, ◌&&◌, leb, ◌==◌, ==_iff, length, arith, Bool-cases, if◌then◌else◌,
}
use omnipaxos_kv_project.Common.{ClientMessage, ServerMessage}
use omnipaxos_kv_project.Proxy.{
  new, Database, Sent, to_server, to_client, Ack, confirmation, handle_ack, is_some,
}
use omnipaxos_kv_project.Proxy.Quorum.{
  Tally, IsTally, tally_ack, with_ack, answer, confirms, update, earliest, handle_ack-IsTally,
  new-IsTally,
}

-- Acks one after another, each with whether the client's stream can be written to
unfoldable pub handle_acks : List ℕ → Database → List (Ack × Bool) → Database × List Sent
handle_acks servers d [] = (d, [])
handle_acks servers d ((a, writable) ∷ more) =
    let (d', sent, goes_on) = handle_ack servers d a writable in
    let (d'', rest) = handle_acks servers d' more in (d'', sent ++ rest)

-- The acks that a client gets for a hash
abbrev pub for_hash : ℕ → Sent → ℕ
for_hash k (to_client (ServerMessage.ack cmd hash suspect last_idx)) = if hash == k then 1 else 0
for_hash k _ = 0

abbrev pub confirmations : ℕ → List Sent → ℕ
confirmations k [] = 0
confirmations k (m ∷ ms) = for_hash k m + confirmations k ms

-- The acks that the servers sent for a hash
abbrev pub acks_of : ℕ → List (Ack × Bool) → ℕ
acks_of k [] = 0
acks_of k ((a, writable) ∷ more) = (if a.hash == k then 1 else 0) + acks_of k more

pub confirmations-append :
    (k : ℕ) (xs ys : List Sent)
    → confirmations k (xs ++ ys) ≡ confirmations k xs + confirmations k ys
confirmations-append k [] ys = omega arith
confirmations-append k (x ∷ xs) ys = omega (arith, confirmations-append k xs ys)

pub confirmations-servers :
    (k : ℕ) (servers : List ℕ) (m : ClientMessage)
    → confirmations k (map (λ i. to_server i m) servers) ≡ 0
confirmations-servers k [] m = refl
confirmations-servers k (i ∷ is) m = omega (arith, confirmations-servers k is m)

pub confirmations-confirmation :
    (k : ℕ) (servers : List ℕ) (a : Ack)
    → confirmations k (confirmation servers a) ≡ (if a.hash == k then 1 else 0)
confirmations-confirmation k servers a =
    confirmations-append k (map (λ i. to_server i (ClientMessage.ack a.cmd a.last_idx)) servers) _
    ∙ rw (confirmations-servers k servers (ClientMessage.ack a.cmd a.last_idx)) (omega arith)

-- A hash is confirmed on as many acks as the quorum, at least.
confirms-le : (q n : ℕ) (b : Bool) → leb q (n % 2 ^ 64) && b ≡ true → q ≤ n
confirms-le q n b e = ground arith

few-le :
    (q : ℕ) (t : Tally) (a : Ack) (k : ℕ)
    → q * 0 + length (update t a.hash (with_ack t a) k)
      ≤ (if a.hash == k then 1 else 0) + length (t k)
few-le q t a k = elim (Bool-cases (a.hash == k)) [
  | inl same ↦ rw (same, (==_iff a.hash k).0 same) (omega arith)
  | inr other ↦ rw other (omega arith)
]

enough-le :
    (q : ℕ) (t : Tally) (a : Ack) (k : ℕ)
    → q ≤ length (with_ack t a)
    → q * (if a.hash == k then 1 else 0) + length (update t a.hash [] k)
      ≤ (if a.hash == k then 1 else 0) + length (t k)
enough-le q t a k h = elim (Bool-cases (a.hash == k)) [
  | inl same ↦ rw (same, sym ((==_iff a.hash k).0 same)) (omega arith)
  | inr other ↦ rw other (omega arith)
]

answer-le :
    (servers : List ℕ) (q : ℕ) (t : Tally) (a : Ack) (writable : Bool) (k : ℕ)
    → q * confirmations k (answer servers q (with_ack t a) a writable).0
        + length (tally_ack q t a writable k)
      ≤ (if a.hash == k then 1 else 0) + length (t k)
answer-le servers q t a true k = elim (Bool-cases (confirms q (with_ack t a))) [
  | inr few ↦ rw few (few-le q t a k)
  | inl all ↦
      rw (all, confirmations-confirmation k servers a)
        (enough-le q t a k
          (confirms-le q (length (with_ack t a)) (is_some (earliest (with_ack t a))) all))
]
answer-le servers q t a false k = elim (Bool-cases (confirms q (with_ack t a))) [
  | inr few ↦ rw few (few-le q t a k)
  | inl all ↦
      rw (all, confirmations-servers k servers (ClientMessage.ack a.cmd a.last_idx))
        (few-le q t a k)
]

distribute : (q a b x y z w : ℕ) → q * a + y ≤ x + z → q * b ≤ w + y → q * (a + b) ≤ x + w + z
distribute q a b x y z w h k = omega arith

without_zero : {m n : ℕ} → m ≤ n + 0 → m ≤ n
without_zero h = omega arith

combine-le :
    (q q' a a' b x y z w : ℕ)
    → q * a + y ≤ x + z
    → q' * b ≤ w + y
    → a' ≡ a
    → q' ≡ q
    → q * (a' + b) ≤ x + w + z
combine-le q q' a a' b x y z w h k e j =
    subst (λ c. q * (c + b) ≤ x + w + z) (sym e)
      (distribute q a b x y z w h (subst (λ r. r * b ≤ w + y) j k))

tallied-le :
    (servers : List ℕ) (d : Database) (t : Tally) (acks : List (Ack × Bool)) (k : ℕ)
    → IsTally d t
    → d.quorum * confirmations k (handle_acks servers d acks).1 ≤ acks_of k acks + length (t k)
unfolding handle_acks
tallied-le servers d t [] k h = omega arith
tallied-le servers d t ((a, writable) ∷ more) k h =
    let d' = (handle_ack servers d a writable).0 in
    let sent = (handle_ack servers d a writable).1 in
    let t' = tally_ack d.quorum t a writable in
    let step = handle_ack-IsTally servers d t a writable h in
    let rest = (handle_acks servers d' more).1 in
    rw (confirmations-append k sent rest) (
      combine-le d.quorum d'.quorum
        (confirmations k (answer servers d.quorum (with_ack t a) a writable).0)
        (confirmations k sent) (confirmations k rest) (if a.hash == k then 1 else 0) (length (t' k))
        (length (t k)) (acks_of k more) (answer-le servers d.quorum t a writable k)
        (tallied-le servers d' t' more k step.0) (ap (confirmations k) step.1) step.3)

-- From an empty database, of acks that are handled one after another, each to its end before the
-- next is received, whatever they are and whether the client can be reached: the quorum times the
-- confirmations of a hash that the client gets is at most the acks that the servers sent for that
-- hash, so no ack counts twice.
pub confirmations_need_quorum :
    (servers : List ℕ) (nodes fault_tolerance : ℕ) (acks : List (Ack × Bool)) (k : ℕ)
    → (new nodes fault_tolerance).quorum
        * confirmations k (handle_acks servers (new nodes fault_tolerance) acks).1
      ≤ acks_of k acks
confirmations_need_quorum servers nodes fault_tolerance acks k = without_zero (
    tallied-le servers (new nodes fault_tolerance) (λ j. []) acks k
      (new-IsTally (new nodes fault_tolerance).quorum))
