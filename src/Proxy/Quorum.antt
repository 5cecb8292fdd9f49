-- ===== src/Proxy/Quorum.antt =====
-- The proxy's count against the acks that it stands for.
use omnipaxos_kv_project.Prelude.{
  ℕ, suc, ◌%◌, ◌^◌, ◌≡◌, refl, ap, ◌∙◌, Option, none, some, List, [], ◌∷◌, map, Bool, true, false,
  ◌&&◌, leb, ◌==◌, length, arith, Bool-cases, inl, inr, if◌then◌else◌,
}
use omnipaxos_kv_project.Prelude.Assoc
use omnipaxos_kv_project.Prelude.Assoc.{Assoc, nat_eq, get-remove, get-insert, beq_refl}
use omnipaxos_kv_project.Prelude.Words.{add64}
use omnipaxos_kv_project.Common.{Speculation, ClientMessage}
use omnipaxos_kv_project.Proxy.{
  Database, new_database, Sent, Ack, counted, is_some, confirmation, handle_ack, handle_command,
  to_server,
}

-- The abstract view: the speculations of the acks for each hash since its last confirmation, the
-- newest first.
abbrev pub Tally : Type 0
Tally = ℕ → List Speculation

abbrev pub or_else : Speculation → Speculation → Speculation
or_else none s = s
or_else (some x) s = some x

-- The earliest speculation that is one
abbrev pub earliest : List Speculation → Speculation
earliest [] = none
earliest (s ∷ older) = or_else (earliest older) s

-- What the database stores for a list of acks
abbrev pub stored : List Speculation → Option (ℕ × Speculation)
stored [] = none
stored (s ∷ older) = some (suc (length older) % 2 ^ 64, earliest (s ∷ older))

abbrev pub confirms : ℕ → List Speculation → Bool
confirms q acks = leb q (length acks % 2 ^ 64) && is_some (earliest acks)

abbrev pub update : Tally → ℕ → List Speculation → Tally
update t k acks j = if k == j then acks else t j

-- An ack in the abstract view: it is added, and a confirmation starts the hash anew.
abbrev pub tally_ack : ℕ → Tally → Ack → Bool → Tally
tally_ack q t a writable =
    let acks = a.suspect ∷ t a.hash in
    update t a.hash (if confirms q acks then (if writable then [] else acks) else acks)

-- The database stores the tally.
abbrev pub IsTally : Database → Tally → Type 0
IsTally d t = (k : ℕ) → Assoc.get d.db k ≡ stored (t k)

pub new-IsTally : (q : ℕ) → IsTally (new_database q) (λ j. [])
unfolding Assoc.get
new-IsTally q k = refl

counted-some :
    (c : ℕ) (older s : Speculation) → counted (some (c, older)) s ≡ (add64 c 1, or_else older s)
counted-some c none s = refl
counted-some c (some x) s = refl

suc-wraps : (n : ℕ) → add64 (n % 2 ^ 64) 1 ≡ suc n % 2 ^ 64
unfolding add64
suc-wraps n = omega arith

counted-stored :
    (s : Speculation) (older : List Speculation)
    → counted (stored older) s ≡ (suc (length older) % 2 ^ 64, earliest (s ∷ older))
counted-stored s [] = refl
counted-stored s (x ∷ older) =
    counted-some (suc (length older) % 2 ^ 64) (earliest (x ∷ older)) s
    ∙ ap (λ n. (n, earliest (s ∷ x ∷ older))) (suc-wraps (suc (length older)))

-- The acks of a hash with a new one
abbrev pub with_ack : Tally → Ack → List Speculation
with_ack t a = a.suspect ∷ t a.hash

now-stored :
    (d : Database) (t : Tally) (a : Ack)
    → IsTally d t
    → counted (Assoc.get d.db a.hash) a.suspect
      ≡ (length (with_ack t a) % 2 ^ 64, earliest (with_ack t a))
now-stored d t a k = ap (λ o. counted o a.suspect) (k a.hash) ∙ counted-stored a.suspect (t a.hash)

put-IsTally :
    (d : Database) (t : Tally) (hash : ℕ) (now : ℕ × Speculation) (acks : List Speculation)
    → IsTally d t
    → some now ≡ stored acks
    → IsTally (record d { db = Assoc.insert d.db hash now }) (update t hash acks)
put-IsTally d t hash now acks k e j =
    get-insert d.db hash j now
    ∙ elim (Bool-cases (hash == j)) [ inl same ↦ rw same e | inr other ↦ rw other (k j) ]

other_key :
    (t : Tally) (hash j : ℕ) (acks : List Speculation)
    → (hash == j) ≡ false
    → update t hash acks j ≡ t j
other_key t hash j acks e = rw e refl

delete-IsTally :
    (d : Database) (t : Tally) (hash : ℕ) (acks : List Speculation)
    → IsTally d (update t hash acks)
    → IsTally (record d { db = Assoc.remove d.db hash }) (update t hash [])
delete-IsTally d t hash acks k j = get-remove d.db hash j ∙ elim (Bool-cases (hash == j)) [
  | inl same ↦ rw same refl
  | inr other ↦ rw other (k j ∙ ap stored (other_key t hash j acks other))
]

-- What the abstract view sends for an ack
abbrev pub answer : List ℕ → ℕ → List Speculation → Ack → Bool → List Sent × Bool
answer servers q acks a writable =
    if confirms q acks
    then (if writable
        then (confirmation servers a, true)
        else (map (λ i. to_server i (ClientMessage.ack a.cmd a.last_idx)) servers, false))
    else ([], true)

-- Where the database stores a tally of the acks of each hash since its last confirmation, handling
-- an ack stores the tally with that ack, started anew for the hash when it is confirmed and the
-- client can be written to. It sends the confirmation to every server, and to the client if it can
-- be written to, exactly when the acks of that hash, counted modulo 2 ^ 64, are a quorum and one of
-- them carries a speculation. The connection ends only if a confirmation cannot be written to the
-- client.
pub handle_ack-IsTally :
    (servers : List ℕ) (d : Database) (t : Tally) (a : Ack) (writable : Bool)
    → IsTally d t
    → IsTally (handle_ack servers d a writable).0 (tally_ack d.quorum t a writable)
      × ((handle_ack servers d a writable).1
          ≡ (answer servers d.quorum (with_ack t a) a writable).0)
      × ((handle_ack servers d a writable).2
          ≡ (answer servers d.quorum (with_ack t a) a writable).1)
      × ((handle_ack servers d a writable).0.quorum ≡ d.quorum)
unfolding handle_ack handle_command
handle_ack-IsTally servers d t a true k =
    rw (now-stored d t a k) (elim (Bool-cases (confirms d.quorum (with_ack t a))) [
      | inr few ↦ rw few (put-IsTally d t a.hash _ (with_ack t a) k refl, refl, refl, refl)
      | inl all ↦ rw all (
        delete-IsTally (record d { db = Assoc.insert d.db a.hash _ }) t a.hash (with_ack t a)
            (put-IsTally d t a.hash _ (with_ack t a) k refl),
        refl,
        refl,
        refl,
      )
    ])
handle_ack-IsTally servers d t a false k =
    rw (now-stored d t a k) (elim (Bool-cases (confirms d.quorum (with_ack t a))) [
      | inr few ↦ rw few (put-IsTally d t a.hash _ (with_ack t a) k refl, refl, refl, refl)
      | inl all ↦ rw all (put-IsTally d t a.hash _ (with_ack t a) k refl, refl, refl, refl)
    ])
