-- ===== src/Proxy/Accepting.antt =====
-- Which clients the proxy's listener gives a receiver.
use omnipaxos_kv_project.Prelude.{
  ℕ, zero, suc, ◌+◌, ◌≤◌, ◌<◌, ◌^◌, ◌≡◌, refl, ap, ◌∙◌, inl, inr, Option, none, some, List, [], ◌∷◌,
  true, false, ltb, ◌==◌, Bool-cases, arith, dec_lt, if◌then◌else◌,
}
use omnipaxos_kv_project.Prelude.Assoc.{nat_eq, get, remove, get-remove}
use omnipaxos_kv_project.Prelude.Words.{add64}
use omnipaxos_kv_project.Proxy.{Listener, listener, numbered, accept_client}

abbrev pub served : ℕ → Option (List ℕ) → Option (List ℕ)
served receiver none = none
served receiver (some rest) = some (receiver ∷ rest)

abbrev pub serve : (Listener → Option (List ℕ)) → Option (Listener × ℕ × ℕ) → Option (List ℕ)
serve rest none = none
serve rest (some (l, id, receiver)) = served receiver (rest l)

-- `k` clients one after another: the receivers that their connections get, or none for a panic
unfoldable pub accept_clients : ℕ → Listener → Option (List ℕ)
accept_clients zero l = some []
accept_clients (suc k) l = serve (accept_clients k) (accept_client l)

-- The numbers after `i`, `k` of them
abbrev pub after : ℕ → ℕ → List ℕ
after i zero = []
after i (suc k) = (i + 1) ∷ after (i + 1) k

first : (i j n : ℕ) → (i == j) ≡ true → some i ≡ (if ltb j (i + suc n) then some j else none)
first i j n e = ground arith

shift :
    (i j n : ℕ)
    → (if ltb j (i + 1 + n) then some j else none) ≡ (if ltb j (i + suc n) then some j else none)
shift i j n = ground arith

get-numbered : (i n j : ℕ) → i ≤ j → get (numbered i n) j ≡ (if ltb j (i + n) then some j else none)
unfolding get
get-numbered i zero j h = ground arith
get-numbered i (suc n) j h = elim (Bool-cases (i == j)) [
  | inl same ↦ rw same (first i j n same)
  | inr other ↦ rw other (get-numbered (i + 1) n j (ground arith) ∙ shift i j n)
]

-- The receivers of the nodes past the counter are left.
abbrev IsLeft : ℕ → Listener → Type 0
IsLeft n l = (j : ℕ) → l.counter < j → get l.server_receivers j ≡ (if ltb j n then some j else none)

accepted : Listener → ℕ → Listener
accepted l id = record { server_receivers = remove l.server_receivers id; counter = id }

id_exact : (c n : ℕ) → c < n → n < 2 ^ 64 → add64 c 1 ≡ c + 1
unfolding add64
id_exact c n h b = omega arith

found : (j n : ℕ) → j < n → (if ltb j n then some j else none) ≡ some j
found j n h = ground arith

missing : (j n : ℕ) → n ≤ j → (if ltb j n then some j else none) ≡ none
missing j n h = ground arith

accept_client-next :
    (l : Listener) (n : ℕ)
    → IsLeft n l
    → l.counter + 1 < n
    → n < 2 ^ 64
    → accept_client l ≡ some (accepted l (l.counter + 1), l.counter + 1, l.counter + 1)
unfolding accept_client accepted
accept_client-next l n k h b =
    rw
      (
        id_exact l.counter n (omega arith) b,
        k (l.counter + 1) (omega arith) ∙ found (l.counter + 1) n h,
      )
      refl

accept_client-last :
    (l : Listener) (n : ℕ) → IsLeft n l → l.counter + 1 ≡ n → n < 2 ^ 64 → accept_client l ≡ none
unfolding accept_client
accept_client-last l n k e b =
    rw
      (
        id_exact l.counter n (omega arith) b,
        k (l.counter + 1) (omega arith) ∙ missing (l.counter + 1) n (omega arith),
      )
      refl

later : (i j : ℕ) → i < j → (i == j) ≡ false
later i j h = ground arith

same_length :
    (n j : ℕ) → (if ltb j (0 + n) then some j else none) ≡ (if ltb j n then some j else none)
same_length n j = ground arith

accepted-IsLeft : (l : Listener) (n : ℕ) → IsLeft n l → IsLeft n (accepted l (l.counter + 1))
unfolding accepted
accepted-IsLeft l n k j h =
    get-remove l.server_receivers (l.counter + 1) j
    ∙ rw (later (l.counter + 1) j h) (k j (omega arith))

listener-IsLeft : (n : ℕ) → IsLeft n (listener n)
listener-IsLeft n j h = get-numbered 0 n j (omega arith) ∙ same_length n j

contradiction : {c n : ℕ} → c < n → n ≤ c + 0 → ⊥
contradiction h k = omega arith

served-all :
    (k : ℕ) (l : Listener) (n : ℕ)
    → IsLeft n l
    → n < 2 ^ 64
    → l.counter + k < n
    → accept_clients k l ≡ some (after l.counter k)
unfolding accept_clients accepted
served-all zero l n h b e = refl
served-all (suc k) l n h b e =
    ap (serve (accept_clients k)) (accept_client-next l n h (omega arith) b)
    ∙ ap (served (l.counter + 1))
        (served-all k (accepted l (l.counter + 1)) n (accepted-IsLeft l n h) b (omega arith))

served-until :
    (k : ℕ) (l : Listener) (n : ℕ)
    → IsLeft n l
    → n < 2 ^ 64
    → l.counter < n
    → n ≤ l.counter + k
    → accept_clients k l ≡ none
unfolding accept_clients accepted
served-until zero l n h b c e = elim (contradiction c e) [ ]
served-until (suc k) l n h b c e = elim (dec_lt (l.counter + 1) n) [
  | yes more ↦
      ap (serve (accept_clients k)) (accept_client-next l n h more b)
      ∙ ap (served (l.counter + 1)) (
          served-until k (accepted l (l.counter + 1)) n (accepted-IsLeft l n h) b more
            (omega arith))
  | no last ↦ ap (serve (accept_clients k)) (accept_client-last l n h (omega arith) b)
]

-- With `n` nodes, fewer than 2 ^ 64, and fewer clients than nodes, the clients get the receivers 1,
-- 2, ... in the order in which they connect, so that of the first node, 0, is given to none.
pub accept_clients-receivers :
    (n k : ℕ) → n < 2 ^ 64 → k < n → accept_clients k (listener n) ≡ some (after 0 k)
accept_clients-receivers n k b h = served-all k (listener n) n (listener-IsLeft n) b (omega arith)

-- The proxy of `n` nodes, at least one and fewer than 2 ^ 64, panics once there are as many clients
-- as nodes.
pub accept_clients-panics :
    (n k : ℕ) → n < 2 ^ 64 → 0 < n → n ≤ k → accept_clients k (listener n) ≡ none
accept_clients-panics n k b h e =
    served-until k (listener n) n (listener-IsLeft n) b h (omega arith)
