-- ===== src/Client/Responses.antt =====
-- What a response leaves of the data of the other requests.
use omnipaxos_kv_project.Prelude.{
  ℕ, zero, suc, ◌+◌, ◌<◌, ◌^◌, ◌≡◌, ◌≢◌, refl, ap, ◌∙◌, Option, none, List, [], ◌∷◌, ltb, length,
  get_elem?, get_elem?-set_ne, length-set, arith, if◌then◌else◌,
}
use omnipaxos_kv_project.Prelude.Words.{add64}
use omnipaxos_kv_project.Client.{ClientData, default, resize, new_response, request_count}

no_index : {i : ℕ} → i < 0 → ⊥
no_index h = omega arith

step_index {ℓ} :
    {A : Type ℓ} (o : Option A) (i n : ℕ)
    → (if ltb i n then o else none) ≡ (if ltb (suc i) (suc n) then o else none)
step_index o i n = ground arith

id_exact : (n : ℕ) → n + 1 < 2 ^ 64 → add64 n 1 ≡ n + 1
unfolding add64
id_exact n b = omega arith

get_elem?-resize {ℓ} :
    {A : Type ℓ} (xs : List A) (n i : ℕ) (value : A)
    → i < length xs
    → get_elem? (resize xs n value) i ≡ (if ltb i n then get_elem? xs i else none)
get_elem?-resize [] n i value h = elim (no_index h) [ ]
get_elem?-resize (x ∷ xs) zero i value h = ground arith
get_elem?-resize (x ∷ xs) (suc n) zero value h = ground arith
get_elem?-resize (x ∷ xs) (suc n) (suc i) value h =
    get_elem?-resize xs n i value (omega arith) ∙ step_index (get_elem? xs i) i n

length-resize {ℓ} : {A : Type ℓ} (xs : List A) (n : ℕ) (value : A) → length (resize xs n value) ≡ n
length-resize xs zero value = refl
length-resize [] (suc n) value = ap suc (length-resize [] n value)
length-resize (x ∷ xs) (suc n) value = ap suc (length-resize xs n value)

-- A response to a command whose id is not the last `usize` leaves as many requests in the data as
-- the id and one. Of the other requests it keeps the data of those with a smaller id, and drops that
-- of those with a larger id.
pub new_response-request_data :
    (c : ClientData) (command_id now : ℕ)
    → command_id + 1 < 2 ^ 64
    → (request_count (new_response c command_id now) ≡ command_id + 1)
      × ((i : ℕ)
          → i < request_count c
          → command_id ≢ i
          → get_elem? (new_response c command_id now).request_data i
            ≡ (if ltb i (command_id + 1) then get_elem? c.request_data i else none))
unfolding new_response
new_response-request_data c command_id now b = rw (id_exact command_id b) (
  length-set (resize c.request_data (command_id + 1) default) command_id _
      ∙ length-resize c.request_data (command_id + 1) default,
  (λ i h other.
      get_elem?-set_ne (resize c.request_data (command_id + 1) default) _ other
      ∙ get_elem?-resize c.request_data (command_id + 1) i default h),
)
