-- ===== src/Unicache/Codes.antt =====
-- The codes that a cache gives to its fields.
use omnipaxos_kv_project.Prelude.{
  ℕ, suc, ◌<◌, ◌≡◌, ◌≢◌, refl, sym, ◌∙◌, inl, inr, none, List, [], ◌∷◌, All, All-mono, Bool-cases,
  arith,
}
use omnipaxos_kv_project.Prelude.Assoc
use omnipaxos_kv_project.Prelude.Assoc.{Assoc, Eq}
use omnipaxos_kv_project.Unicache.{IncrementByOne, code, swapped}

-- No two of the codes that a cache of this size makes are the same.
abbrev pub AreDistinct : {E : Type 0} → IncrementByOne E → ℕ → Type 0
AreDistinct i size = (m n : ℕ) → m < n → n < size → code i (suc m) ≢ code i (suc n)

-- One of the first `n` codes
abbrev pub IsCode : {E : Type 0} → IncrementByOne E → ℕ → E → Type 0
IsCode i n e = (m : ℕ) × (m < n) × (e ≡ code i (suc m))

-- The next code is not taken.
pub next-absent :
    {K E : Type 0} ⦃r : Eq E⦄ (i : IncrementByOne E) (size n : ℕ) (l : List (K × E))
    → AreDistinct i size
    → n < size
    → All (λ item. IsCode i n item.1) l
    → Assoc.get (swapped l) (code i (suc n)) ≡ none
unfolding Assoc.get
next-absent i size n [] distinct room codes = refl
next-absent ⦃r⦄ i size n ((k, e) ∷ l) distinct room codes =
    let (m, below, made) = codes.0 in
    elim (Bool-cases (r.beq e (code i (suc n)))) [
      | inl same ↦
          absurd (distinct m n below room (sym made ∙ (r.beq_iff e (code i (suc n))).0 same))
      | inr other ↦ rw other (next-absent i size n l distinct room codes.1)
    ]

pub more_codes :
    {K E : Type 0} (i : IncrementByOne E) (n : ℕ) (l : List (K × E))
    → All (λ item. IsCode i n item.1) l
    → All (λ item. IsCode i (suc n) item.1) l
more_codes i n l h = All-mono _ _ l (λ item c. (c.0, omega (arith, c.1), c.2)) h
