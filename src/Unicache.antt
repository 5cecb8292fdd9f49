-- ===== src/Unicache.antt =====
-- The caches of crates/custom-paxos/omnipaxos/src/unicache, by which a field of an entry is sent as
-- a short code once both sides know it: the shared types of unicache/mod.rs. The feature is not
-- switched on by the programs of this repository.
pub mod OneToOne
pub mod Codes
pub mod Lru
pub mod Lfu
use omnipaxos_kv_project.Prelude.{◌>>=◌, ℕ, zero, suc, Option, none, some, List, [], ◌∷◌, ◌≡◌, refl}

-- `MaybeEncoded`
pub data MaybeEncoded (K E : Type 0) : Type 0 where
  encoded : E → MaybeEncoded K E
  not_encoded : K → MaybeEncoded K E

-- `IncrementByOne`: the default value of the codes, and what adds one to a code
pub record IncrementByOne (E : Type 0) : Type 0 where
  pub default : E
  pub one : E
  pub add : E → E → E

-- The codes in the order in which a cache makes them, after the default value
abbrev pub code : {E : Type 0} → IncrementByOne E → ℕ → E
code i zero = i.default
code i (suc n) = i.add (code i n) i.one

-- `NonZeroUsize::new(n).unwrap()`; none is the panic.
abbrev pub non_zero : ℕ → Option ℕ
non_zero zero = none
non_zero (suc n) = some (suc n)

-- `Option::unwrap_or`
abbrev pub unwrap_or : Option ℕ → ℕ → ℕ
unwrap_or none d = d
unwrap_or (some n) d = n

-- The items of a cache, the other way round
abbrev pub swapped : {K E : Type 0} → List (K × E) → List (E × K)
swapped [] = []
swapped ((k, e) ∷ items) = (e, k) ∷ swapped items

-- `FieldCache`: how a cache is made, encodes and decodes; none is a panic.
pub record FieldCache (C K E : Type 0) : Type 0 where
  pub new : ℕ → Option C
  pub try_encode : C → K → Option (C × MaybeEncoded K E)
  pub decode : C → MaybeEncoded K E → Option (C × K)

module _ {C K E : Type 0} (f : FieldCache C K E) where
  -- The fields that are encoded one after the other
  unfoldable pub encode_all : C → List K → Option (C × List (MaybeEncoded K E))
  encode_all c [] = some (c, [])
  encode_all c (k ∷ ks) = do
    (c', m) ← f.try_encode c k
    (c'', ms) ← encode_all c' ks
    some (c'', m ∷ ms)

  unfoldable pub decode_all : C → List (MaybeEncoded K E) → Option (C × List K)
  decode_all c [] = some (c, [])
  decode_all c (m ∷ ms) = do
    (c', k) ← f.decode c m
    (c'', ks) ← decode_all c' ms
    some (c'', k ∷ ks)

  -- Where a relation of an encoder and a decoder makes one field come through and holds again
  -- afterwards, any number of fields come through.
  pub all_come_through :
      (InSync : C → C → Type 0)
      → ((u w : C) (k : K)
          → InSync u w
          → (u' : C) × (m : MaybeEncoded K E) × (w' : C) × (f.try_encode u k ≡ some (u', m))
            × (f.decode w m ≡ some (w', k))
            × InSync u' w')
      → (u w : C) (ks : List K) → InSync u w
      → (u' : C) × (ms : List (MaybeEncoded K E)) × (w' : C) × (encode_all u ks ≡ some (u', ms))
        × (decode_all w ms ≡ some (w', ks))
        × InSync u' w'
  unfolding encode_all decode_all
  all_come_through InSync one u w [] s = (u, [], w, refl, refl, s)
  all_come_through InSync one u w (k ∷ ks) s =
      let (u₁, m, w₁, sent, got, s₁) = one u w k s in
      let (u', ms, w', all_sent, all_got, s') = all_come_through InSync one u₁ w₁ ks s₁ in
      (u', m ∷ ms, w', rw (sent, all_sent) refl, rw (got, all_got) refl, s')
