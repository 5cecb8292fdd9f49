-- ===== src/Unicache/Lfu/Sets.antt =====
-- Sets in the order of insertion, what is relied on of the crate linked_hash_set, and maps in which
-- each key stands once.
use omnipaxos_kv_project.Prelude.{
  ℕ, suc, ◌≡◌, refl, inl, inr, none, some, List, [], ◌∷◌, ◌++◌, Bool, true, false, Bool-cases, ◌||◌,
  length, arith, if◌then◌else◌,
}
use omnipaxos_kv_project.Prelude.Assoc
use omnipaxos_kv_project.Prelude.Assoc.{Assoc, Eq, nat_eq, get-insert, get-remove}
use omnipaxos_kv_project.Unicache.OneToOne.{remove_absent, get-remove_self}
use omnipaxos_kv_project.Unicache.Lfu.{LinkedHashSet}

module _ {K : Type 0} ⦃q : Eq K⦄ where
  abbrev pub has : List K → K → Bool
  has [] k = false
  has (x ∷ xs) k = q.beq x k || has xs k

  abbrev pub without : List K → K → List K
  without [] k = []
  without (x ∷ xs) k = let rest = without xs k in if q.beq x k then rest else x ∷ rest

  abbrev pub IsDistinct : List K → Type 0
  IsDistinct [] = Unit
  IsDistinct (x ∷ xs) = (has xs x ≡ false) × IsDistinct xs

  pub has-without :
      (l : List K) (k j : K) → has (without l k) j ≡ (if q.beq k j then false else has l j)
  has-without [] k j = ground arith
  has-without (x ∷ xs) k j =
      ground (arith, has-without xs k j, q.beq_iff x k, q.beq_iff x j, q.beq_iff k j)

  pub has-append : (l m : List K) (k : K) → has (l ++ m) k ≡ (has l k || has m k)
  has-append [] m k = refl
  has-append (x ∷ xs) m k = ground (arith, has-append xs m k)

-- What the cache relies on of the crate: a set keeps the order of insertion, and an element that is
-- inserted again goes to the end.
pub record IsLinkedHashSet {K : Type 0} ⦃q : Eq K⦄ (H : LinkedHashSet K) : Type 0 where
  pub default_lem : H.iter H.default ≡ []
  pub with_capacity_lem : (n : ℕ) → H.iter (H.with_capacity n) ≡ []
  pub insert_lem : (s : H.Set) (k : K) → H.iter (H.insert s k) ≡ without (H.iter s) k ++ k ∷ []
  pub remove_lem : (s : H.Set) (k : K) → H.iter (H.remove s k) ≡ without (H.iter s) k
  pub pop_front_lem :
      (s : H.Set) (k : K) (rest : List K)
      → H.iter s ≡ k ∷ rest
      → (s' : H.Set) × (H.pop_front s ≡ some (k, s')) × (H.iter s' ≡ rest)
  pub empty : (s : H.Set) → H.iter s ≡ [] → H.is_empty s ≡ true
  pub not_empty : (s : H.Set) (k : K) (rest : List K) → H.iter s ≡ k ∷ rest → H.is_empty s ≡ false
  pub distinct : (s : H.Set) → IsDistinct (H.iter s)

module _ {K V : Type 0} ⦃q : Eq K⦄ where
  -- Each key stands in the map once.
  abbrev pub IsMap : Assoc K V → Type 0
  IsMap [] = Unit
  IsMap ((k, v) ∷ m) = (Assoc.get m k ≡ none) × IsMap m

  pub remove-IsMap : (m : Assoc K V) (k : K) → IsMap m → IsMap (Assoc.remove m k)
  unfolding Assoc.remove
  remove-IsMap [] k h = tt
  remove-IsMap ((j, v) ∷ m) k h = elim (Bool-cases (q.beq j k)) [
    | inl e ↦ rw e (remove-IsMap m k h.1)
    | inr e ↦ rw e (ground (arith, get-remove m k j, h.0), remove-IsMap m k h.1)
  ]

  pub insert-IsMap : (m : Assoc K V) (k : K) (v : V) → IsMap m → IsMap (Assoc.insert m k v)
  unfolding Assoc.insert
  insert-IsMap m k v h = (get-remove_self m k, remove-IsMap m k h)

  pub length-remove :
      (m : Assoc K V) (k : K) (v : V)
      → IsMap m
      → Assoc.get m k ≡ some v
      → suc (length (Assoc.remove m k)) ≡ length m
  unfolding Assoc.get Assoc.remove
  length-remove [] k v h e = cc
  length-remove ((j, w) ∷ m) k v h e =
      ground (arith, length-remove m k v h.1, remove_absent m k, q.beq_iff j k)
