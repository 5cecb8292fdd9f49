-- ===== src/Tests/Frequency.antt =====
-- A set like that of the crate linked_hash_set, as a list, and the theorems on the caches that count
-- how often a field is used at it.
use omnipaxos_kv_project.Prelude.{
  ◌>>=◌, ℕ, ◌≡◌, refl, ap, Option, none, some, List, [], ◌∷◌, ◌++◌, Bool, true, false, Bool-cases,
  inl, inr, arith,
}
use omnipaxos_kv_project.Prelude.Assoc
use omnipaxos_kv_project.Prelude.Assoc.{Eq, nat_eq}
use omnipaxos_kv_project.Unicache.{MaybeEncoded, FieldCache, encode_all, decode_all}
use omnipaxos_kv_project.Unicache.Lfu
use omnipaxos_kv_project.Unicache.Lfu.{LinkedHashSet, LfuCache, ValueCounter}
use omnipaxos_kv_project.Unicache.Lfu.Sets.{
  has, without, has-without, has-append, IsDistinct, IsLinkedHashSet,
}
use omnipaxos_kv_project.Unicache.Lfu.Fields
use omnipaxos_kv_project.Unicache.Lfu.Fields.{LfUniCache, clone, field_cache}
use omnipaxos_kv_project.Unicache.Lfu.RoundTrip.{decode_all-encode_all_fields}
use omnipaxos_kv_project.Unicache.Lfu.Cloning.{clone_forgets_uses}
use omnipaxos_kv_project.Tests.Caching.{bytes, bytes-AreDistinct}

abbrev is_nil : {K : Type 0} → List K → Bool
is_nil [] = true
is_nil (x ∷ xs) = false

abbrev Listed : (K : Type 0) ⦃q : Eq K⦄ → Type 0
Listed K = (l : List K) × IsDistinct l

module _ {K : Type 0} ⦃q : Eq K⦄ where
  without-IsDistinct : (l : List K) (k : K) → IsDistinct l → IsDistinct (without l k)
  without-IsDistinct [] k d = tt
  without-IsDistinct (x ∷ xs) k d = elim (Bool-cases (q.beq x k)) [
    | inl e ↦ rw e (without-IsDistinct xs k d.1)
    | inr e ↦ rw e (ground (arith, has-without xs k x, d.0), without-IsDistinct xs k d.1)
  ]

  snoc-IsDistinct : (l : List K) (k : K) → has l k ≡ false → IsDistinct l → IsDistinct (l ++ k ∷ [])
  snoc-IsDistinct [] k h d = (refl, tt)
  snoc-IsDistinct (x ∷ xs) k h d = (
    ground (arith, has-append xs (k ∷ []) x, d.0, h, q.beq_iff x k, q.beq_iff k x),
    snoc-IsDistinct xs k (ground (arith, h)) d.1,
  )

  added-IsDistinct : (l : List K) (k : K) → IsDistinct l → IsDistinct (without l k ++ k ∷ [])
  added-IsDistinct l k d =
      snoc-IsDistinct (without l k) k (ground (arith, has-without l k k, Assoc.beq_refl k))
        (without-IsDistinct l k d)

  abbrev pop : Listed K → Option (K × Listed K)
  pop ([], d) = none
  pop (x ∷ xs, d) = some (x, (xs, d.1))

  abbrev list_set : LinkedHashSet K
  list_set = record {
    Set = Listed K;
    default = ([], tt);
    with_capacity = λ n. ([], tt);
    insert = λ s k. (without s.0 k ++ k ∷ [], added-IsDistinct s.0 k s.1);
    remove = λ s k. (without s.0 k, without-IsDistinct s.0 k s.1);
    pop_front = pop;
    is_empty = λ s. is_nil s.0;
    iter = λ s. s.0;
  }

  pop_lem :
      (s : Listed K) (k : K) (rest : List K)
      → s.0 ≡ k ∷ rest
      → (s' : Listed K) × (pop s ≡ some (k, s')) × (s'.0 ≡ rest)
  pop_lem ([], d) k rest e = cc
  pop_lem (x ∷ xs, d) k rest e =
      let first : x ≡ k = cc in ((xs, d.1), ap (λ y. some (y, (xs, d.1))) first, cc)

  list_set-IsLinkedHashSet : IsLinkedHashSet list_set
  list_set-IsLinkedHashSet = record {
    default_lem = refl;
    with_capacity_lem = λ n. refl;
    insert_lem = λ s k. refl;
    remove_lem = λ s k. refl;
    pop_front_lem = pop_lem;
    empty = λ s e. rw e refl;
    not_empty = λ s k rest e. rw e refl;
    distinct = λ s. s.1;
  }

abbrev Counted : Type 0
Counted = LfUniCache {K = ℕ} {E = ℕ} list_set list_set

abbrev empty_cache : LfuCache (list_set {K = ℕ}) ℕ
empty_cache = record { values = []; frequency_bin = []; capacity = 2; min_frequency = 0 }

abbrev fresh : Counted
fresh = record {
  lfu_cache_encoder = empty_cache;
  lfu_cache_decoder = empty_cache;
  encoding = 0;
  size = 2;
}

abbrev cache : FieldCache Counted ℕ ℕ
cache = field_cache list_set list_set bytes

decode_all-encode_all_fields_example :
    (u : Counted) × (messages : List (MaybeEncoded ℕ ℕ)) × (w : Counted) × (encode_all cache fresh
        (5 ∷ 6 ∷ 5 ∷ 7 ∷ 6 ∷ [])
      ≡ some (u, messages))
    × (decode_all cache fresh messages ≡ some (w, 5 ∷ 6 ∷ 5 ∷ 7 ∷ 6 ∷ []))
unfolding Fields.new Lfu.with_capacity
decode_all-encode_all_fields_example =
    decode_all-encode_all_fields list_set list_set list_set-IsLinkedHashSet list_set-IsLinkedHashSet
      bytes 2 fresh (5 ∷ 6 ∷ 5 ∷ 7 ∷ 6 ∷ []) bytes-AreDistinct refl

-- An encoder that has sent the fields 5, 6 and 5 again
abbrev counted : Counted
counted = record fresh {
  lfu_cache_encoder = record {
    values = (5, record { value = 1; count = 2 }) ∷ (6, record { value = 2; count = 1 }) ∷ [];
    frequency_bin = (2, (5 ∷ [], (refl, tt))) ∷ (1, (6 ∷ [], (refl, tt))) ∷ [];
    capacity = 2;
    min_frequency = 1;
  };
  encoding = 2;
}

clone_forgets_uses_example :
    (w : Counted) × (clone list_set list_set (λ l. l) counted ≡ some w)
    × ((k e : ℕ)
        → Assoc.get ((5, 1) ∷ (6, 2) ∷ []) k ≡ some e
        → Assoc.get w.lfu_cache_decoder.values e ≡ some (record { value = k; count = 1 }))
unfolding Assoc.get
clone_forgets_uses_example =
    clone_forgets_uses list_set list_set list_set-IsLinkedHashSet (λ l. l) counted (omega arith)
      (refl, refl, (refl, refl, tt)) (omega arith)

-- The encoder evicts the field 6, which was used once, and its clone the field 5, which comes first:
-- the new field 7, sent twice, is decoded to 7 and then to 6.
decoded_by_clone :
    (do
      w ← clone list_set list_set (λ l. l) counted
      (u, messages) ← encode_all cache counted (7 ∷ 7 ∷ [])
      (w', fields) ← decode_all cache w messages
      some fields)
    ≡ some (7 ∷ 6 ∷ [])
unfolding clone encode_all decode_all Lfu.with_capacity Lfu.set Assoc.get Assoc.insert
    Fields.try_encode Lfu.get Lfu.evict_and_return_value Fields.decode Lfu.evict_and_return_key
decoded_by_clone = refl
