-- ===== src/Unicache/Lfu/Serializing.antt =====
-- The serialization of a bin, of crates/custom-paxos/omnipaxos/src/unicache/lfu/serialization.rs.
use omnipaxos_kv_project.Prelude.{
  ℕ, ◌≡◌, refl, sym, ap, subst, ◌∙◌, Option, List, [], ◌∷◌, ◌++◌, append_assoc, append-nil, false,
  arith,
}
use omnipaxos_kv_project.Prelude.Assoc
use omnipaxos_kv_project.Prelude.Assoc.{Eq}
use omnipaxos_kv_project.Unicache.{unwrap_or}
use omnipaxos_kv_project.Unicache.Lfu.{LinkedHashSet}
use omnipaxos_kv_project.Unicache.Lfu.Sets.{has, without, has-append, IsDistinct, IsLinkedHashSet}

module _ {K : Type 0} (H : LinkedHashSet K) where
  insert_all : H.Set → List K → H.Set
  insert_all s [] = s
  insert_all s (k ∷ ks) = insert_all (H.insert s k) ks

  -- The sequence of the elements
  abbrev pub serialize : H.Set → List K
  serialize s = H.iter s

  -- `visit_seq`: the elements, with the hint of the format on how many there are
  unfoldable pub deserialize : Option ℕ → List K → H.Set
  unfolding insert_all
  deserialize hint items = insert_all (H.with_capacity (unwrap_or hint 255)) items

module _ {K : Type 0} ⦃q : Eq K⦄ where
  without_absent : (l : List K) (k : K) → has l k ≡ false → without l k ≡ l
  without_absent [] k h = refl
  without_absent (x ∷ xs) k h = ground (arith, without_absent xs k)

  middle_absent : (l m : List K) (k : K) → IsDistinct (l ++ k ∷ m) → has l k ≡ false
  middle_absent [] m k d = refl
  middle_absent (x ∷ xs) m k d = ground (
    arith,
    middle_absent xs m k d.1,
    has-append xs (k ∷ m) x,
    d.0,
    Assoc.beq_refl k,
    q.beq_iff x k,
    q.beq_iff k x,
  )

  insert_all-append :
      (H : LinkedHashSet K) (L : IsLinkedHashSet H) (s : H.Set) (before l : List K)
      → H.iter s ≡ before
      → IsDistinct (before ++ l)
      → H.iter (insert_all H s l) ≡ before ++ l
  unfolding insert_all
  insert_all-append H L s before [] held distinct = held ∙ sym (append-nil before)
  insert_all-append H L s before (k ∷ l) held distinct =
      let grouped = append_assoc before (k ∷ []) l in
      let added : H.iter (H.insert s k) ≡ before ++ k ∷ [] =
        L.insert_lem s k
        ∙ rw held
            (ap (λ m. m ++ k ∷ []) (without_absent before k (middle_absent before l k distinct))) in
      insert_all-append H L (H.insert s k) (before ++ k ∷ []) l added
        (subst IsDistinct (sym grouped) distinct)
      ∙ grouped

  -- Whatever the hint of the format on the number of elements is, what is deserialized of a serialized
  -- bin has the same keys in the same order.
  pub iter-deserialize :
      (H : LinkedHashSet K) (L : IsLinkedHashSet H) (s : H.Set) (hint : Option ℕ)
      → H.iter (deserialize H hint (serialize H s)) ≡ H.iter s
  unfolding deserialize
  iter-deserialize H L s hint =
      insert_all-append H L (H.with_capacity (unwrap_or hint 255)) [] (H.iter s)
        (L.with_capacity_lem (unwrap_or hint 255)) (L.distinct s)
