-- ===== src/Unicache/Lru/Serializing.antt =====
-- What is read back of a cache that was serialized, and what is lost by it.
use omnipaxos_kv_project.Prelude.{
  ◌⊎◌, inl, inr, ℕ, suc, ◌≤◌, ◌≡◌, refl, sym, ap, subst, ◌∙◌, Option, none, some, List, [], ◌∷◌,
  ◌++◌, length, arith,
}
use omnipaxos_kv_project.Prelude.Assoc.{Eq}
use omnipaxos_kv_project.Unicache.{swapped, unwrap_or}
use omnipaxos_kv_project.Unicache.OneToOne.{
  IsOneToOne, length-swapped, swapped-append, swapped-swapped, swapped-IsOneToOne,
}
use omnipaxos_kv_project.Unicache.Lru.{
  LruCache, LrUniCache, rev, push_all, serialize, deserialize, serialize_cache, deserialize_cache,
}
use omnipaxos_kv_project.Unicache.Lru.Contents.{IsLruCache}
use omnipaxos_kv_project.Unicache.Lru.Following.{push_all-rev}

length_cases :
    {A : Type 0} (l : List A) → ((l ≡ []) × (length l ≡ 0)) ⊎ ((n : ℕ) × (length l ≡ suc n))
length_cases [] = inl (refl, refl)
length_cases (x ∷ l) = inr (length l, refl)

swapped-rev : {K E : Type 0} (l : List (K × E)) → swapped (rev l) ≡ rev (swapped l)
swapped-rev [] = refl
swapped-rev ((k, e) ∷ l) =
    swapped-append (rev l) ((k, e) ∷ []) ∙ ap (λ m. m ++ (e, k) ∷ []) (swapped-rev l)

-- Where the items of a cache are one to one, and the hint of the format leaves room for them: what
-- is deserialized of the serialized cache has the same items in the same order. It has the capacity
-- of the hint, or 255 without one, and not that of the cache.
pub deserialize-serialize :
    {K V : Type 0} ⦃q : Eq K⦄ ⦃r : Eq V⦄ (L : LruCache K V) (LL : IsLruCache L) (c : L.Cache)
    (hint : Option ℕ) (n : ℕ)
    → IsOneToOne (L.iter c)
    → unwrap_or hint 255 ≡ suc n
    → length (L.iter c) ≤ suc n
    → (c' : L.Cache) × (deserialize L hint (serialize L c) ≡ some c')
      × (L.iter c' ≡ L.iter c)
      × (LL.capacity c' ≡ suc n)
unfolding deserialize
deserialize-serialize L LL c hint n one hinted room =
    let l = L.iter c in
    let (items, capacity) =
      push_all-rev L LL (L.new (suc n)) (swapped l) (LL.iter-new (suc n))
        (omega (arith, length-swapped l, LL.capacity-new (suc n), room))
        (swapped-IsOneToOne l one) in
    let order : swapped (rev (swapped l)) ≡ rev l =
      swapped-rev (swapped l) ∙ ap rev (swapped-swapped l) in
    (
      push_all L (L.new (suc n)) (rev l),
      rw hinted refl,
      ap (λ m. L.iter (push_all L (L.new (suc n)) m)) (sym order) ∙ items ∙ swapped-swapped l,
      ap (λ m. LL.capacity (push_all L (L.new (suc n)) m)) (sym order)
          ∙ capacity
          ∙ LL.capacity-new (suc n),
    )

module _ {K E : Type 0} ⦃q : Eq K⦄ ⦃r : Eq E⦄ (Encoder : LruCache K E) (Decoder : LruCache E K)
    (LE : IsLruCache Encoder) (LD : IsLruCache Decoder) where
  -- The whole cache comes back, with the same fields in the same order on both sides, but each side
  -- has room for no more than it holds.
  pub record IsRestored (u w : LrUniCache Encoder Decoder) : Type 0 where
    pub encoder : Encoder.iter w.lru_cache_encoder ≡ Encoder.iter u.lru_cache_encoder
    pub decoder : Decoder.iter w.lru_cache_decoder ≡ Decoder.iter u.lru_cache_decoder
    pub encoder_capacity :
        LE.capacity w.lru_cache_encoder ≡ length (Encoder.iter u.lru_cache_encoder)
    pub decoder_capacity :
        LD.capacity w.lru_cache_decoder ≡ length (Decoder.iter u.lru_cache_decoder)
    pub encoding : w.encoding ≡ u.encoding
    pub has_size : w.size ≡ u.size

  -- The deserialized cache, where the format knows the lengths of both sequences
  abbrev pub restored : LrUniCache Encoder Decoder → Option (LrUniCache Encoder Decoder)
  restored u =
      deserialize_cache Encoder Decoder (some (length (Encoder.iter u.lru_cache_encoder)))
        (some (length (Decoder.iter u.lru_cache_decoder))) (serialize_cache Encoder Decoder u)

  restored-both :
      (u : LrUniCache Encoder Decoder) (c : Encoder.Cache) (d : Decoder.Cache)
      → deserialize Encoder
          (some (length (Encoder.iter u.lru_cache_encoder)))
          (serialize Encoder u.lru_cache_encoder)
        ≡ some c
      → deserialize Decoder
          (some (length (Decoder.iter u.lru_cache_decoder)))
          (serialize Decoder u.lru_cache_decoder)
        ≡ some d
      → restored u ≡ some (record u { lru_cache_encoder = c; lru_cache_decoder = d })
  unfolding deserialize_cache
  restored-both u c d there there' = rw (there, there') refl

  -- Where the fields and codes of each side are one to one, and the format gives the exact number of
  -- items as the hint: a cache that is serialized and deserialized panics if its encoder or its
  -- decoder is empty, and otherwise comes back with the same items in the same order, the same code
  -- and the same size, but with room on each side for no more items than it has.
  pub restored-cases :
      (u : LrUniCache Encoder Decoder)
      → IsOneToOne (Encoder.iter u.lru_cache_encoder)
      → IsOneToOne (Decoder.iter u.lru_cache_decoder)
      → (((Encoder.iter u.lru_cache_encoder ≡ []) ⊎ (Decoder.iter u.lru_cache_decoder ≡ []))
          × (restored u ≡ none))
        ⊎ ((w : LrUniCache Encoder Decoder) × (restored u ≡ some w) × IsRestored u w)
  unfolding deserialize_cache
  restored-cases u one one' = elim (length_cases (Encoder.iter u.lru_cache_encoder)) [
    | inl (empty, zero_long) ↦ inl (inl empty, rw zero_long (unfold deserialize in refl))
    | inr (n, long) ↦
        let (c, there, items, room) =
          deserialize-serialize Encoder LE u.lru_cache_encoder (some (suc n)) n one refl
            (omega (arith, long)) in
        elim (length_cases (Decoder.iter u.lru_cache_decoder)) [
          | inl (empty, zero_long) ↦
              inl (inr empty, rw (long, there, zero_long) (unfold deserialize in refl))
          | inr (m, long') ↦
              let (d, there', items', room') =
                deserialize-serialize Decoder LD u.lru_cache_decoder (some (suc m)) m one' refl
                  (omega (arith, long')) in
              inr (
                record u { lru_cache_encoder = c; lru_cache_decoder = d },
                restored-both u c d
                    (subst
                      (λ l.
                        deserialize Encoder (some l) (serialize Encoder u.lru_cache_encoder)
                        ≡ some c)
                      (sym long) there)
                    (subst
                      (λ l.
                        deserialize Decoder (some l) (serialize Decoder u.lru_cache_decoder)
                        ≡ some d)
                      (sym long') there'),
                record {
                  encoder = items;
                  decoder = items';
                  encoder_capacity = room ∙ sym long;
                  decoder_capacity = room' ∙ sym long';
                  encoding = refl;
                  has_size = refl;
                },
              )
        ]
  ]
