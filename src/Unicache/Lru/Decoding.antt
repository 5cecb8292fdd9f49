-- ===== src/Unicache/Lru/Decoding.antt =====
-- The other side of a field that is sent: `decode` of a cache whose items are known.
use omnipaxos_kv_project.Prelude.{
  ℕ, suc, ◌<◌, ◌≡◌, refl, sym, ap, ◌∙◌, none, some, List, [], ◌∷◌, ◌++◌, true, false, ◌==◌, ==_refl,
  length, length-append, arith,
}
use omnipaxos_kv_project.Prelude.Assoc
use omnipaxos_kv_project.Prelude.Assoc.{Assoc, Eq}
use omnipaxos_kv_project.Unicache.{encoded, not_encoded, IncrementByOne, code, swapped}
use omnipaxos_kv_project.Unicache.OneToOne.{
  length-swapped, swapped-append, get-swapped, swapped-remove, length-remove, IsOneToOne,
}
use omnipaxos_kv_project.Unicache.Lru.{LruCache, LrUniCache, decode}
use omnipaxos_kv_project.Unicache.Lru.Contents.{IsLruCache}

module _ {K E : Type 0} ⦃q : Eq K⦄ ⦃r : Eq E⦄ (Encoder : LruCache K E) (Decoder : LruCache E K)
    (LD : IsLruCache Decoder) (i : IncrementByOne E) (size : ℕ) where
  pub record IsDecoder (items : List (K × E)) (w : LrUniCache Encoder Decoder) : Type 0 where
    pub iter : Decoder.iter w.lru_cache_decoder ≡ swapped items
    pub capacity : LD.capacity w.lru_cache_decoder ≡ size
    pub has_size : w.size ≡ size
    pub encoding : w.encoding ≡ code i (length items)

  -- The decoder that has read the code of a field
  abbrev pub with_read : LrUniCache Encoder Decoder → E → LrUniCache Encoder Decoder
  with_read w e = record w { lru_cache_decoder = (Decoder.get w.lru_cache_decoder e).0 }

  pub decode_hit :
      (w : LrUniCache Encoder Decoder) (items : List (K × E)) (k : K) (e : E)
      → IsDecoder items w
      → IsOneToOne items
      → Assoc.get items k ≡ some e
      → (decode Encoder Decoder i w (encoded e) ≡ some (with_read w e, k))
        × IsDecoder ((k, e) ∷ Assoc.remove items k) (with_read w e)
  unfolding decode
  decode_hit w items k e s one found =
      let dec = w.lru_cache_decoder in
      let mirrored : Assoc.get (Decoder.iter dec) e ≡ some k =
        rw s.iter (get-swapped items k e one found) in
      (
        rw (LD.get_lem dec e, mirrored) refl,
        record {
          iter =
              LD.get_used dec e k mirrored
              ∙ ap (λ l. (e, k) ∷ Assoc.remove l e) s.iter
              ∙ ap (◌∷◌ (e, k)) (sym (swapped-remove items k e one found));
          capacity = LD.capacity-get dec e ∙ s.capacity;
          has_size = s.has_size;
          encoding = s.encoding ∙ ap (code i) (sym (length-remove items k e one found));
        },
      )

  -- The decoder with a new field under the next code
  abbrev pub with_next : LrUniCache Encoder Decoder → K → ℕ → LrUniCache Encoder Decoder
  with_next w k n =
      let e = code i (suc n) in
      record w { lru_cache_decoder = Decoder.push w.lru_cache_decoder e k; encoding = e }

  pub decode_miss :
      (w : LrUniCache Encoder Decoder) (k : K) (items : List (K × E))
      → IsDecoder items w
      → Assoc.get (swapped items) (code i (suc (length items))) ≡ none
      → length items < size
      → (decode Encoder Decoder i w (not_encoded k) ≡ some (with_next w k (length items), k))
        × IsDecoder ((k, code i (suc (length items))) ∷ items) (with_next w k (length items))
  unfolding decode
  decode_miss w k items s free room =
      let dec = w.lru_cache_decoder in
      let e = code i (suc (length items)) in
      let count = ap length s.iter ∙ length-swapped items in
      let below : (Decoder.len dec == w.size) ≡ false =
        rw (LD.len_lem dec, count, s.has_size) (ground arith) in
      (
        rw (below, s.encoding) refl,
        record {
          iter =
              LD.push_room dec e k (rw s.iter free) (omega (arith, count, s.capacity))
              ∙ ap (◌∷◌ (e, k)) s.iter;
          capacity = LD.capacity-push dec e k ∙ s.capacity;
          has_size = s.has_size;
          encoding = refl;
        },
      )

  -- The decoder with a new field under the code of the last one
  abbrev pub with_last : LrUniCache Encoder Decoder → K → E → LrUniCache Encoder Decoder
  with_last w k e = record w {
    lru_cache_decoder = Decoder.push (Decoder.pop_lru w.lru_cache_decoder).0 e k;
  }

  pub decode_full :
      (w : LrUniCache Encoder Decoder) (k j : K) (e : E) (before : List (K × E))
      → IsDecoder (before ++ (j, e) ∷ []) w
      → Assoc.get (swapped before) e ≡ none
      → length (before ++ (j, e) ∷ []) ≡ size
      → (decode Encoder Decoder i w (not_encoded k) ≡ some (with_last w k e, k))
        × IsDecoder ((k, e) ∷ before) (with_last w k e)
  unfolding decode
  decode_full w k j e before s free full =
      let dec = w.lru_cache_decoder in
      let popped = (Decoder.pop_lru dec).0 in
      let items = before ++ (j, e) ∷ [] in
      let whole : (Decoder.len dec == w.size) ≡ true =
        rw (LD.len_lem dec, s.iter, length-swapped items, s.has_size, full) (==_refl size) in
      let (taken, left) =
        LD.pop_lru_lem dec (swapped before) (e, j) (s.iter ∙ swapped-append before ((j, e) ∷ [])) in
      let count : length (before ++ (j, e) ∷ []) ≡ suc (length before) =
        omega (arith, length-append before ((j, e) ∷ [])) in
      let kept = LD.capacity-pop_lru dec ∙ s.capacity in
      (
        rw (whole, taken) refl,
        record {
          iter =
              LD.push_room popped e k (rw left free)
                (omega (arith, ap length left, length-swapped before, kept, full, count))
              ∙ ap (◌∷◌ (e, k)) left;
          capacity = LD.capacity-push popped e k ∙ kept;
          has_size = s.has_size;
          encoding = s.encoding ∙ ap (code i) count;
        },
      )
