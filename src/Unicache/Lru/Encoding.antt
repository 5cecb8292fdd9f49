-- ===== src/Unicache/Lru/Encoding.antt =====
-- One side of a field that is sent: `try_encode` of a cache whose items are known.
use omnipaxos_kv_project.Prelude.{
  ℕ, suc, ◌<◌, ◌≡◌, refl, sym, ap, ◌∙◌, none, some, List, [], ◌∷◌, ◌++◌, true, false, ◌==◌, ==_refl,
  length, length-append, arith,
}
use omnipaxos_kv_project.Prelude.Assoc
use omnipaxos_kv_project.Prelude.Assoc.{Assoc, Eq}
use omnipaxos_kv_project.Unicache.{encoded, not_encoded, IncrementByOne, code}
use omnipaxos_kv_project.Unicache.OneToOne.{length-remove, IsOneToOne}
use omnipaxos_kv_project.Unicache.Lru.{LruCache, LrUniCache, try_encode}
use omnipaxos_kv_project.Unicache.Lru.Contents.{IsLruCache}

module _ {K E : Type 0} ⦃q : Eq K⦄ ⦃r : Eq E⦄ (Encoder : LruCache K E) (Decoder : LruCache E K)
    (LE : IsLruCache Encoder) (LD : IsLruCache Decoder) (i : IncrementByOne E) (size : ℕ) where
  pub record IsEncoder (items : List (K × E)) (u : LrUniCache Encoder Decoder) : Type 0 where
    pub iter : Encoder.iter u.lru_cache_encoder ≡ items
    pub capacity : LE.capacity u.lru_cache_encoder ≡ size
    pub has_size : u.size ≡ size
    pub encoding : u.encoding ≡ code i (length items)

  pub encode_hit :
      (u : LrUniCache Encoder Decoder) (k : K) (e : E)
      → Assoc.get (Encoder.iter u.lru_cache_encoder) k ≡ some e
      → try_encode Encoder Decoder i u k
        ≡ some (record u { lru_cache_encoder = (Encoder.get u.lru_cache_encoder k).0 }, encoded e)
  unfolding try_encode
  encode_hit u k e known = rw (LE.get_lem u.lru_cache_encoder k, known) refl

  -- The items of the encoder after a field that it holds
  pub hit-IsEncoder :
      (u : LrUniCache Encoder Decoder) (items : List (K × E)) (k : K) (e : E)
      → IsEncoder items u
      → IsOneToOne items
      → Assoc.get items k ≡ some e
      → IsEncoder
          ((k, e) ∷ Assoc.remove items k)
          (record u { lru_cache_encoder = (Encoder.get u.lru_cache_encoder k).0 })
  hit-IsEncoder u items k e s one found =
      let enc = u.lru_cache_encoder in
      record {
        iter = LE.get_used enc k e (rw s.iter found) ∙ ap (λ l. (k, e) ∷ Assoc.remove l k) s.iter;
        capacity = LE.capacity-get enc k ∙ s.capacity;
        has_size = s.has_size;
        encoding = s.encoding ∙ ap (code i) (sym (length-remove items k e one found));
      }

  -- The encoder with a new field under the next code
  abbrev pub with_new : LrUniCache Encoder Decoder → K → ℕ → LrUniCache Encoder Decoder
  with_new u k n =
      let e = code i (suc n) in
      record u {
        lru_cache_encoder = Encoder.push (Encoder.get u.lru_cache_encoder k).0 k e;
        encoding = e;
      }

  pub encode_miss :
      (u : LrUniCache Encoder Decoder) (k : K) (items : List (K × E))
      → IsEncoder items u
      → Assoc.get items k ≡ none
      → length items < size
      → (try_encode Encoder Decoder i u k ≡ some (with_new u k (length items), not_encoded k))
        × (Encoder.iter (with_new u k (length items)).lru_cache_encoder
            ≡ (k, code i (suc (length items))) ∷ items)
  unfolding try_encode
  encode_miss u k items s absent room =
      let enc = u.lru_cache_encoder in
      let looked = (Encoder.get enc k).0 in
      let e = code i (suc (length items)) in
      let unknown : Assoc.get (Encoder.iter enc) k ≡ none = rw s.iter absent in
      let same : Encoder.iter looked ≡ items = LE.get_missed enc k unknown ∙ s.iter in
      let below : (Encoder.len looked == u.size) ≡ false =
        rw (LE.len_lem looked, same, s.has_size) (ground arith) in
      (
        rw (LE.get_lem enc k, unknown, below, s.encoding) refl,
        LE.push_room looked k e (rw same absent)
              (omega (arith, ap length same, LE.capacity-get enc k, s.capacity))
            ∙ ap (◌∷◌ (k, e)) same,
      )

  pub miss-IsEncoder :
      (u : LrUniCache Encoder Decoder) (k : K) (items : List (K × E))
      → IsEncoder items u
      → Assoc.get items k ≡ none
      → length items < size
      → IsEncoder ((k, code i (suc (length items))) ∷ items) (with_new u k (length items))
  miss-IsEncoder u k items s absent room =
      let enc = u.lru_cache_encoder in
      record {
        iter = (encode_miss u k items s absent room).1;
        capacity = LE.capacity-push (Encoder.get enc k).0 k _ ∙ LE.capacity-get enc k ∙ s.capacity;
        has_size = s.has_size;
        encoding = refl;
      }

  -- The encoder with a new field under the code of the last one
  abbrev pub with_code : LrUniCache Encoder Decoder → K → E → LrUniCache Encoder Decoder
  with_code u k e = record u {
    lru_cache_encoder = Encoder.push (Encoder.pop_lru (Encoder.get u.lru_cache_encoder k).0).0 k e;
  }

  pub encode_full :
      (u : LrUniCache Encoder Decoder) (k j : K) (e : E) (before : List (K × E))
      → IsEncoder (before ++ (j, e) ∷ []) u
      → Assoc.get (before ++ (j, e) ∷ []) k ≡ none
      → Assoc.get before k ≡ none
      → length (before ++ (j, e) ∷ []) ≡ size
      → (try_encode Encoder Decoder i u k ≡ some (with_code u k e, not_encoded k))
        × IsEncoder ((k, e) ∷ before) (with_code u k e)
  unfolding try_encode
  encode_full u k j e before s absent free full =
      let enc = u.lru_cache_encoder in
      let looked = (Encoder.get enc k).0 in
      let popped = (Encoder.pop_lru looked).0 in
      let unknown : Assoc.get (Encoder.iter enc) k ≡ none = rw s.iter absent in
      let same = LE.get_missed enc k unknown ∙ s.iter in
      let whole : (Encoder.len looked == u.size) ≡ true =
        rw (LE.len_lem looked, same, s.has_size, full) (==_refl size) in
      let (taken, left) = LE.pop_lru_lem looked before (j, e) same in
      let count : length (before ++ (j, e) ∷ []) ≡ suc (length before) =
        omega (arith, length-append before ((j, e) ∷ [])) in
      let kept = LE.capacity-pop_lru looked ∙ LE.capacity-get enc k ∙ s.capacity in
      (
        rw (LE.get_lem enc k, unknown, whole, taken) refl,
        record {
          iter =
              LE.push_room popped k e (rw left free)
                (omega (arith, ap length left, kept, full, count))
              ∙ ap (◌∷◌ (k, e)) left;
          capacity = LE.capacity-push popped k e ∙ kept;
          has_size = s.has_size;
          encoding = s.encoding ∙ ap (code i) count;
        },
      )
