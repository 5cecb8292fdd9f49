-- ===== src/Unicache/Lfu/Synced.antt =====
-- An encoder and a decoder with the same items and uses, and one field that is sent.
use omnipaxos_kv_project.Prelude.{
  ℕ, suc, ◌<◌, ◌≡◌, refl, sym, ap, subst, ◌∙◌, inl, inr, none, some, [], ◌∷◌, All, All-mono, false,
  Bool-cases, ◌&&◌, ◌==◌, length, arith, if◌then◌else◌,
}
use omnipaxos_kv_project.Prelude.Assoc
use omnipaxos_kv_project.Prelude.Assoc.{Assoc, Eq, nat_eq, get-insert, get-remove}
use omnipaxos_kv_project.Prelude.Words.{add64}
use omnipaxos_kv_project.Unicache.{MaybeEncoded, encoded, not_encoded, IncrementByOne, code}
use omnipaxos_kv_project.Unicache.Codes.{AreDistinct, IsCode}
use omnipaxos_kv_project.Unicache.OneToOne.{remove_absent, All-remove, All-get}
use omnipaxos_kv_project.Unicache.Lfu.{LinkedHashSet, LfuCache, ValueCounter, inc, moved, inserted}
use omnipaxos_kv_project.Unicache.Lfu.Bins.{IsValid, bin_of, IsBinned}
use omnipaxos_kv_project.Unicache.Lfu.Sets.{IsLinkedHashSet, IsMap, length-remove}
use omnipaxos_kv_project.Unicache.Lfu.Using.{
  moved-IsValid, get_hit, get_miss, set_new, inserted-IsValid,
}
use omnipaxos_kv_project.Unicache.Lfu.Pairs.{under, mirrored, length-mirrored, get-mirrored}
use omnipaxos_kv_project.Unicache.Lfu.Mirror.{Alike, left-Match, is_empty-Match}
use omnipaxos_kv_project.Unicache.Lfu.StaysAlike.{moved-Alike, inserted-Alike}
use omnipaxos_kv_project.Unicache.Lfu.Fields.{LfUniCache, try_encode, decode}

-- The next code is not taken.
next-absent :
    {K E : Type 0} ⦃r : Eq E⦄ (i : IncrementByOne E) (size n : ℕ) (m : Assoc K (ValueCounter E))
    → AreDistinct i size
    → n < size
    → All (λ item. IsCode i n item.1.value) m
    → Assoc.get (mirrored m) (code i (suc n)) ≡ none
unfolding Assoc.get
next-absent i size n [] distinct room codes = refl
next-absent ⦃r⦄ i size n ((k, x) ∷ l) distinct room codes =
    let (m, below, made) = codes.0 in
    elim (Bool-cases (r.beq x.value (code i (suc n)))) [
      | inl same ↦
          absurd (distinct m n below room (sym made ∙ (r.beq_iff x.value (code i (suc n))).0 same))
      | inr other ↦ rw other (next-absent i size n l distinct room codes.1)
    ]

-- The codes of the items after one is put among them
put-codes :
    {K E : Type 0} ⦃q : Eq K⦄ (i : IncrementByOne E) (m : Assoc K (ValueCounter E)) (k : K) (e : E)
    (count n : ℕ)
    → suc (length (Assoc.remove m k)) ≡ n
    → IsCode i n e
    → All (λ item. IsCode i n item.1.value) m
    → All
        (λ item. IsCode i (suc (length (Assoc.remove m k))) item.1.value)
        ((k, under e count) ∷ Assoc.remove m k)
put-codes i m k e count n same made codes =
    subst (λ n'. All (λ item. IsCode i n' item.1.value) ((k, under e count) ∷ Assoc.remove m k))
      (sym same) (made, All-remove (λ item. IsCode i n item.1.value) m k codes)

module _ {K E : Type 0} ⦃q : Eq K⦄ ⦃r : Eq E⦄ (H : LinkedHashSet K) (G : LinkedHashSet E)
    (LH : IsLinkedHashSet H) (LG : IsLinkedHashSet G) (i : IncrementByOne E) (size : ℕ) where
  -- An encoder and a decoder that hold the same items, with the same uses
  pub record InSync (u w : LfUniCache H G) : Type 0 where
    pub alike : Alike H G u.lfu_cache_encoder w.lfu_cache_decoder
    pub encoder : IsValid H u.lfu_cache_encoder
    pub decoder : IsValid G w.lfu_cache_decoder
    pub min : w.lfu_cache_decoder.min_frequency ≡ u.lfu_cache_encoder.min_frequency
    pub encoder_capacity : u.lfu_cache_encoder.capacity ≡ size
    pub decoder_capacity : w.lfu_cache_decoder.capacity ≡ size
    pub encoder_size : u.size ≡ size
    pub decoder_size : w.size ≡ size
    pub encoder_encoding : u.encoding ≡ code i (length u.lfu_cache_encoder.values)
    pub decoder_encoding : w.encoding ≡ code i (length u.lfu_cache_encoder.values)
    pub codes :
        All
          (λ item. IsCode i (length u.lfu_cache_encoder.values) item.1.value)
          u.lfu_cache_encoder.values

  -- What the two are like when a field is to be put in both
  pub record HasRoom (u w : LfUniCache H G) (c : LfuCache H E) (d : LfuCache G K) : Type 0 where
    pub alike : Alike H G c d
    pub encoder : IsBinned H c
    pub decoder : IsBinned G d
    pub encoder_map : IsMap c.values
    pub decoder_map : IsMap d.values
    pub encoder_capacity : c.capacity ≡ size
    pub decoder_capacity : d.capacity ≡ size
    pub encoder_size : u.size ≡ size
    pub decoder_size : w.size ≡ size
    pub room : length c.values < size
    pub codes : All (λ item. IsCode i (suc (length c.values)) item.1.value) c.values

  -- A new field in both, under a code that neither has
  pub inserted-InSync :
      (u w : LfUniCache H G) (c : LfuCache H E) (d : LfuCache G K) (k : K) (e f g : E)
      → HasRoom u w c d
      → Assoc.get c.values k ≡ none
      → Assoc.get d.values e ≡ none
      → IsCode i (suc (length c.values)) e
      → f ≡ code i (suc (length c.values))
      → g ≡ code i (suc (length c.values))
      → InSync
          (record u { lfu_cache_encoder = inserted H c k e; encoding = f })
          (record w { lfu_cache_decoder = inserted G d e k; encoding = g })
  unfolding Assoc.insert
  inserted-InSync u w c d k e f g a absent free made last last' =
      let room_c : length c.values < c.capacity = omega (arith, a.room, a.encoder_capacity) in
      let count = ap length a.alike.values ∙ length-mirrored c.values in
      let room_d : length d.values < d.capacity =
        omega (arith, a.room, a.decoder_capacity, count) in
      let same = ap suc (ap length (remove_absent c.values k absent)) in
      record {
        alike = inserted-Alike H G LH LG c d k e a.alike absent free;
        encoder = inserted-IsValid H LH c k e a.encoder a.encoder_map absent room_c;
        decoder = inserted-IsValid G LG d e k a.decoder a.decoder_map free room_d;
        min = refl;
        encoder_capacity = a.encoder_capacity;
        decoder_capacity = a.decoder_capacity;
        encoder_size = a.encoder_size;
        decoder_size = a.decoder_size;
        encoder_encoding = last ∙ ap (code i) (sym same);
        decoder_encoding = last' ∙ ap (code i) (sym same);
        codes = put-codes i c.values k e 1 (suc (length c.values)) same made a.codes;
      }

  abbrev pub Through : LfUniCache H G → LfUniCache H G → K → Type 0
  Through u w k =
      (u' : LfUniCache H G) × (m : MaybeEncoded K E) × (w' : LfUniCache H G) × (try_encode H G i u k
        ≡ some (u', m))
      × (decode H G i w m ≡ some (w', k))
      × InSync u' w'

  pub hit :
      (u w : LfUniCache H G) (k : K) (e : E) (n : ℕ)
      → InSync u w
      → Assoc.get u.lfu_cache_encoder.values k ≡ some (under e n)
      → Through u w k
  unfolding try_encode decode Assoc.insert
  hit u w k e n a found =
      let c = u.lfu_cache_encoder in
      let d = w.lfu_cache_decoder in
      let found' : Assoc.get d.values e ≡ some (under k n) =
        rw a.alike.values (get-mirrored c.values k e n a.alike.paired found) in
      let (s, at_n) = bin_of H LH c a.encoder k (under e n) found in
      let (t, at_n') = bin_of G LG d a.decoder e (under k n) found' in
      let left = left-Match H G LH LG c d k e n s t a.alike found at_n at_n' in
      let emptied = is_empty-Match H G LH LG c.values (H.remove s k) (G.remove t e) left in
      let same = length-remove c.values k (under e n) a.encoder.is_map found in
      (
        record u { lfu_cache_encoder = moved H c k (under e n) s },
        encoded e,
        record w { lfu_cache_decoder = moved G d e (under k n) t },
        rw (get_hit H LH c k (under e n) s found at_n) refl,
        rw (get_hit G LG d e (under k n) t found' at_n') refl,
        record {
          alike = moved-Alike H G LH LG c d k e n s t a.alike found at_n at_n';
          encoder = moved-IsValid H LH c a.encoder k (under e n) s found at_n;
          decoder = moved-IsValid G LG d a.decoder e (under k n) t found' at_n';
          min =
              ap (λ m. if n == m && G.is_empty (G.remove t e) then add64 m 1 else m) a.min
              ∙ ap
                  (λ b.
                    if n == c.min_frequency && b then add64 c.min_frequency 1 else c.min_frequency)
                  (sym emptied);
          encoder_capacity = a.encoder_capacity;
          decoder_capacity = a.decoder_capacity;
          encoder_size = a.encoder_size;
          decoder_size = a.decoder_size;
          encoder_encoding = a.encoder_encoding ∙ ap (code i) (sym same);
          decoder_encoding = a.decoder_encoding ∙ ap (code i) (sym same);
          codes =
              put-codes i c.values k e (inc (under e n)).count (length c.values) same
                (All-get (λ x. IsCode i (length c.values) x.value) c.values k (under e n) a.codes
                  found)
                a.codes;
        },
      )

  pub miss_new :
      (u w : LfUniCache H G) (k : K)
      → AreDistinct i size
      → InSync u w
      → Assoc.get u.lfu_cache_encoder.values k ≡ none
      → length u.lfu_cache_encoder.values < size
      → Through u w k
  unfolding try_encode decode
  miss_new u w k distinct a absent room =
      let c = u.lfu_cache_encoder in
      let d = w.lfu_cache_decoder in
      let n = length c.values in
      let e = code i (suc n) in
      let count : length d.values ≡ n = ap length a.alike.values ∙ length-mirrored c.values in
      let free : Assoc.get d.values e ≡ none =
        ap (λ m. Assoc.get m e) a.alike.values
        ∙ next-absent i size n c.values distinct room a.codes in
      let below : (n == u.size) ≡ false = rw a.encoder_size (ground arith) in
      let below' : (length d.values == w.size) ≡ false =
        rw (count, a.decoder_size) (ground arith) in
      let room_c : n < c.capacity = rw a.encoder_capacity room in
      let room_d : length d.values < d.capacity = rw (count, a.decoder_capacity) room in
      (
        record u { lfu_cache_encoder = inserted H c k e; encoding = e },
        not_encoded k,
        record w { lfu_cache_decoder = inserted G d e k; encoding = e },
        rw (get_miss H LH c k absent, below, a.encoder_encoding, set_new H LH c k e absent room_c)
            refl,
        rw (below', a.decoder_encoding, set_new G LG d e k free room_d) refl,
        inserted-InSync u w c d k e e e
            (record {
              alike = a.alike;
              encoder = a.encoder.binned;
              decoder = a.decoder.binned;
              encoder_map = a.encoder.is_map;
              decoder_map = a.decoder.is_map;
              encoder_capacity = a.encoder_capacity;
              decoder_capacity = a.decoder_capacity;
              encoder_size = a.encoder_size;
              decoder_size = a.decoder_size;
              room = room;
              codes = All-mono _ _ c.values (λ item h. (h.0, omega (arith, h.1), h.2)) a.codes;
            })
            absent free (n, omega arith, refl) refl refl,
      )
