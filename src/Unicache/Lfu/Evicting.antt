-- ===== src/Unicache/Lfu/Evicting.antt =====
-- A field that is new to a full encoder and decoder: in both the least used one leaves, and they
-- stay in step.
use omnipaxos_kv_project.Prelude.{
  ℕ, suc, ◌<◌, ◌≡◌, refl, sym, ap, subst, ◌∙◌, none, some, some-injective, true, ◌==◌, ==_refl, All,
  length, arith,
}
use omnipaxos_kv_project.Prelude.Assoc
use omnipaxos_kv_project.Prelude.Assoc.{Eq, nat_eq, get-remove}
use omnipaxos_kv_project.Unicache.{not_encoded, IncrementByOne, code}
use omnipaxos_kv_project.Unicache.Codes.{IsCode}
use omnipaxos_kv_project.Unicache.OneToOne.{get-remove_self, All-remove, All-get}
use omnipaxos_kv_project.Unicache.Lfu.{
  LinkedHashSet, LfuCache, ValueCounter, evicted, inserted, evict_and_return_key,
  evict_and_return_value,
}
use omnipaxos_kv_project.Unicache.Lfu.Bins.{IsValid, IsBinned}
use omnipaxos_kv_project.Unicache.Lfu.Sets.{IsLinkedHashSet, remove-IsMap}
use omnipaxos_kv_project.Unicache.Lfu.Using.{
  get_miss, set_new, front_counted, evicted-binned, evicted_key, evicted_value, evicted_room,
}
use omnipaxos_kv_project.Unicache.Lfu.Pairs.{under, length-mirrored}
use omnipaxos_kv_project.Unicache.Lfu.Mirror.{Alike, front-Match}
use omnipaxos_kv_project.Unicache.Lfu.StaysAlike.{evicted-Alike}
use omnipaxos_kv_project.Unicache.Lfu.Fields.{LfUniCache, try_encode, decode}
use omnipaxos_kv_project.Unicache.Lfu.Synced.{InSync, Through, inserted-InSync}

module _ {K E : Type 0} ⦃q : Eq K⦄ ⦃r : Eq E⦄ (H : LinkedHashSet K) (G : LinkedHashSet E)
    (LH : IsLinkedHashSet H) (LG : IsLinkedHashSet G) where
  -- The least used key of the encoder leaves it, and its value the decoder.
  record LeastLeave (c : LfuCache H E) (d : LfuCache G K) : Type 0 where
    front : K
    value : E
    count : ℕ
    encoder_left : H.Set
    decoder_left : G.Set
    found : Assoc.get c.values front ≡ some (under value count)
    taken : evict_and_return_value H c ≡ some ((evicted H c (front, encoder_left)).0, some value)
    read : evict_and_return_key G d ≡ some ((evicted G d (value, decoder_left)).0, some value)
    encoder : IsBinned H (evicted H c (front, encoder_left)).0
    decoder : IsBinned G (evicted G d (value, decoder_left)).0
    alike : Alike H G (evicted H c (front, encoder_left)).0 (evicted G d (value, decoder_left)).0
    encoder_room : suc (length (Assoc.remove c.values front)) ≡ length c.values
    decoder_room : suc (length (Assoc.remove d.values value)) ≡ length d.values

  least_leave :
      (c : LfuCache H E) (d : LfuCache G K) (j : K) (y : ValueCounter E)
      → Alike H G c d
      → IsValid H c
      → IsValid G d
      → d.min_frequency ≡ c.min_frequency
      → Assoc.get c.values j ≡ some y
      → LeastLeave c d
  least_leave c d j y a v v' same there =
      let (s, front, rest, at_min, filled) = v.least j y there in
      let (s', popped, left) = LH.pop_front_lem s front rest filled in
      let (x, found, used) = front_counted H LH c v s s' front rest at_min filled left in
      let matched = rw at_min at (a.bins c.min_frequency) in
      let (t, e, rest', at_min', filled', pair) =
        front-Match H G LH LG c.values s (Assoc.get d.frequency_bin c.min_frequency) front rest
          matched filled in
      let (t', popped', left') = LG.pop_front_lem t e rest' filled' in
      let at_least : Assoc.get d.frequency_bin d.min_frequency ≡ some t = rw same at_min' in
      let binned = evicted-binned H LH c v s s' front rest at_min filled left in
      let taken = evicted_value H LH c v s s' front rest at_min filled left x found popped in
      record {
        front = front;
        value = e;
        count = pair.0;
        encoder_left = s';
        decoder_left = t';
        found = pair.1;
        taken =
            subst
              (λ z. evict_and_return_value H c ≡ some ((evicted H c (front, s')).0, some z.value))
              (some-injective (sym found ∙ pair.1)) taken;
        read = evicted_key G LG d v' t t' e rest' at_least filled' left' popped';
        encoder = binned;
        decoder = evicted-binned G LG d v' t t' e rest' at_least filled' left';
        alike =
            evicted-Alike H G LH LG c d front e pair.0 s s' t t' rest rest' a same pair.1 at_min
              at_min' filled filled' left left' binned;
        encoder_room = evicted_room H LH c v s s' front rest at_min filled left;
        decoder_room = evicted_room G LG d v' t t' e rest' at_least filled' left';
      }

  module _ (i : IncrementByOne E) (size : ℕ) where
    pub miss_full :
        (u w : LfUniCache H G) (k j : K) (y : ValueCounter E)
        → InSync H G LH LG i size u w
        → Assoc.get u.lfu_cache_encoder.values k ≡ none
        → length u.lfu_cache_encoder.values ≡ size
        → Assoc.get u.lfu_cache_encoder.values j ≡ some y
        → Through H G LH LG i size u w k
    unfolding try_encode decode
    miss_full u w k j y a absent full there =
        let c = u.lfu_cache_encoder in
        let d = w.lfu_cache_decoder in
        let o = least_leave c d j y a.alike a.encoder a.decoder a.min there in
        let e = o.value in
        let c₂ = (evicted H c (o.front, o.encoder_left)).0 in
        let d₂ = (evicted G d (e, o.decoder_left)).0 in
        let count : length d.values ≡ length c.values =
          ap length a.alike.values ∙ length-mirrored c.values in
        let whole : (length c.values == u.size) ≡ true = rw (a.encoder_size, full) (==_refl size) in
        let whole' : (length d.values == w.size) ≡ true =
          rw (count, a.decoder_size, full) (==_refl size) in
        let absent₂ : Assoc.get c₂.values k ≡ none =
          ground (arith, get-remove c.values o.front k) in
        let free₂ : Assoc.get d₂.values e ≡ none = get-remove_self d.values e in
        let room : length c₂.values < size = omega (arith, o.encoder_room, full) in
        let room_c : length c₂.values < c₂.capacity = omega (arith, room, a.encoder_capacity) in
        let room_d : length d₂.values < d₂.capacity =
          omega (arith, o.decoder_room, full, count, a.decoder_capacity) in
        (
          record u { lfu_cache_encoder = inserted H c₂ k e },
          not_encoded k,
          record w { lfu_cache_decoder = inserted G d₂ e k },
          rw (get_miss H LH c k absent, whole, o.taken, set_new H LH c₂ k e absent₂ room_c) refl,
          rw (whole', o.read, set_new G LG d₂ e k free₂ room_d) refl,
          inserted-InSync H G LH LG i size u w c₂ d₂ k e u.encoding w.encoding
              (record {
                alike = o.alike;
                encoder = o.encoder;
                decoder = o.decoder;
                encoder_map = remove-IsMap c.values o.front a.encoder.is_map;
                decoder_map = remove-IsMap d.values e a.decoder.is_map;
                encoder_capacity = a.encoder_capacity;
                decoder_capacity = a.decoder_capacity;
                encoder_size = a.encoder_size;
                decoder_size = a.decoder_size;
                room = room;
                codes =
                    subst (λ n. All (λ item. IsCode i n item.1.value) c₂.values)
                      (sym o.encoder_room)
                      (All-remove (λ item. IsCode i (length c.values) item.1.value) c.values o.front
                        a.codes);
              })
              absent₂ free₂
              (subst (λ n. IsCode i n e) (sym o.encoder_room)
                (All-get (λ z. IsCode i (length c.values) z.value) c.values o.front
                  (under e o.count) a.codes o.found))
              (a.encoder_encoding ∙ ap (code i) (sym o.encoder_room))
              (a.decoder_encoding ∙ ap (code i) (sym o.encoder_room)),
        )
