-- ===== src/Unicache/Lfu/RoundTrip.antt =====
-- What `try_encode` of `LFUniCache` sends, `decode` of another cache reads back.
use omnipaxos_kv_project.Prelude.{
  ℕ, zero, suc, ◌<◌, ◌≡◌, refl, sym, subst, inl, inr, some, some-injective, some-ne-none,
  Option-cases, List, [], ◌∷◌, dec_lt, length, arith,
}
use omnipaxos_kv_project.Prelude.Assoc
use omnipaxos_kv_project.Prelude.Assoc.{Assoc, Eq, nat_eq, get-insert, get-remove}
use omnipaxos_kv_project.Unicache.{
  MaybeEncoded, IncrementByOne, encode_all, decode_all, all_come_through,
}
use omnipaxos_kv_project.Unicache.Codes.{AreDistinct}
use omnipaxos_kv_project.Unicache.Lfu.{LinkedHashSet, ValueCounter, with_capacity}
use omnipaxos_kv_project.Unicache.Lfu.Sets.{IsLinkedHashSet}
use omnipaxos_kv_project.Unicache.Lfu.Fields.{LfUniCache, new, field_cache}
use omnipaxos_kv_project.Unicache.Lfu.Synced.{InSync, Through, hit, miss_new}
use omnipaxos_kv_project.Unicache.Lfu.Evicting.{miss_full}

module _ {K E : Type 0} ⦃q : Eq K⦄ ⦃r : Eq E⦄ (H : LinkedHashSet K) (G : LinkedHashSet E)
    (LH : IsLinkedHashSet H) (LG : IsLinkedHashSet G) (i : IncrementByOne E) (size : ℕ) where
  -- One field comes through, whatever it is.
  field_sent :
      (u w : LfUniCache H G) (k : K)
      → AreDistinct i size
      → 0 < size
      → InSync H G LH LG i size u w
      → Through H G LH LG i size u w k
  field_sent u w k distinct some_room a =
      elim (Option-cases (Assoc.get u.lfu_cache_encoder.values k)) [
        | inr (x, found) ↦ hit H G LH LG i size u w k x.value x.count a found
        | inl absent ↦ elim (dec_lt (length u.lfu_cache_encoder.values) size) [
          | yes room ↦ miss_new H G LH LG i size u w k distinct a absent room
          | no full ↦
              let within = a.encoder.within in
              let whole : length u.lfu_cache_encoder.values ≡ size =
                omega (arith, within, a.encoder_capacity) in
              let (j, y, there) = first_of u.lfu_cache_encoder.values (omega arith) in
              miss_full H G LH LG i size u w k j y a absent whole there
        ]
      ]
    where
      first_of :
          (m : Assoc K (ValueCounter E))
          → 0 < length m
          → (j : K) × (y : ValueCounter E) × (Assoc.get m j ≡ some y)
      first_of [] h = absurd (omega arith)
      first_of ((j, y) ∷ m) h = (j, y, unfold Assoc.get in rw (Assoc.beq_refl j) refl)

  new-InSync :
      (u : LfUniCache H G) → new H G i size ≡ some u → (0 < size) × InSync H G LH LG i size u u
  unfolding new with_capacity
  new-InSync u made = from size refl made
    where
      from : (n : ℕ) → n ≡ size → new H G i n ≡ some u → (0 < size) × InSync H G LH LG i size u u
      from zero same none_made = cc
      from (suc n) same some_made =
          subst (λ w. (0 < size) × InSync H G LH LG i size w w) (some-injective some_made)
            (
              omega (arith, same),
              record {
                alike = record { paired = tt; values = refl; bins = λ m. unfold Assoc.get in tt };
                encoder =
                    unfold Assoc.get in
                    record {
                      binned = λ m k. refl;
                      least = λ k x there. absurd (some-ne-none (sym there));
                      is_map = tt;
                      within = omega arith;
                      room = omega arith;
                    };
                decoder =
                    unfold Assoc.get in
                    record {
                      binned = λ m k. refl;
                      least = λ k x there. absurd (some-ne-none (sym there));
                      is_map = tt;
                      within = omega arith;
                      room = omega arith;
                    };
                min = refl;
                encoder_capacity = same;
                decoder_capacity = same;
                encoder_size = same;
                decoder_size = same;
                encoder_encoding = refl;
                decoder_encoding = refl;
                codes = tt;
              },
            )

  -- Where the codes for this size are all different: whatever fields are encoded one after the other
  -- by a new cache, none of them panics, and another new cache of the same size decodes what was sent
  -- to the same fields.
  pub decode_all-encode_all_fields :
      (u : LfUniCache H G) (fields : List K)
      → AreDistinct i size
      → new H G i size ≡ some u
      → (u' : LfUniCache H G) × (messages : List (MaybeEncoded K E)) × (w' : LfUniCache H G)
        × (encode_all (field_cache H G i) u fields ≡ some (u', messages))
        × (decode_all (field_cache H G i) u messages ≡ some (w', fields))
  decode_all-encode_all_fields u fields distinct made =
      let (some_room, s) = new-InSync u made in
      let (u', messages, w', sent, got, s') =
        all_come_through (field_cache H G i) (InSync H G LH LG i size)
          (λ u w k s. field_sent u w k distinct some_room s) u u fields s in
      (u', messages, w', sent, got)
