-- ===== src/Unicache/Lfu/Fields.antt =====
-- `LFUniCache` of crates/custom-paxos/omnipaxos/src/unicache/lfu_cache.rs. A panic is none.
use omnipaxos_kv_project.Prelude.{◌>>=◌, ℕ, Option, none, some, List, [], ◌∷◌, ◌==◌, if◌then◌else◌}
use omnipaxos_kv_project.Prelude.Assoc.{Eq}
use omnipaxos_kv_project.Unicache.{
  MaybeEncoded, encoded, not_encoded, IncrementByOne, FieldCache, swapped,
}
use omnipaxos_kv_project.Unicache.Lfu.{
  LinkedHashSet, LfuCache, with_capacity, len, iter, get, set, evict_and_return_key,
  evict_and_return_value,
}

pub record LfUniCache {K E : Type 0} (H : LinkedHashSet K) (G : LinkedHashSet E) : Type 0 where
  pub lfu_cache_encoder : LfuCache H E
  pub lfu_cache_decoder : LfuCache G K
  pub encoding : E
  pub size : ℕ

module _ {K V : Type 0} ⦃q : Eq K⦄ (H : LinkedHashSet K) where
  unfoldable pub set_all : LfuCache H V → List (K × V) → Option (LfuCache H V)
  set_all c [] = some c
  set_all c ((k, v) ∷ items) = do c' ← set H c k v; set_all c' items

module _ {K E : Type 0} ⦃q : Eq K⦄ ⦃r : Eq E⦄ (H : LinkedHashSet K) (G : LinkedHashSet E) where
  -- `LFUniCache::clone`, with the order in which the map of the encoder is iterated over
  unfoldable pub clone : (List (K × E) → List (K × E)) → LfUniCache H G → Option (LfUniCache H G)
  unfolding set_all
  clone order u = do
    decoder ← with_capacity G u.size
    decoder' ← set_all G decoder (swapped (order (iter H u.lfu_cache_encoder)))
    encoder ← with_capacity H 1
    some (record {
      lfu_cache_encoder = encoder;
      lfu_cache_decoder = decoder';
      encoding = u.encoding;
      size = u.size;
    })

module _ {K E : Type 0} ⦃q : Eq K⦄ ⦃r : Eq E⦄ (H : LinkedHashSet K) (G : LinkedHashSet E)
    (i : IncrementByOne E) where
  -- `LFUniCache::new`
  unfoldable pub new : ℕ → Option (LfUniCache H G)
  new size = do
    encoder ← with_capacity H size
    decoder ← with_capacity G size
    some (record {
      lfu_cache_encoder = encoder;
      lfu_cache_decoder = decoder;
      encoding = i.default;
      size = size;
    })

  abbrev pub encode_full :
      LfUniCache H G → K → LfuCache H E × Option E → Option (LfUniCache H G × MaybeEncoded K E)
  encode_full u field (encoder, none) = none
  encode_full u field (encoder, some popped_encoding) = do
    encoder' ← set H encoder field popped_encoding
    some (record u { lfu_cache_encoder = encoder' }, not_encoded field)

  abbrev pub encode_found :
      LfUniCache H G → K → Option E → Option (LfUniCache H G × MaybeEncoded K E)
  encode_found u field (some encoding) = some (u, encoded encoding)
  encode_found u field none =
      if len H u.lfu_cache_encoder == u.size
      then evict_and_return_value H u.lfu_cache_encoder >>= encode_full u field
      else (do
        let added = i.add u.encoding i.one
        encoder ← set H u.lfu_cache_encoder field added
        some (record u { lfu_cache_encoder = encoder; encoding = added }, not_encoded field))

  -- `LFUniCache::try_encode`
  unfoldable pub try_encode : LfUniCache H G → K → Option (LfUniCache H G × MaybeEncoded K E)
  try_encode u field = do
    (encoder, found) ← get H u.lfu_cache_encoder field
    encode_found (record u { lfu_cache_encoder = encoder }) field found

  abbrev pub decode_full :
      LfUniCache H G → K → LfuCache G K × Option E → Option (LfUniCache H G × K)
  decode_full u field (decoder, none) = none
  decode_full u field (decoder, some popped_encoded) = do
    decoder' ← set G decoder popped_encoded field
    some (record u { lfu_cache_decoder = decoder' }, field)

  abbrev pub decode_found : LfUniCache H G → LfuCache G K × Option K → Option (LfUniCache H G × K)
  decode_found u (decoder, none) = none
  decode_found u (decoder, some field) = some (record u { lfu_cache_decoder = decoder }, field)

  -- `LFUniCache::decode`
  unfoldable pub decode : LfUniCache H G → MaybeEncoded K E → Option (LfUniCache H G × K)
  decode u (encoded encoding) = get G u.lfu_cache_decoder encoding >>= decode_found u
  decode u (not_encoded field) =
      if len G u.lfu_cache_decoder == u.size
      then evict_and_return_key G u.lfu_cache_decoder >>= decode_full u field
      else (do
        let added = i.add u.encoding i.one
        decoder ← set G u.lfu_cache_decoder added field
        some (record u { lfu_cache_decoder = decoder; encoding = added }, field))

  abbrev pub field_cache : FieldCache (LfUniCache H G) K E
  field_cache = record { new = new; try_encode = try_encode; decode = decode }
