-- ===== src/Unicache/Lru.antt =====
-- `LRUniCache` of crates/custom-paxos/omnipaxos/src/unicache/lru_cache.rs, over the crate lru, which
-- is a parameter. A panic is none.
pub mod Contents
pub mod Items
pub mod Encoding
pub mod Decoding
pub mod RoundTrip
pub mod Following
pub mod Serializing
use omnipaxos_kv_project.Prelude.{
  ◌>>=◌, ℕ, suc, Option, none, some, List, [], ◌∷◌, ◌++◌, Bool, ◌==◌, if◌then◌else◌,
}
use omnipaxos_kv_project.Unicache.{
  MaybeEncoded, encoded, not_encoded, IncrementByOne, non_zero, FieldCache, swapped, unwrap_or,
}

-- What the source uses of `lru::LruCache`. What `push` returns is not used.
pub record LruCache (K V : Type 0) : Type 1 where
  pub Cache : Type 0
  pub new : ℕ → Cache
  pub len : Cache → ℕ
  pub get : Cache → K → Cache × Option V
  pub pop_lru : Cache → Cache × Option (K × V)
  pub push : Cache → K → V → Cache
  pub iter : Cache → List (K × V)

-- `iter().rev()`
abbrev pub rev : {A : Type 0} → List A → List A
rev [] = []
rev (x ∷ xs) = rev xs ++ x ∷ []

module _ {K V : Type 0} (L : LruCache K V) where
  pub push_all : L.Cache → List (K × V) → L.Cache
  push_all c [] = c
  push_all c ((k, v) ∷ items) = push_all (L.push c k v) items

  -- `LruWrapper::serialize`: the sequence of the items
  abbrev pub serialize : L.Cache → List (K × V)
  serialize c = rev (L.iter c)

  -- `visit_seq`: the items, with the hint of the format on how many there are
  unfoldable pub deserialize : Option ℕ → List (K × V) → Option L.Cache
  unfolding push_all
  deserialize hint items = do
    size ← non_zero (unwrap_or hint 255)
    some (push_all (L.new size) items)

pub record LrUniCache {K E : Type 0} (Encoder : LruCache K E) (Decoder : LruCache E K)
    : Type 0 where
  pub lru_cache_encoder : Encoder.Cache
  pub lru_cache_decoder : Decoder.Cache
  pub encoding : E
  pub size : ℕ

-- The fields of `LRUniCache` as they are serialized
pub record Serialized (K E : Type 0) : Type 0 where
  pub lru_cache_encoder : List (K × E)
  pub lru_cache_decoder : List (E × K)
  pub encoding : E
  pub size : ℕ

module _ {K E : Type 0} (Encoder : LruCache K E) (Decoder : LruCache E K) where
  -- The derived `Serialize` of `LRUniCache`
  abbrev pub serialize_cache : LrUniCache Encoder Decoder → Serialized K E
  serialize_cache u = record {
    lru_cache_encoder = serialize Encoder u.lru_cache_encoder;
    lru_cache_decoder = serialize Decoder u.lru_cache_decoder;
    encoding = u.encoding;
    size = u.size;
  }

  -- Its derived `Deserialize`, field by field, with a hint for each of the two sequences
  unfoldable pub deserialize_cache :
      Option ℕ → Option ℕ → Serialized K E → Option (LrUniCache Encoder Decoder)
  deserialize_cache hint hint' s = do
    encoder ← deserialize Encoder hint s.lru_cache_encoder
    decoder ← deserialize Decoder hint' s.lru_cache_decoder
    some (record {
      lru_cache_encoder = encoder;
      lru_cache_decoder = decoder;
      encoding = s.encoding;
      size = s.size;
    })

  -- `LRUniCache::clone`: the decoder has the items of the encoder.
  unfoldable pub clone : LrUniCache Encoder Decoder → Option (LrUniCache Encoder Decoder)
  unfolding push_all
  clone u = do
    s ← non_zero u.size
    some (record {
      lru_cache_encoder = Encoder.new 1;
      lru_cache_decoder =
          push_all Decoder (Decoder.new s) (swapped (rev (Encoder.iter u.lru_cache_encoder)));
      encoding = u.encoding;
      size = u.size;
    })

module _ {K E : Type 0} (Encoder : LruCache K E) (Decoder : LruCache E K)
    (i : IncrementByOne E) where
  -- `LRUniCache::new`
  unfoldable pub new : ℕ → Option (LrUniCache Encoder Decoder)
  new size = do
    s ← non_zero size
    some (record {
      lru_cache_encoder = Encoder.new s;
      lru_cache_decoder = Decoder.new s;
      encoding = i.default;
      size = size;
    })

  -- The code of the item that is popped goes to the new field.
  abbrev pub encode_full :
      LrUniCache Encoder Decoder
      → K
      → Encoder.Cache × Option (K × E)
      → Option (LrUniCache Encoder Decoder × MaybeEncoded K E)
  encode_full u field (encoder, none) = none
  encode_full u field (encoder, some (_, popped_encoding)) = some (
    record u { lru_cache_encoder = Encoder.push encoder field popped_encoding },
    not_encoded field,
  )

  abbrev pub encode_new :
      LrUniCache Encoder Decoder → K → LrUniCache Encoder Decoder × MaybeEncoded K E
  encode_new u field =
      let added = i.add u.encoding i.one in
      (
        record u {
          lru_cache_encoder = Encoder.push u.lru_cache_encoder field added;
          encoding = added;
        },
        not_encoded field,
      )

  abbrev pub encode_found :
      LrUniCache Encoder Decoder
      → K
      → Option E
      → Option (LrUniCache Encoder Decoder × MaybeEncoded K E)
  encode_found u field (some encoding) = some (u, encoded encoding)
  encode_found u field none =
      if Encoder.len u.lru_cache_encoder == u.size
      then encode_full u field (Encoder.pop_lru u.lru_cache_encoder)
      else some (encode_new u field)

  -- `LRUniCache::try_encode`
  unfoldable pub try_encode :
      LrUniCache Encoder Decoder → K → Option (LrUniCache Encoder Decoder × MaybeEncoded K E)
  try_encode u field =
      let (encoder, found) = Encoder.get u.lru_cache_encoder field in
      encode_found (record u { lru_cache_encoder = encoder }) field found

  abbrev pub decode_full :
      LrUniCache Encoder Decoder
      → K
      → Decoder.Cache × Option (E × K)
      → Option (LrUniCache Encoder Decoder × K)
  decode_full u field (decoder, none) = none
  decode_full u field (decoder, some (popped_encoded, _)) =
      some (record u { lru_cache_decoder = Decoder.push decoder popped_encoded field }, field)

  abbrev pub decode_new : LrUniCache Encoder Decoder → K → LrUniCache Encoder Decoder × K
  decode_new u field =
      let added = i.add u.encoding i.one in
      (
        record u {
          lru_cache_decoder = Decoder.push u.lru_cache_decoder added field;
          encoding = added;
        },
        field,
      )

  abbrev pub decode_found :
      LrUniCache Encoder Decoder
      → Decoder.Cache × Option K
      → Option (LrUniCache Encoder Decoder × K)
  decode_found u (decoder, none) = none
  decode_found u (decoder, some field) = some (record u { lru_cache_decoder = decoder }, field)

  -- `LRUniCache::decode`
  unfoldable pub decode :
      LrUniCache Encoder Decoder → MaybeEncoded K E → Option (LrUniCache Encoder Decoder × K)
  decode u (encoded encoding) = decode_found u (Decoder.get u.lru_cache_decoder encoding)
  decode u (not_encoded field) =
      if Decoder.len u.lru_cache_decoder == u.size
      then decode_full u field (Decoder.pop_lru u.lru_cache_decoder)
      else some (decode_new u field)

  abbrev pub field_cache : FieldCache (LrUniCache Encoder Decoder) K E
  field_cache = record { new = new; try_encode = try_encode; decode = decode }
