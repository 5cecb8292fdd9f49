-- ===== src/Unicache/Lru/RoundTrip.antt =====
-- What `try_encode` sends, `decode` of another cache reads back.
use omnipaxos_kv_project.Prelude.{
  ℕ, ◌<◌, ◌≡◌, subst, none, some, Option-cases, List, [], ◌∷◌, ◌++◌, inl, inr, dec_lt, length,
  arith,
}
use omnipaxos_kv_project.Prelude.Assoc
use omnipaxos_kv_project.Prelude.Assoc.{Assoc, Eq}
use omnipaxos_kv_project.Unicache.{MaybeEncoded, encoded, not_encoded, IncrementByOne}
use omnipaxos_kv_project.Unicache.OneToOne.{ends}
use omnipaxos_kv_project.Unicache.Lru.{LruCache, LrUniCache, try_encode, decode}
use omnipaxos_kv_project.Unicache.Codes.{AreDistinct, next-absent}
use omnipaxos_kv_project.Unicache.Lru.Contents.{IsLruCache}
use omnipaxos_kv_project.Unicache.Lru.Items.{Items, used-Items, new-Items, full-Items}
use omnipaxos_kv_project.Unicache.Lru.Encoding.{
  IsEncoder, encode_hit, hit-IsEncoder, encode_miss, miss-IsEncoder, encode_full,
}
use omnipaxos_kv_project.Unicache.Lru.Decoding.{IsDecoder, decode_hit, decode_miss, decode_full}

module _ {K E : Type 0} ⦃q : Eq K⦄ ⦃r : Eq E⦄ (Encoder : LruCache K E) (Decoder : LruCache E K)
    (LE : IsLruCache Encoder) (LD : IsLruCache Decoder) (i : IncrementByOne E) (size : ℕ) where
  -- The items that an encoder and a decoder share
  pub record InSync (u w : LrUniCache Encoder Decoder) : Type 0 where
    pub items : List (K × E)
    pub shared : Items i size items
    pub encoder : IsEncoder Encoder Decoder LE LD i size items u
    pub decoder : IsDecoder Encoder Decoder LD i size items w

  abbrev Through : LrUniCache Encoder Decoder → LrUniCache Encoder Decoder → K → Type 0
  Through u w k =
      (u' : LrUniCache Encoder Decoder) × (m : MaybeEncoded K E) × (w' : LrUniCache Encoder Decoder)
      × (try_encode Encoder Decoder i u k ≡ some (u', m))
      × (decode Encoder Decoder i w m ≡ some (w', k))
      × InSync u' w'

  hit :
      (u w : LrUniCache Encoder Decoder) (k : K) (e : E) (s : InSync u w)
      → Assoc.get s.items k ≡ some e
      → Through u w k
  hit u w k e s found =
      let one = s.shared.one in
      let known : Assoc.get (Encoder.iter u.lru_cache_encoder) k ≡ some e =
        rw s.encoder.iter found in
      let (read, decoder) =
        decode_hit Encoder Decoder LD i size w s.items k e s.decoder one found in
      (
        _,
        encoded e,
        _,
        encode_hit Encoder Decoder LE LD i size u k e known,
        read,
        record {
          items = _;
          shared = used-Items i size s.items k e s.shared found;
          encoder = hit-IsEncoder Encoder Decoder LE LD i size u s.items k e s.encoder one found;
          decoder = decoder;
        },
      )

  miss_new :
      (u w : LrUniCache Encoder Decoder) (k : K) (s : InSync u w)
      → AreDistinct i size
      → Assoc.get s.items k ≡ none
      → length s.items < size
      → Through u w k
  miss_new u w k s distinct absent room =
      let free = next-absent i size (length s.items) s.items distinct room s.shared.codes in
      let (read, decoder) = decode_miss Encoder Decoder LD i size w k s.items s.decoder free room in
      (
        _,
        not_encoded k,
        _,
        (encode_miss Encoder Decoder LE LD i size u k s.items s.encoder absent room).0,
        read,
        record {
          items = _;
          shared = new-Items i size s.items k distinct s.shared room absent;
          encoder = miss-IsEncoder Encoder Decoder LE LD i size u k s.items s.encoder absent room;
          decoder = decoder;
        },
      )

  miss_full :
      (u w : LrUniCache Encoder Decoder) (k : K) (s : InSync u w) (before : List (K × E)) (j : K)
      (e : E)
      → Assoc.get s.items k ≡ none
      → length s.items ≡ size
      → s.items ≡ before ++ (j, e) ∷ []
      → Through u w k
  miss_full u w k s before j e absent full last =
      let missing = rw last at absent in
      let ok = full-Items i size before k j e (subst (Items i size) last s.shared) missing in
      let (sent, encoder) =
        encode_full Encoder Decoder LE LD i size u k j e before
          (subst (λ l. IsEncoder Encoder Decoder LE LD i size l u) last s.encoder) missing ok.one.0
          (rw last at full) in
      let (read, decoder) =
        decode_full Encoder Decoder LD i size w k j e before
          (subst (λ l. IsDecoder Encoder Decoder LD i size l w) last s.decoder) ok.one.1
          (rw last at full) in
      (
        _,
        not_encoded k,
        _,
        sent,
        read,
        record { items = _; shared = ok; encoder = encoder; decoder = decoder },
      )

  -- One field comes through, whatever it is.
  pub field_sent :
      (u w : LrUniCache Encoder Decoder) (k : K)
      → AreDistinct i size
      → 0 < size
      → InSync u w
      → Through u w k
  field_sent u w k distinct some_room s = elim (Option-cases (Assoc.get s.items k)) [
    | inr (e, found) ↦ hit u w k e s found
    | inl absent ↦ elim (dec_lt (length s.items) size) [
      | yes room ↦ miss_new u w k s distinct absent room
      | no full ↦
          let whole : length s.items ≡ size = omega (arith, s.shared.within) in
          let (before, last, e) = ends s.items (omega arith) in
          miss_full u w k s before last.0 last.1 absent whole e
    ]
  ]
