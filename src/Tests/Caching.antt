-- ===== src/Tests/Caching.antt =====
-- A cache like that of the crate lru, as a list, and the theorems on the caches of fields at it.
use omnipaxos_kv_project.Prelude.{
  ℕ, zero, suc, ◌+◌, ◌%◌, ◌<◌, ◌≡◌, ◌⊎◌, refl, ap, Option, none, some, List, [], ◌∷◌, ◌++◌, false,
  ltb, lt→ltb, length, arith, if◌then◌else◌,
}
use omnipaxos_kv_project.Prelude.Assoc
use omnipaxos_kv_project.Prelude.Assoc.{Eq, nat_eq}
use omnipaxos_kv_project.Unicache.{
  MaybeEncoded, not_encoded, IncrementByOne, FieldCache, encode_all, decode_all,
}
use omnipaxos_kv_project.Unicache.OneToOne.{insert_absent, get-append_none}
use omnipaxos_kv_project.Unicache.Lru
use omnipaxos_kv_project.Unicache.Lru.{
  LruCache, LrUniCache, clone, field_cache, serialize, deserialize,
}
use omnipaxos_kv_project.Unicache.Lru.Contents.{IsLruCache}
use omnipaxos_kv_project.Unicache.Codes.{AreDistinct}
use omnipaxos_kv_project.Unicache.Lru.Following.{decode_all-encode_all, decode_all-clone}
use omnipaxos_kv_project.Unicache.Lru.Serializing.{restored, IsRestored, restored-cases}

abbrev split_last : {A : Type 0} → List A → List A × Option A
split_last [] = ([], none)
split_last (x ∷ []) = ([], some x)
split_last (x ∷ y ∷ ys) = let (before, last) = split_last (y ∷ ys) in (x ∷ before, last)

split_last-append : {A : Type 0} (l : List A) (a : A) → split_last (l ++ a ∷ []) ≡ (l, some a)
split_last-append [] a = refl
split_last-append (x ∷ []) a = refl
split_last-append (x ∷ y ∷ ys) a = ap (λ p. (x ∷ p.0, p.1)) (split_last-append (y ∷ ys) a)

module _ {K V : Type 0} ⦃q : Eq K⦄ where
  abbrev used : List (K × V) → K → Option V → List (K × V)
  used l k none = l
  used l k (some v) = Assoc.insert l k v

  abbrev kept : List (K × V) → ℕ → List (K × V)
  kept l capacity = if ltb (length l) capacity then l else (split_last l).0

  -- The capacity, and the items from the last one used on
  abbrev list_cache : LruCache K V
  list_cache = record {
    Cache = ℕ × List (K × V);
    new = λ n. (n, []);
    len = λ c. length c.1;
    get = λ c k. ((c.0, used c.1 k (Assoc.get c.1 k)), Assoc.get c.1 k);
    pop_lru = λ c. ((c.0, (split_last c.1).0), (split_last c.1).1);
    push = λ c k v. (c.0, Assoc.insert (kept c.1 c.0) k v);
    iter = λ c. c.1;
  }

  room_for :
      (l : List (K × V)) (capacity : ℕ) (k : K) (v : V)
      → Assoc.get l k ≡ none
      → length l < capacity
      → Assoc.insert (kept l capacity) k v ≡ (k, v) ∷ l
  room_for l capacity k v absent room =
      rw (lt→ltb (length l) capacity room) (insert_absent l k v absent)

  full_for :
      (l : List (K × V)) (capacity : ℕ) (k : K) (v : V) (before : List (K × V)) (last : K × V)
      → Assoc.get l k ≡ none
      → l ≡ before ++ last ∷ []
      → length l ≡ capacity
      → Assoc.insert (kept l capacity) k v ≡ (k, v) ∷ before
  full_for l capacity k v before last absent h full =
      let shut : ltb (length l) capacity ≡ false = ground arith in
      let absent' : Assoc.get (before ++ last ∷ []) k ≡ none = rw h at absent in
      rw (shut, h, split_last-append before last)
        (insert_absent before k v (get-append_none before (last ∷ []) k absent').0)

  list_cache-IsLruCache : IsLruCache list_cache
  unfolding Assoc.insert
  list_cache-IsLruCache = record {
    capacity = λ c. c.0;
    capacity-new = λ n. refl;
    iter-new = λ n. refl;
    len_lem = λ c. refl;
    get_lem = λ c k. refl;
    capacity-get = λ c k. refl;
    get_used = λ c k v h. rw h refl;
    get_missed = λ c k h. rw h refl;
    capacity-pop_lru = λ c. refl;
    pop_lru_lem = λ c before last h. rw (h, split_last-append before last) (refl, refl);
    capacity-push = λ c k v. refl;
    push_room = λ c k v absent room. room_for c.1 c.0 k v absent room;
    push_full = λ c k v before last absent h full. full_for c.1 c.0 k v before last absent h full;
  }

-- Codes of eight bits
abbrev pub bytes : IncrementByOne ℕ
bytes = record { default = 0; one = 1; add = λ a b. (a + b) % 256 }

pub bytes-AreDistinct : AreDistinct bytes 2
bytes-AreDistinct zero (suc zero) below room = omega arith
bytes-AreDistinct (suc m) (suc zero) below room = λ same. omega arith
bytes-AreDistinct m (suc (suc n)) below room = λ same. omega arith
bytes-AreDistinct m zero below room = λ same. omega arith

abbrev Field : Type 0
Field = LrUniCache {K = ℕ} {E = ℕ} list_cache list_cache

abbrev fresh : Field
fresh = record { lru_cache_encoder = (2, []); lru_cache_decoder = (2, []); encoding = 0; size = 2 }

abbrev cache : FieldCache Field ℕ ℕ
cache = field_cache list_cache list_cache bytes

decode_all-encode_all_example :
    (u : Field) × (messages : List (MaybeEncoded ℕ ℕ)) × (w : Field) × (encode_all cache fresh
        (5 ∷ 6 ∷ 5 ∷ 7 ∷ 6 ∷ [])
      ≡ some (u, messages))
    × (decode_all cache fresh messages ≡ some (w, 5 ∷ 6 ∷ 5 ∷ 7 ∷ 6 ∷ []))
unfolding Lru.new
decode_all-encode_all_example =
    decode_all-encode_all list_cache list_cache list_cache-IsLruCache list_cache-IsLruCache bytes 2
      fresh (5 ∷ 6 ∷ 5 ∷ 7 ∷ 6 ∷ []) bytes-AreDistinct refl

-- An encoder that has sent the field 5, and the decoder that got it
abbrev encoder : Field
encoder = record fresh { lru_cache_encoder = (2, (5, 1) ∷ []); encoding = 1 }

abbrev decoder : Field
decoder = record fresh { lru_cache_decoder = (2, (1, 5) ∷ []); encoding = 1 }

decode_all-clone_example :
    (c : Field) × (clone list_cache list_cache encoder ≡ some c)
    × (u : Field) × (messages : List (MaybeEncoded ℕ ℕ)) × (w : Field) × (encode_all cache encoder
          (6 ∷ 5 ∷ 7 ∷ [])
        ≡ some (u, messages))
    × (decode_all cache c messages ≡ some (w, 6 ∷ 5 ∷ 7 ∷ []))
unfolding Lru.new encode_all Lru.try_encode Assoc.get Assoc.insert
decode_all-clone_example =
    decode_all-clone list_cache list_cache list_cache-IsLruCache list_cache-IsLruCache bytes 2 fresh
      encoder (5 ∷ []) (6 ∷ 5 ∷ 7 ∷ []) (not_encoded 5 ∷ []) bytes-AreDistinct refl refl

-- A cache that has sent the field 5 and got the field 6
abbrev both : Field
both = record fresh {
  lru_cache_encoder = (2, (5, 1) ∷ []);
  lru_cache_decoder = (2, (1, 6) ∷ []);
  encoding = 1;
}

restored-cases_example :
    (((both.lru_cache_encoder.1 ≡ []) ⊎ (both.lru_cache_decoder.1 ≡ []))
      × (restored list_cache list_cache list_cache-IsLruCache list_cache-IsLruCache both ≡ none))
    ⊎ ((w : Field) × (restored list_cache list_cache list_cache-IsLruCache list_cache-IsLruCache
            both
          ≡ some w)
        × IsRestored list_cache list_cache list_cache-IsLruCache list_cache-IsLruCache both w)
unfolding Assoc.get
restored-cases_example =
    restored-cases list_cache list_cache list_cache-IsLruCache list_cache-IsLruCache both
      (refl, refl, tt) (refl, refl, tt)

-- A cache that only sends is not restored, and one that has room for two fields comes back with
-- room for one on each side.
only_sends :
    restored list_cache list_cache list_cache-IsLruCache list_cache-IsLruCache encoder ≡ none
unfolding Lru.deserialize_cache Lru.deserialize
only_sends = refl
