-- ===== src/Unicache/Lru/Following.antt =====
-- A decoder from the start, and one that is cloned from an encoder later on.
use omnipaxos_kv_project.Prelude.{
  ℕ, zero, suc, ◌<◌, ◌≤◌, ◌≡◌, refl, sym, ap, subst, ◌∙◌, some, some-injective, some-ne-none, List,
  [], ◌∷◌, ◌++◌, length, arith,
}
use omnipaxos_kv_project.Prelude.Assoc.{Eq}
use omnipaxos_kv_project.Unicache.{
  MaybeEncoded, IncrementByOne, swapped, encode_all, decode_all, all_come_through,
}
use omnipaxos_kv_project.Unicache.OneToOne.{IsOneToOne, length-swapped, swapped-append}
use omnipaxos_kv_project.Unicache.Lru.{LruCache, LrUniCache, rev, push_all, new, clone, field_cache}
use omnipaxos_kv_project.Unicache.Lru.Contents.{IsLruCache}
use omnipaxos_kv_project.Unicache.Codes.{AreDistinct}
use omnipaxos_kv_project.Unicache.Lru.RoundTrip.{InSync, field_sent}

push_all-append :
    {K V : Type 0} (L : LruCache K V) (c : L.Cache) (l m : List (K × V))
    → push_all L c (l ++ m) ≡ push_all L (push_all L c l) m
unfolding push_all
push_all-append L c [] m = refl
push_all-append L c ((k, v) ∷ l) m = push_all-append L (L.push c k v) l m

-- Pushing the items of a cache from its last to its first one gives them in their order.
pub push_all-rev :
    {K E : Type 0} ⦃q : Eq K⦄ ⦃r : Eq E⦄ (Decoder : LruCache E K) (LD : IsLruCache Decoder)
    (c : Decoder.Cache) (l : List (K × E))
    → Decoder.iter c ≡ []
    → length l ≤ LD.capacity c
    → IsOneToOne l
    → (Decoder.iter (push_all Decoder c (swapped (rev l))) ≡ swapped l)
      × (LD.capacity (push_all Decoder c (swapped (rev l))) ≡ LD.capacity c)
unfolding push_all
push_all-rev Decoder LD c [] none_yet room one = (none_yet, refl)
push_all-rev Decoder LD c ((k, e) ∷ l) none_yet room one =
    let (items, capacity) = push_all-rev Decoder LD c l none_yet (omega arith) one.2 in
    let before = push_all Decoder c (swapped (rev l)) in
    let below : length (Decoder.iter before) < LD.capacity before =
      omega (arith, ap length items, length-swapped l, capacity) in
    rw
      (
        swapped-append (rev l) ((k, e) ∷ []),
        push_all-append Decoder c (swapped (rev l)) ((e, k) ∷ []),
      )
      (
        LD.push_room before e k (rw items one.1) below ∙ ap (◌∷◌ (e, k)) items,
        LD.capacity-push before e k ∙ capacity,
      )

module _ {K E : Type 0} ⦃q : Eq K⦄ ⦃r : Eq E⦄ (Encoder : LruCache K E) (Decoder : LruCache E K)
    (LE : IsLruCache Encoder) (LD : IsLruCache Decoder) (i : IncrementByOne E) (size : ℕ) where
  abbrev pub Synced : LrUniCache Encoder Decoder → LrUniCache Encoder Decoder → Type 0
  Synced = InSync Encoder Decoder LE LD i size

  pub new-InSync :
      (n : ℕ) (u : LrUniCache Encoder Decoder)
      → size ≡ suc n
      → new Encoder Decoder i size ≡ some u
      → Synced u u
  unfolding new
  new-InSync n u some_room made =
      let same = some-injective (rw some_room at made) in
      subst (λ w. Synced w w) same
        (record {
          items = [];
          shared = record { within = omega arith; one = tt; codes = tt };
          encoder = record {
            iter = LE.iter-new (suc n);
            capacity = LE.capacity-new (suc n) ∙ sym some_room;
            has_size = sym some_room;
            encoding = refl;
          };
          decoder = record {
            iter = LD.iter-new (suc n);
            capacity = LD.capacity-new (suc n) ∙ sym some_room;
            has_size = sym some_room;
            encoding = refl;
          };
        })

  clone-InSync :
      (n : ℕ) (u w : LrUniCache Encoder Decoder)
      → size ≡ suc n
      → Synced u w
      → (c : LrUniCache Encoder Decoder) × (clone Encoder Decoder u ≡ some c) × Synced u c
  unfolding clone
  clone-InSync n u w some_room s =
      let enc = Encoder.iter u.lru_cache_encoder in
      let empty = Decoder.new (suc n) in
      let (items, capacity) =
        push_all-rev Decoder LD empty s.items (LD.iter-new (suc n))
          (omega (arith, LD.capacity-new (suc n), s.shared.within)) s.shared.one in
      (
        record {
          lru_cache_encoder = Encoder.new 1;
          lru_cache_decoder = push_all Decoder empty (swapped (rev s.items));
          encoding = u.encoding;
          size = u.size;
        },
        rw (s.encoder.has_size, some_room, s.encoder.iter) refl,
        record {
          items = s.items;
          shared = s.shared;
          encoder = s.encoder;
          decoder = record {
            iter = items;
            capacity = capacity ∙ LD.capacity-new (suc n) ∙ sym some_room;
            has_size = s.encoder.has_size;
            encoding = s.encoder.encoding;
          };
        },
      )

  -- A cache is made only of some size.
  pub new_some :
      (u : LrUniCache Encoder Decoder)
      → new Encoder Decoder i size ≡ some u
      → (n : ℕ) × (size ≡ suc n)
  unfolding new
  new_some u made = positive size (λ e. some-ne-none (sym made ∙ rw e refl))
    where
      positive : (s : ℕ) → ¬ (s ≡ 0) → (n : ℕ) × (s ≡ suc n)
      positive zero h = absurd (h refl)
      positive (suc n) h = (n, refl)

  pub all_through :
      (u w : LrUniCache Encoder Decoder) (fields : List K)
      → AreDistinct i size
      → 0 < size
      → Synced u w
      → (u' : LrUniCache Encoder Decoder) × (messages : List (MaybeEncoded K E)) × (w' : LrUniCache
          Encoder Decoder)
        × (encode_all (field_cache Encoder Decoder i) u fields ≡ some (u', messages))
        × (decode_all (field_cache Encoder Decoder i) w messages ≡ some (w', fields))
        × Synced u' w'
  all_through u w fields distinct some_room s =
      all_come_through (field_cache Encoder Decoder i) Synced
        (λ u w k s. field_sent Encoder Decoder LE LD i size u w k distinct some_room s) u w fields s

  -- Where the codes for this size are all different: whatever fields are encoded one after the other
  -- by a new cache, none of them panics, and another new cache of the same size decodes what was sent
  -- to the same fields.
  pub decode_all-encode_all :
      (u : LrUniCache Encoder Decoder) (fields : List K)
      → AreDistinct i size
      → new Encoder Decoder i size ≡ some u
      → (u' : LrUniCache Encoder Decoder) × (messages : List (MaybeEncoded K E)) × (w' : LrUniCache
          Encoder Decoder)
        × (encode_all (field_cache Encoder Decoder i) u fields ≡ some (u', messages))
        × (decode_all (field_cache Encoder Decoder i) u messages ≡ some (w', fields))
  decode_all-encode_all u fields distinct made =
      let (n, some_room) = new_some u made in
      let (u', messages, w', sent, got, s) =
        all_through u u fields distinct (omega arith) (new-InSync n u some_room made) in
      (u', messages, w', sent, got)

  -- Where the codes for this size are all different: a clone of a cache that has encoded any fields
  -- does not panic, and decodes what that cache sends next, whatever fields these are.
  pub decode_all-clone :
      (u u₁ : LrUniCache Encoder Decoder) (before after : List K)
      (sent_before : List (MaybeEncoded K E))
      → AreDistinct i size
      → new Encoder Decoder i size ≡ some u
      → encode_all (field_cache Encoder Decoder i) u before ≡ some (u₁, sent_before)
      → (c : LrUniCache Encoder Decoder) × (clone Encoder Decoder u₁ ≡ some c)
        × (u' : LrUniCache Encoder Decoder) × (messages : List (MaybeEncoded K E))
        × (w' : LrUniCache Encoder Decoder) × (encode_all (field_cache Encoder Decoder i) u₁ after
            ≡ some (u', messages))
        × (decode_all (field_cache Encoder Decoder i) c messages ≡ some (w', after))
  decode_all-clone u u₁ before after sent_before distinct made encoded_before =
      let (n, some_room) = new_some u made in
      let (u₀, m₀, w₀, sent₀, got₀, s₀) =
        all_through u u before distinct (omega arith) (new-InSync n u some_room made) in
      let same = ap (λ x. x.0) (some-injective (sym sent₀ ∙ encoded_before)) in
      let s₁ = subst (λ x. Synced x w₀) same s₀ in
      let (c, cloned, synced) = clone-InSync n u₁ w₀ some_room s₁ in
      let (u', messages, w', sent, got, s) = all_through u₁ c after distinct (omega arith) synced in
      (c, cloned, u', messages, w', sent, got)
