-- ===== src/Unicache/Lfu/Cloning.antt =====
-- What a clone of `LFUniCache` knows of the items of its encoder.
use omnipaxos_kv_project.Prelude.{
  ◌>>=◌, ℕ, suc, ◌+◌, ◌-◌, ◌<◌, ◌≤◌, ◌≡◌, refl, sym, ap, subst, ◌∙◌, inl, inr, none, some,
  some-ne-none, List, [], ◌∷◌, Bool-cases, length, arith, if◌then◌else◌,
}
use omnipaxos_kv_project.Prelude.Assoc
use omnipaxos_kv_project.Prelude.Assoc.{Assoc, Eq, get-insert}
use omnipaxos_kv_project.Unicache.{swapped}
use omnipaxos_kv_project.Unicache.OneToOne.{IsOneToOne, length-swapped, get-swapped, remove_absent}
use omnipaxos_kv_project.Unicache.Lfu.{LinkedHashSet, LfuCache, with_capacity, iter, inserted}
use omnipaxos_kv_project.Unicache.Lfu.Bins.{IsValid}
use omnipaxos_kv_project.Unicache.Lfu.Sets.{IsLinkedHashSet, IsMap}
use omnipaxos_kv_project.Unicache.Lfu.Using.{set_new, inserted-IsValid}
use omnipaxos_kv_project.Unicache.Lfu.Pairs.{under}
use omnipaxos_kv_project.Unicache.Lfu.Fields.{LfUniCache, set_all, clone}

swapped-IsMap :
    {K E : Type 0} ⦃q : Eq K⦄ ⦃r : Eq E⦄ (l : List (K × E)) → IsOneToOne l → IsMap (swapped l)
swapped-IsMap [] o = tt
swapped-IsMap ((k, e) ∷ l) o = (o.1, swapped-IsMap l o.2)

module _ {K V : Type 0} ⦃q : Eq K⦄ (H : LinkedHashSet K) (L : IsLinkedHashSet H) where
  -- New items are set one after the other, each with one use.
  set_all_new :
      (c : LfuCache H V) (l : List (K × V))
      → IsValid H c
      → IsMap l
      → ((k : K) (v : V) → Assoc.get l k ≡ some v → Assoc.get c.values k ≡ none)
      → length c.values + length l ≤ c.capacity
      → (c' : LfuCache H V) × (set_all H c l ≡ some c')
        × ((k : K) (v : V) → Assoc.get l k ≡ some v → Assoc.get c'.values k ≡ some (under v 1))
        × ((k : K) → Assoc.get l k ≡ none → Assoc.get c'.values k ≡ Assoc.get c.values k)
  unfolding set_all Assoc.get
  set_all_new c [] valid m new room = (c, refl, λ k v h. absurd (some-ne-none (sym h)), λ k h. refl)
  set_all_new c ((k₀, v₀) ∷ l) valid m new room =
      let absent = new k₀ v₀ (rw (Assoc.beq_refl k₀) refl) in
      let below : length c.values < c.capacity = omega (arith, room) in
      let c₁ = inserted H c k₀ v₀ in
      let grown : length c₁.values ≡ suc (length c.values) =
        unfold Assoc.insert in ap suc (ap length (remove_absent c.values k₀ absent)) in
      let valid₁ = inserted-IsValid H L c k₀ v₀ valid.binned valid.is_map absent below in
      let at₁ = λ (k : K). get-insert c.values k₀ k (under v₀ 1) in
      let new₁ = λ (k : K) (v : V) (h : Assoc.get l k ≡ some v). later k₀ v₀ l k v m.0 h new at₁ in
      let (c', done, ones, others) =
        set_all_new c₁ l valid₁ m.1 new₁ (omega (arith, grown, room)) in
      (
        c',
        rw (set_new H L c k₀ v₀ absent below) done,
        λ k v h. elim (Bool-cases (q.beq k₀ k)) [
          | inl same ↦
              let equal = (q.beq_iff k₀ k).0 same in
              let value = rw same at h in
              let gone = subst (λ j. Assoc.get l j ≡ none) equal m.0 in
              others k gone ∙ rw (at₁ k, same) (ap (λ o. o >>= λ w. some (under w 1)) value)
          | inr apart ↦ ones k v (rw apart at h)
        ],
        λ k h. elim (Bool-cases (q.beq k₀ k)) [
          | inl same ↦ absurd (some-ne-none (rw same at h))
          | inr apart ↦ others k (rw apart at h) ∙ rw (at₁ k, apart) refl
        ],
      )
    where
      later :
          (k₀ : K) (v₀ : V) (l : List (K × V)) (k : K) (v : V)
          → Assoc.get l k₀ ≡ none
          → Assoc.get l k ≡ some v
          → ((j : K) (w : V) → Assoc.get ((k₀, v₀) ∷ l) j ≡ some w → Assoc.get c.values j ≡ none)
          → ((j : K)
              → Assoc.get (inserted H c k₀ v₀).values j
                ≡ (if q.beq k₀ j then some (under v₀ 1) else Assoc.get c.values j))
          → Assoc.get (inserted H c k₀ v₀).values k ≡ none
      later k₀ v₀ l k v gone h new at₁ = elim (Bool-cases (q.beq k₀ k)) [
        | inl same ↦
            let equal = (q.beq_iff k₀ k).0 same in
            absurd (some-ne-none (sym h ∙ subst (λ j. Assoc.get l j ≡ none) equal gone))
        | inr apart ↦ rw (at₁ k, apart) (new k v (rw apart h))
      ]

module _ {K E : Type 0} ⦃q : Eq K⦄ ⦃r : Eq E⦄ (H : LinkedHashSet K) (G : LinkedHashSet E)
    (LG : IsLinkedHashSet G) where
  abbrev empty : ℕ → LfuCache G K
  empty n = record { values = []; frequency_bin = []; capacity = suc n; min_frequency = 0 }

  empty-IsValid : (n : ℕ) → IsValid G (empty n)
  unfolding Assoc.get
  empty-IsValid n = record {
    binned = λ m k. refl;
    least = λ k x there. absurd (some-ne-none (sym there));
    is_map = tt;
    within = omega arith;
    room = omega arith;
  }

  abbrev cloned : LfUniCache H G → LfuCache G K → LfUniCache H G
  cloned u d = record u {
    lfu_cache_encoder = record { values = []; frequency_bin = []; capacity = 1; min_frequency = 0 };
    lfu_cache_decoder = d;
  }

  clone_lem :
      (order : List (K × E) → List (K × E)) (u : LfUniCache H G) (c d : LfuCache G K)
      → with_capacity G u.size ≡ some c
      → set_all G c (swapped (order (iter H u.lfu_cache_encoder))) ≡ some d
      → clone H G order u ≡ some (cloned u d)
  unfolding clone
  clone_lem order u c d made done = rw (made, done) (unfold with_capacity in refl)

  made_empty : (size n : ℕ) → size ≡ suc n → with_capacity {V = K} G size ≡ some (empty n)
  unfolding with_capacity
  made_empty size n same = rw same refl

  -- Whatever the order is in which the map of the encoder is iterated over, where it gives items one
  -- to one and no more than the size of the cache: the clone does not panic, and its decoder has the
  -- field of each item under its code, but as used once, however often the encoder has used it.
  pub clone_forgets_uses :
      (order : List (K × E) → List (K × E)) (u : LfUniCache H G)
      → 0 < u.size
      → IsOneToOne (order (iter H u.lfu_cache_encoder))
      → length (order (iter H u.lfu_cache_encoder)) ≤ u.size
      → (w : LfUniCache H G) × (clone H G order u ≡ some w)
        × ((k : K) (e : E)
            → Assoc.get (order (iter H u.lfu_cache_encoder)) k ≡ some e
            → Assoc.get w.lfu_cache_decoder.values e ≡ some (under k 1))
  clone_forgets_uses order u some_size one fits =
      let n = u.size - 1 in
      let same : u.size ≡ suc n = omega (arith, some_size) in
      let l = order (iter H u.lfu_cache_encoder) in
      let (d, done, ones, others) =
        set_all_new G LG (empty n) (swapped l) (empty-IsValid n) (swapped-IsMap l one)
          (λ e k h. unfold Assoc.get in refl) (omega (arith, length-swapped l, fits, same)) in
      (
        cloned u d,
        clone_lem order u (empty n) d (made_empty u.size n same) done,
        λ k e h. ones e k (get-swapped l k e one h),
      )
