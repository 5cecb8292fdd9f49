-- ===== src/Unicache/Lfu/Using.antt =====
-- What the operations of the cache make of a valid cache: none of them panics.
use omnipaxos_kv_project.Prelude.{
  ℕ, suc, ◌<◌, ◌≡◌, refl, sym, ap, subst, ◌∙◌, inl, inr, none, some, Option-cases, List, ◌∷◌, true,
  false, Bool-cases, ◌||◌, ◌==◌, ==_iff, leb, length, arith,
}
use omnipaxos_kv_project.Prelude.Assoc
use omnipaxos_kv_project.Prelude.Assoc.{Assoc, Eq, nat_eq, get-insert, get-remove}
use omnipaxos_kv_project.Unicache.OneToOne.{remove_absent}
use omnipaxos_kv_project.Unicache.Lfu.{
  LinkedHashSet, LfuCache, ValueCounter, inc, moved, update_frequency_bin, evicted, inserted, get,
  set, evict_and_return_key, evict_and_return_value,
}
use omnipaxos_kv_project.Unicache.Lfu.Bins.{
  has_count, in_bin, in_bin-add, IsFilled-add, IsValid, moved-binned, moved-least,
}
use omnipaxos_kv_project.Unicache.Lfu.Sets.{
  has, IsLinkedHashSet, IsMap, insert-IsMap, length-remove,
}

module _ {K V : Type 0} ⦃q : Eq K⦄ (H : LinkedHashSet K) (L : IsLinkedHashSet H)
    (c : LfuCache H V) where
  pub moved-IsValid :
      (v : IsValid H c) (k : K) (x : ValueCounter V) (s : H.Set)
      → Assoc.get c.values k ≡ some x
      → Assoc.get c.frequency_bin x.count ≡ some s
      → IsValid H (moved H c k x s)
  moved-IsValid v k x s found at_count = record {
    binned = moved-binned H L c v k x found s at_count;
    least = λ j y there. moved-least H L c v k x found s at_count;
    is_map = insert-IsMap c.values k (inc x) v.is_map;
    within =
        unfold Assoc.insert in omega (arith, length-remove c.values k x v.is_map found, v.within);
    room = v.room;
  }

  pub get_hit :
      (k : K) (x : ValueCounter V) (s : H.Set)
      → Assoc.get c.values k ≡ some x
      → Assoc.get c.frequency_bin x.count ≡ some s
      → get H c k ≡ some (moved H c k x s, some x.value)
  unfolding get update_frequency_bin
  get_hit k x s found at_count =
      rw (found, at_count, get-insert c.values k k (inc x), Assoc.beq_refl k) refl

  pub get_miss : (k : K) → Assoc.get c.values k ≡ none → get H c k ≡ some (c, none)
  unfolding get update_frequency_bin
  get_miss k absent = rw (absent, absent) refl

  -- A new key, where there is room for it
  pub set_new :
      (k : K) (x : V)
      → Assoc.get c.values k ≡ none
      → length c.values < c.capacity
      → set H c k x ≡ some (inserted H c k x)
  unfolding set
  set_new k x absent room =
      let below : leb c.capacity (length c.values) ≡ false = ground arith in rw (absent, below) refl

  pub inserted-IsValid :
      (k : K) (x : V)
      → ((n : ℕ) (j : K)
          → in_bin H (Assoc.get c.frequency_bin n) j ≡ has_count (Assoc.get c.values j) n)
      → IsMap c.values
      → Assoc.get c.values k ≡ none
      → length c.values < c.capacity
      → IsValid H (inserted H c k x)
  inserted-IsValid k x binned is_map absent room = record {
    binned = λ n j.
        rw
          (
            in_bin-add H L c.frequency_bin 1 n k j,
            get-insert c.values k j (record { value = x; count = 1 }),
          )
          (elim (Bool-cases (q.beq k j)) [
            | inl same ↦
                let equal = (q.beq_iff k j).0 same in
                elim (Bool-cases (1 == n)) [
                  | inl one ↦ rw (same, one) refl
                  | inr other ↦
                      rw (same, other)
                        (subst (λ i. in_bin H (Assoc.get c.frequency_bin n) i ≡ false) equal
                          (binned n k ∙ rw absent refl))
                ]
            | inr apart ↦ elim (Bool-cases (1 == n)) [
              | inl one ↦
                  rw (apart, one)
                    (subst
                      (λ m.
                        in_bin H (Assoc.get c.frequency_bin 1) j
                        ≡ has_count (Assoc.get c.values j) m)
                      ((==_iff 1 n).0 one) (binned 1 j))
              | inr other ↦ rw (apart, other) (binned n j)
            ]
          ]);
    least = λ j y there. IsFilled-add H L c.frequency_bin 1 k;
    is_map = insert-IsMap c.values k (record { value = x; count = 1 }) is_map;
    within =
        unfold Assoc.insert in omega (arith, ap length (remove_absent c.values k absent), room);
    room = omega (arith, room);
  }

  module _ (v : IsValid H c) (s s' : H.Set) (front : K) (rest : List K)
      (at_min : Assoc.get c.frequency_bin c.min_frequency ≡ some s)
      (filled : H.iter s ≡ front ∷ rest) (left : H.iter s' ≡ rest) where
    -- The key that is evicted was there, with the least number of uses.
    pub front_counted :
        (x : ValueCounter V) × (Assoc.get c.values front ≡ some x)
        × ((x.count == c.min_frequency) ≡ true)
    front_counted =
        let counted : has_count (Assoc.get c.values front) c.min_frequency ≡ true =
          sym (v.binned c.min_frequency front) ∙ rw (at_min, filled, Assoc.beq_refl front) refl in
        elim (Option-cases (Assoc.get c.values front)) [
          | inl gone ↦ absurd (cc (rw gone at counted))
          | inr (x, found) ↦ (x, found, rw found at counted)
        ]

    pub evicted-binned :
        (n : ℕ) (j : K)
        → in_bin H (Assoc.get (evicted H c (front, s')).0.frequency_bin n) j
          ≡ has_count (Assoc.get (evicted H c (front, s')).0.values j) n
    evicted-binned n j =
        let bins = c.frequency_bin in
        let min = c.min_frequency in
        let (x, found, used) = front_counted in
        rw (get-insert bins min n s', get-remove c.values front j)
          (elim (Bool-cases (min == n)) [
            | inl here ↦
                let equal = (==_iff min n).0 here in
                let was =
                  subst (λ m. in_bin H (Assoc.get bins m) j ≡ has_count (Assoc.get c.values j) m)
                    equal (v.binned min j) in
                let bin : Assoc.get bins n ≡ some s =
                  subst (λ m. Assoc.get bins m ≡ some s) equal at_min in
                let listed : (q.beq front j || has rest j) ≡ has_count (Assoc.get c.values j) n =
                  sym (rw (bin, filled) refl) ∙ was in
                elim (Bool-cases (q.beq front j)) [
                  | inl same ↦
                      let once = rw filled at (L.distinct s) in
                      rw (here, same, left)
                        (subst (λ i. has rest i ≡ false) ((q.beq_iff front j).0 same) once.0)
                  | inr apart ↦ rw (here, apart, left) (rw apart at listed)
                ]
            | inr away ↦ elim (Bool-cases (q.beq front j)) [
              | inl same ↦
                  let other : (x.count == n) ≡ false = ground arith in
                  rw (away, same)
                    (subst (λ i. in_bin H (Assoc.get bins n) i ≡ false) ((q.beq_iff front j).0 same)
                      (v.binned n front ∙ rw found other))
              | inr apart ↦ rw (away, apart) (v.binned n j)
            ]
          ])

    pub evicted_key :
        H.pop_front s ≡ some (front, s')
        → evict_and_return_key H c ≡ some ((evicted H c (front, s')).0, some front)
    unfolding evict_and_return_key
    evicted_key popped = rw (at_min, popped) refl

    pub evicted_value :
        (x : ValueCounter V)
        → Assoc.get c.values front ≡ some x
        → H.pop_front s ≡ some (front, s')
        → evict_and_return_value H c ≡ some ((evicted H c (front, s')).0, some x.value)
    unfolding evict_and_return_value
    evicted_value x found popped = rw (at_min, popped, found) refl

    -- There is room for one more key.
    pub evicted_room : suc (length (evicted H c (front, s')).0.values) ≡ length c.values
    evicted_room =
        let (x, found, used) = front_counted in length-remove c.values front x v.is_map found
