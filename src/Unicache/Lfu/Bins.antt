-- ===== src/Unicache/Lfu/Bins.antt =====
-- The bins of the cache hold its keys by how often they were used, so that no use of it panics.
use omnipaxos_kv_project.Prelude.{
  ◌⊎◌, ℕ, ◌<◌, ◌≤◌, ◌≡◌, refl, sym, ap, subst, ◌∙◌, inl, inr, Option, none, some, Option-cases,
  List, [], ◌∷◌, ◌++◌, Bool, false, Bool-cases, ◌||◌, ◌==◌, ==_iff, ==_refl, length, arith,
  if◌then◌else◌,
}
use omnipaxos_kv_project.Prelude.Assoc
use omnipaxos_kv_project.Prelude.Assoc.{Assoc, Eq, nat_eq, get-insert, get-remove}
use omnipaxos_kv_project.Prelude.Words.{add64}
use omnipaxos_kv_project.Unicache.Lfu.{
  LinkedHashSet, LfuCache, ValueCounter, inc, or_default, add_to_bin, moved,
}
use omnipaxos_kv_project.Unicache.Lfu.Sets.{
  IsLinkedHashSet, IsMap, has, has-append, has-without, without,
}

-- The next number of uses is another one, also where it wraps around.
next_ne : (n : ℕ) → (add64 n 1 == n) ≡ false
unfolding add64
next_ne n = ground arith

abbrev pub has_count : {V : Type 0} → Option (ValueCounter V) → ℕ → Bool
has_count none n = false
has_count (some x) n = x.count == n

snoc_filled :
    {A : Type 0} (l : List A) (a : A) → (front : A) × (rest : List A) × (l ++ a ∷ [] ≡ front ∷ rest)
snoc_filled [] a = (a, [], refl)
snoc_filled (x ∷ xs) a = (x, xs ++ a ∷ [], refl)

list_cases :
    {A : Type 0} (m l : List A)
    → m ≡ l
    → (m ≡ []) ⊎ ((front : A) × (rest : List A) × (m ≡ front ∷ rest))
list_cases m [] e = inl e
list_cases m (x ∷ xs) e = inr (x, xs, e)

module _ {K : Type 0} ⦃q : Eq K⦄ (H : LinkedHashSet K) where
  abbrev pub in_bin : Option H.Set → K → Bool
  in_bin none k = false
  in_bin (some s) k = has (H.iter s) k

  abbrev pub IsFilled : Assoc ℕ H.Set → ℕ → Type 0
  IsFilled bins n =
      (s : H.Set) × (front : K) × (rest : List K) × (Assoc.get bins n ≡ some s)
      × (H.iter s ≡ front ∷ rest)

module _ {K : Type 0} ⦃q : Eq K⦄ (H : LinkedHashSet K) (L : IsLinkedHashSet H) where
  in_bin-default : (o : Option H.Set) (k : K) → has (H.iter (or_default H o)) k ≡ in_bin H o k
  in_bin-default none k = rw L.default_lem refl
  in_bin-default (some s) k = refl

  has-insert :
      (s : H.Set) (k j : K) → has (H.iter (H.insert s k)) j ≡ (q.beq k j || has (H.iter s) j)
  has-insert s k j =
      rw (L.insert_lem s k)
        (ground (arith, has-append (without (H.iter s) k) (k ∷ []) j, has-without (H.iter s) k j))

  pub in_bin-add :
      (bins : Assoc ℕ H.Set) (n m : ℕ) (k j : K)
      → in_bin H (Assoc.get (add_to_bin H bins n k) m) j ≡ (
          if n == m
          then q.beq k j || in_bin H (Assoc.get bins n) j
          else in_bin H (Assoc.get bins m) j)
  in_bin-add bins n m k j =
      let set = H.insert (or_default H (Assoc.get bins n)) k in
      elim (Bool-cases (n == m)) [
        | inl e ↦
            rw (get-insert bins n m set, e)
              (has-insert (or_default H (Assoc.get bins n)) k j
                ∙ ap (λ b. q.beq k j || b) (in_bin-default (Assoc.get bins n) j))
        | inr e ↦ rw (get-insert bins n m set, e) refl
      ]

  pub IsFilled-add : (bins : Assoc ℕ H.Set) (n : ℕ) (k : K) → IsFilled H (add_to_bin H bins n k) n
  IsFilled-add bins n k =
      let old = or_default H (Assoc.get bins n) in
      let (front, rest, e) = snoc_filled (without (H.iter old) k) k in
      (
        H.insert old k,
        front,
        rest,
        rw (get-insert bins n n (H.insert old k), ==_refl n) refl,
        L.insert_lem old k ∙ e,
      )

  pub IsFilled-add_ne :
      (bins : Assoc ℕ H.Set) (n m : ℕ) (k : K)
      → (n == m) ≡ false
      → IsFilled H bins m
      → IsFilled H (add_to_bin H bins n k) m
  IsFilled-add_ne bins n m k e (s, front, rest, at_m, filled) = (
    s,
    front,
    rest,
    rw (get-insert bins n m (H.insert (or_default H (Assoc.get bins n)) k), e) at_m,
    filled,
  )

module _ {K V : Type 0} ⦃q : Eq K⦄ (H : LinkedHashSet K) where
  -- A key is in the bin of its number of uses and in no other.
  abbrev pub IsBinned : LfuCache H V → Type 0
  IsBinned c =
      (n : ℕ) (k : K)
      → in_bin H (Assoc.get c.frequency_bin n) k ≡ has_count (Assoc.get c.values k) n

  -- The keys are in their bins, and where there is a key, the bin of the least number is not empty.
  pub record IsValid (c : LfuCache H V) : Type 0 where
    pub binned : IsBinned c
    pub least :
        (k : K) (x : ValueCounter V)
        → Assoc.get c.values k ≡ some x
        → IsFilled H c.frequency_bin c.min_frequency
    pub is_map : IsMap c.values
    pub within : length c.values ≤ c.capacity
    pub room : 0 < c.capacity

module _ {K V : Type 0} ⦃q : Eq K⦄ (H : LinkedHashSet K) (L : IsLinkedHashSet H) (c : LfuCache H V)
    (v : IsValid H c) where
  -- A key that is there is in a bin.
  pub bin_of :
      (k : K) (x : ValueCounter V)
      → Assoc.get c.values k ≡ some x
      → (s : H.Set) × (Assoc.get c.frequency_bin x.count ≡ some s)
  bin_of k x found = elim (Option-cases (Assoc.get c.frequency_bin x.count)) [
    | inr there ↦ there
    | inl gone ↦ let said = rw (gone, found, ==_refl x.count) at (v.binned x.count k) in absurd (cc)
  ]

  module _ (k : K) (x : ValueCounter V) (found : Assoc.get c.values k ≡ some x) (s : H.Set)
      (at_count : Assoc.get c.frequency_bin x.count ≡ some s) where
    pub moved-binned :
        (n : ℕ) (j : K)
        → in_bin H (Assoc.get (moved H c k x s).frequency_bin n) j
          ≡ has_count (Assoc.get (moved H c k x s).values j) n
    moved-binned n j =
        let bins = c.frequency_bin in
        let left = H.remove s k in
        let next = add64 x.count 1 in
        let other : (x.count == next) ≡ false = ground (arith, next_ne x.count) in
        let gone : has (H.iter left) j ≡ (if q.beq k j then false else has (H.iter s) j) =
          rw (L.remove_lem s k) (has-without (H.iter s) k j) in
        rw
          (
            in_bin-add H L (Assoc.insert bins x.count left) next n k j,
            get-insert bins x.count next left,
            other,
            get-insert bins x.count n left,
            get-insert c.values k j (inc x),
          )
          (elim (Bool-cases (q.beq k j)) [
            | inl same ↦
                let equal = (q.beq_iff k j).0 same in
                elim (Bool-cases (next == n)) [
                  | inl a ↦ rw (same, a) refl
                  | inr a ↦ elim (Bool-cases (x.count == n)) [
                    | inl b ↦ rw (same, a, b, gone, same) refl
                    | inr b ↦
                        let said =
                          subst
                            (λ i.
                              in_bin H (Assoc.get bins n) i ≡ has_count (Assoc.get c.values i) n)
                            equal (v.binned n k) in
                        let known = subst (λ i. Assoc.get c.values i ≡ some x) equal found in
                        rw (same, a, b) (said ∙ rw (known, b) refl)
                  ]
                ]
            | inr apart ↦ elim (Bool-cases (next == n)) [
              | inl a ↦
                  let same_bin = (==_iff next n).0 a in
                  rw (apart, a)
                    (subst
                      (λ m. in_bin H (Assoc.get bins next) j ≡ has_count (Assoc.get c.values j) m)
                      same_bin (v.binned next j))
              | inr a ↦ elim (Bool-cases (x.count == n)) [
                | inl b ↦
                    let same_bin = (==_iff x.count n).0 b in
                    let here : Assoc.get bins n ≡ some s =
                      subst (λ m. Assoc.get bins m ≡ some s) same_bin at_count in
                    rw (apart, a, b, gone, apart) (ap (λ o. in_bin H o j) (sym here) ∙ v.binned n j)
                | inr b ↦ rw (apart, a, b) (v.binned n j)
              ]
            ]
          ])

    pub moved-least : IsFilled H (moved H c k x s).frequency_bin (moved H c k x s).min_frequency
    moved-least =
        let bins = c.frequency_bin in
        let left = H.remove s k in
        let min = c.min_frequency in
        let next = add64 x.count 1 in
        let bins₁ = Assoc.insert bins x.count left in
        elim (Bool-cases (x.count == min)) [
          | inr apart ↦
              let (s₀, front, rest, at_min, filled) = v.least k x found in
              let kept : IsFilled H bins₁ min =
                (s₀, front, rest, rw (get-insert bins x.count min left, apart) at_min, filled) in
              rw apart (elim (Bool-cases (next == min)) [
                | inl a ↦
                    subst (IsFilled H (add_to_bin H bins₁ next k)) ((==_iff next min).0 a)
                      (IsFilled-add H L bins₁ next k)
                | inr a ↦ IsFilled-add_ne H L bins₁ next min k a kept
              ])
          | inl same ↦
              let equal = (==_iff x.count min).0 same in
              let apart : (next == min) ≡ false = ground (arith, next_ne min) in
              elim (left_over left) [
                | inl empty ↦
                    rw (same, L.empty left empty)
                      (subst (λ n. IsFilled H (add_to_bin H bins₁ next k) (add64 n 1)) equal
                        (IsFilled-add H L bins₁ next k))
                | inr (front, rest, filled) ↦
                    rw (same, L.not_empty left front rest filled)
                      (IsFilled-add_ne H L bins₁ next min k apart (
                        left,
                        front,
                        rest,
                        rw (get-insert bins x.count min left, same) refl,
                        filled,
                      ))
              ]
        ]
      where
        left_over :
            (s : H.Set)
            → (H.iter s ≡ []) ⊎ ((front : K) × (rest : List K) × (H.iter s ≡ front ∷ rest))
        left_over s = list_cases (H.iter s) (H.iter s) refl
