-- ===== src/Unicache/OneToOne.antt =====
-- Items in which no key and no value stands twice, read from either side.
use omnipaxos_kv_project.Prelude.{
  suc, ◌≡◌, refl, sym, ap, subst, ◌∙◌, All, inl, inr, none, some, some-injective, some-ne-none,
  List, [], ◌∷◌, ◌++◌, false, Bool-cases, length, ◌<◌, arith,
}
use omnipaxos_kv_project.Prelude.Assoc
use omnipaxos_kv_project.Prelude.Assoc.{Assoc, Eq, get-remove}
use omnipaxos_kv_project.Unicache.{swapped}

pub length-swapped : {K E : Type 0} (l : List (K × E)) → length (swapped l) ≡ length l
length-swapped [] = refl
length-swapped ((k, e) ∷ l) = ap suc (length-swapped l)

pub swapped-append : {K E : Type 0} (l m : List (K × E)) → swapped (l ++ m) ≡ swapped l ++ swapped m
swapped-append [] m = refl
swapped-append ((k, e) ∷ l) m = ap (◌∷◌ (e, k)) (swapped-append l m)

last_of :
    {A : Type 0} (x : A) (xs : List A)
    → (before : List A) × (last : A) × (x ∷ xs ≡ before ++ last ∷ [])
last_of x [] = ([], x, refl)
last_of x (y ∷ ys) = let (before, last, e) = last_of y ys in (x ∷ before, last, ap (◌∷◌ x) e)

-- The last of some items, and those before it
pub ends :
    {A : Type 0} (l : List A)
    → 0 < length l
    → (before : List A) × (last : A) × (l ≡ before ++ last ∷ [])
ends [] h = absurd (omega arith)
ends (x ∷ xs) h = last_of x xs

pub All-snoc :
    {A : Type 0} (P : A → Type 0) (l : List A) (a : A) → All P (l ++ a ∷ []) → All P l × P a
All-snoc P [] a h = (tt, h.0)
All-snoc P (x ∷ l) a h = let (rest, last) = All-snoc P l a h.1 in ((h.0, rest), last)

module _ {K V : Type 0} ⦃q : Eq K⦄ where
  pub remove_absent : (m : Assoc K V) (k : K) → Assoc.get m k ≡ none → Assoc.remove m k ≡ m
  unfolding Assoc.get Assoc.remove
  remove_absent [] k h = refl
  remove_absent ((j, v) ∷ m) k h = ground (arith, remove_absent m k)

  pub insert_absent :
      (m : Assoc K V) (k : K) (v : V) → Assoc.get m k ≡ none → Assoc.insert m k v ≡ (k, v) ∷ m
  unfolding Assoc.insert
  insert_absent m k v h = ap (◌∷◌ (k, v)) (remove_absent m k h)

  -- A property of the items is one of those that are left.
  pub All-remove : (P : K × V → Type 0) (l : Assoc K V) (k : K) → All P l → All P (Assoc.remove l k)
  unfolding Assoc.remove
  All-remove P [] k h = tt
  All-remove P ((j, d) ∷ l) k h = elim (Bool-cases (q.beq j k)) [
    | inl e ↦ rw e (All-remove P l k h.1)
    | inr e ↦ rw e (h.0, All-remove P l k h.1)
  ]

  pub All-get :
      (P : V → Type 0) (l : Assoc K V) (k : K) (e : V)
      → All (λ item. P item.1) l
      → Assoc.get l k ≡ some e
      → P e
  unfolding Assoc.get
  All-get P [] k e h at_k = absurd (cc)
  All-get P ((j, d) ∷ l) k e h at_k = elim (Bool-cases (q.beq j k)) [
    | inl s ↦ subst P (some-injective (rw s at at_k)) h.0
    | inr s ↦ All-get P l k e h.1 (rw s at at_k)
  ]

  pub get-append_none :
      (l m : Assoc K V) (k : K)
      → Assoc.get (l ++ m) k ≡ none
      → (Assoc.get l k ≡ none) × (Assoc.get m k ≡ none)
  unfolding Assoc.get
  get-append_none [] m k h = (refl, h)
  get-append_none ((j, v) ∷ l) m k h = ground (arith, get-append_none l m k)

  pub get-snoc :
      (l : Assoc K V) (k : K) (v : V)
      → Assoc.get l k ≡ none
      → Assoc.get (l ++ (k, v) ∷ []) k ≡ some v
  unfolding Assoc.get
  get-snoc [] k v h = rw (Assoc.beq_refl k) refl
  get-snoc ((j, w) ∷ l) k v h = ground (arith, get-snoc l k v)

  -- Of two keys one of which is there, the other is another one.
  pub beq-absent :
      (l : Assoc K V) (k j : K) (v : V)
      → Assoc.get l k ≡ none
      → Assoc.get l j ≡ some v
      → q.beq k j ≡ false
  beq-absent l k j v absent there = elim (Bool-cases (q.beq k j)) [
    | inr other ↦ other
    | inl same ↦
        let equal = (q.beq_iff k j).0 same in
        absurd (some-ne-none (sym there ∙ ap (Assoc.get l) (sym equal) ∙ absent))
  ]

  pub get-remove_self : (m : Assoc K V) (k : K) → Assoc.get (Assoc.remove m k) k ≡ none
  get-remove_self m k = ground (arith, get-remove m k k, Assoc.beq_refl k)

module _ {K E : Type 0} ⦃q : Eq K⦄ ⦃r : Eq E⦄ where
  abbrev pub IsOneToOne : List (K × E) → Type 0
  IsOneToOne [] = Unit
  IsOneToOne ((k, e) ∷ l) = (Assoc.get l k ≡ none) × (Assoc.get (swapped l) e ≡ none) × IsOneToOne l

  -- A key is found under its value.
  pub get-swapped :
      (l : List (K × E)) (k : K) (e : E)
      → IsOneToOne l
      → Assoc.get l k ≡ some e
      → Assoc.get (swapped l) e ≡ some k
  unfolding Assoc.get
  get-swapped [] k e o h = cc
  get-swapped ((j, d) ∷ l) k e o h =
      ground (arith, get-swapped l k e o.2, q.beq_iff j k, r.beq_iff d e)

  -- To remove a key is to remove its value from the other side.
  pub swapped-remove :
      (l : List (K × E)) (k : K) (e : E)
      → IsOneToOne l
      → Assoc.get l k ≡ some e
      → swapped (Assoc.remove l k) ≡ Assoc.remove (swapped l) e
  unfolding Assoc.get Assoc.remove
  swapped-remove [] k e o h = cc
  swapped-remove ((j, d) ∷ l) k e o h = ground (
    arith,
    swapped-remove l k e o.2,
    get-swapped l k e o.2,
    remove_absent l k,
    remove_absent (swapped l) e,
    q.beq_iff j k,
    r.beq_iff d e,
  )

  pub remove-IsOneToOne :
      (l : List (K × E)) (k : K) (e : E)
      → IsOneToOne l
      → Assoc.get l k ≡ some e
      → IsOneToOne (Assoc.remove l k)
  unfolding Assoc.get Assoc.remove
  remove-IsOneToOne [] k e o h = tt
  remove-IsOneToOne ((j, d) ∷ l) k e o h = elim (Bool-cases (q.beq j k)) [
    | inl same ↦
        let gone = remove_absent l k (ground (arith, q.beq_iff j k, o.0)) in rw (same, gone) o.2
    | inr other ↦
        let rest : Assoc.get l k ≡ some e = rw other at h in
        rw other (
          ground (arith, get-remove l k j, o.0),
          rw (swapped-remove l k e o.2 rest) (ground (arith, get-remove (swapped l) e d, o.1)),
          remove-IsOneToOne l k e o.2 rest,
        )
  ]

  pub length-remove :
      (l : List (K × E)) (k : K) (e : E)
      → IsOneToOne l
      → Assoc.get l k ≡ some e
      → suc (length (Assoc.remove l k)) ≡ length l
  unfolding Assoc.get Assoc.remove
  length-remove [] k e o h = cc
  length-remove ((j, d) ∷ l) k e o h =
      ground (arith, length-remove l k e o.2, remove_absent l k, q.beq_iff j k)

  -- What stands before an item has neither its key nor its value.
  pub snoc-IsOneToOne :
      (l : List (K × E)) (k : K) (e : E)
      → IsOneToOne (l ++ (k, e) ∷ [])
      → (Assoc.get l k ≡ none) × (Assoc.get (swapped l) e ≡ none) × IsOneToOne l
  unfolding Assoc.get
  snoc-IsOneToOne [] k e o = (refl, refl, tt)
  snoc-IsOneToOne ((j, d) ∷ l) k e o =
      let (no_key, no_value, one) = snoc-IsOneToOne l k e o.2 in
      let key = get-append_none l ((k, e) ∷ []) j o.0 in
      let value =
        get-append_none (swapped l) ((e, k) ∷ []) d (rw (← swapped-append l ((k, e) ∷ [])) o.1) in
      (
        ground (arith, no_key, key.1, q.beq_iff j k, q.beq_iff k j),
        ground (arith, no_value, value.1, r.beq_iff d e, r.beq_iff e d),
        (key.0, value.0, one),
      )

pub swapped-swapped : {K E : Type 0} (l : List (K × E)) → swapped (swapped l) ≡ l
swapped-swapped [] = refl
swapped-swapped ((k, e) ∷ l) = ap (◌∷◌ (k, e)) (swapped-swapped l)

pub swapped-IsOneToOne :
    {K E : Type 0} ⦃q : Eq K⦄ ⦃r : Eq E⦄ (l : List (K × E)) → IsOneToOne l → IsOneToOne (swapped l)
swapped-IsOneToOne [] o = tt
swapped-IsOneToOne ((k, e) ∷ l) o = (o.1, rw (swapped-swapped l) o.0, swapped-IsOneToOne l o.2)
