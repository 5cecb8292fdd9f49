-- ===== src/Unicache/Lfu/Pairs.antt =====
-- The values of an encoder read from the side of a decoder, and bins that match key by key.
use omnipaxos_kv_project.Prelude.{
  ℕ, suc, ◌≡◌, refl, sym, ap, ◌∙◌, inl, inr, none, some, List, [], ◌∷◌, ◌++◌, true, Bool-cases,
  length, arith,
}
use omnipaxos_kv_project.Prelude.Assoc
use omnipaxos_kv_project.Prelude.Assoc.{Assoc, Eq, get-insert, get-remove}
use omnipaxos_kv_project.Unicache.OneToOne.{remove_absent}
use omnipaxos_kv_project.Unicache.Lfu.{ValueCounter}
use omnipaxos_kv_project.Unicache.Lfu.Sets.{has, without}

abbrev pub under : {V : Type 0} → V → ℕ → ValueCounter V
under v n = record { value = v; count = n }

abbrev pub mirrored : {K E : Type 0} → Assoc K (ValueCounter E) → Assoc E (ValueCounter K)
mirrored [] = []
mirrored ((k, x) ∷ m) = (x.value, under k x.count) ∷ mirrored m

pub length-mirrored : {K E : Type 0} (m : Assoc K (ValueCounter E)) → length (mirrored m) ≡ length m
length-mirrored [] = refl
length-mirrored ((k, x) ∷ m) = ap suc (length-mirrored m)

module _ {K E : Type 0} ⦃q : Eq K⦄ ⦃r : Eq E⦄ where
  abbrev pub IsPaired : Assoc K (ValueCounter E) → Type 0
  IsPaired [] = Unit
  IsPaired ((k, x) ∷ m) =
      (Assoc.get m k ≡ none) × (Assoc.get (mirrored m) x.value ≡ none) × IsPaired m

  pub get-mirrored :
      (m : Assoc K (ValueCounter E)) (k : K) (e : E) (n : ℕ)
      → IsPaired m
      → Assoc.get m k ≡ some (under e n)
      → Assoc.get (mirrored m) e ≡ some (under k n)
  unfolding Assoc.get
  get-mirrored [] k e n o h = cc
  get-mirrored ((j, x) ∷ m) k e n o h =
      ground (arith, get-mirrored m k e n o.2, q.beq_iff j k, r.beq_iff x.value e)

  pub mirrored-remove :
      (m : Assoc K (ValueCounter E)) (k : K) (e : E) (n : ℕ)
      → IsPaired m
      → Assoc.get m k ≡ some (under e n)
      → mirrored (Assoc.remove m k) ≡ Assoc.remove (mirrored m) e
  unfolding Assoc.get Assoc.remove
  mirrored-remove [] k e n o h = cc
  mirrored-remove ((j, x) ∷ m) k e n o h = ground (
    arith,
    mirrored-remove m k e n o.2,
    get-mirrored m k e n o.2,
    remove_absent m k,
    remove_absent (mirrored m) e,
    q.beq_iff j k,
    r.beq_iff x.value e,
  )

  pub remove-IsPaired :
      (m : Assoc K (ValueCounter E)) (k : K) (e : E) (n : ℕ)
      → IsPaired m
      → Assoc.get m k ≡ some (under e n)
      → IsPaired (Assoc.remove m k)
  unfolding Assoc.get Assoc.remove
  remove-IsPaired [] k e n o h = tt
  remove-IsPaired ((j, x) ∷ m) k e n o h = elim (Bool-cases (q.beq j k)) [
    | inl same ↦
        let gone = remove_absent m k (ground (arith, q.beq_iff j k, o.0)) in rw (same, gone) o.2
    | inr other ↦
        let rest : Assoc.get m k ≡ some (under e n) = rw other at h in
        rw other (
          ground (arith, get-remove m k j, o.0),
          rw (mirrored-remove m k e n o.2 rest)
              (ground (arith, get-remove (mirrored m) e x.value, o.1)),
          remove-IsPaired m k e n o.2 rest,
        )
  ]

  -- A key and a value that stand together
  abbrev pub Paired : Assoc K (ValueCounter E) → K → E → Type 0
  Paired m k e = (n : ℕ) × (Assoc.get m k ≡ some (under e n))

  pub beq-Paired :
      (m : Assoc K (ValueCounter E)) (k j : K) (e d : E)
      → IsPaired m
      → Paired m k e
      → Paired m j d
      → q.beq j k ≡ r.beq d e
  beq-Paired m k j e d o (n, at_k) (n', at_j) =
      let at_e = get-mirrored m k e n o at_k in
      let at_d = get-mirrored m j d n' o at_j in
      ground (arith, at_e, at_d, at_k, at_j, q.beq_iff j k, r.beq_iff d e)

module _ {K E : Type 0} where
  abbrev pub Match : (K → E → Type 0) → List K → List E → Type 0
  Match R [] [] = Unit
  Match R [] (e ∷ m) = ⊥
  Match R (k ∷ l) [] = ⊥
  Match R (k ∷ l) (e ∷ m) = R k e × Match R l m

  pub Match-append :
      (R : K → E → Type 0) (l : List K) (m : List E) (k : K) (e : E)
      → Match R l m
      → R k e
      → Match R (l ++ k ∷ []) (m ++ e ∷ [])
  Match-append R [] [] k e h last = (last, tt)
  Match-append R [] (y ∷ m) k e h last = elim h [ ]
  Match-append R (x ∷ l) [] k e h last = elim h [ ]
  Match-append R (x ∷ l) (y ∷ m) k e h last = (h.0, Match-append R l m k e h.1 last)

module _ {K E : Type 0} ⦃q : Eq K⦄ ⦃r : Eq E⦄ where
  pub Match-mono :
      (R S : K → E → Type 0) (l : List K) (m : List E)
      → ((k : K) (e : E) → has l k ≡ true → R k e → S k e)
      → Match R l m
      → Match S l m
  Match-mono R S [] [] f h = tt
  Match-mono R S [] (e ∷ m) f h = elim h [ ]
  Match-mono R S (k ∷ l) [] f h = elim h [ ]
  Match-mono R S (k ∷ l) (e ∷ m) f h = (
    f k e (rw (Assoc.beq_refl k) refl) h.0,
    Match-mono R S l m (λ j d there. f j d (ground (arith, there))) h.1,
  )

  pub Match-without :
      (R : K → E → Type 0) (l : List K) (m : List E) (k : K) (e : E)
      → ((j : K) (d : E) → R j d → q.beq j k ≡ r.beq d e)
      → Match R l m
      → Match R (without l k) (without m e)
  Match-without R [] [] k e f h = tt
  Match-without R [] (d ∷ m) k e f h = elim h [ ]
  Match-without R (j ∷ l) [] k e f h = elim h [ ]
  Match-without R (j ∷ l) (d ∷ m) k e f h =
      let rest = Match-without R l m k e f h.1 in
      elim (Bool-cases (q.beq j k)) [
        | inl same ↦ rw (same, sym (f j d h.0) ∙ same) rest
        | inr apart ↦ rw (apart, sym (f j d h.0) ∙ apart) (h.0, rest)
      ]
