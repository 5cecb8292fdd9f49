-- ===== src/Unicache/Lfu/Mirror.antt =====
-- An encoder and a decoder whose values are the same from either side, with their keys in the same
-- bins in the same order
use omnipaxos_kv_project.Prelude.{
  ℕ, ◌≡◌, refl, sym, ◌∙◌, inl, inr, Option, none, some, List, [], ◌∷◌, true, Bool-cases, ◌==◌,
}
use omnipaxos_kv_project.Prelude.Assoc
use omnipaxos_kv_project.Prelude.Assoc.{Assoc, Eq, nat_eq, get-insert, get-remove}
use omnipaxos_kv_project.Unicache.Lfu.{
  LinkedHashSet, LfuCache, ValueCounter, or_default, add_to_bin,
}
use omnipaxos_kv_project.Unicache.Lfu.Bins.{in_bin}
use omnipaxos_kv_project.Unicache.Lfu.Sets.{without, IsLinkedHashSet}
use omnipaxos_kv_project.Unicache.Lfu.Pairs.{
  under, mirrored, IsPaired, Paired, beq-Paired, Match, Match-append, Match-mono, Match-without,
}

module _ {K E : Type 0} ⦃q : Eq K⦄ ⦃r : Eq E⦄ (H : LinkedHashSet K) (G : LinkedHashSet E) where
  abbrev pub BinsMatch : Assoc K (ValueCounter E) → Option H.Set → Option G.Set → Type 0
  BinsMatch m none none = Unit
  BinsMatch m none (some t) = ⊥
  BinsMatch m (some s) none = ⊥
  BinsMatch m (some s) (some t) = Match (Paired m) (H.iter s) (G.iter t)

  pub BinsMatch-mono :
      (m m' : Assoc K (ValueCounter E)) (o : Option H.Set) (p : Option G.Set)
      → ((k : K) (e : E) → in_bin H o k ≡ true → Paired m k e → Paired m' k e)
      → BinsMatch m o p
      → BinsMatch m' o p
  BinsMatch-mono m m' none none f h = tt
  BinsMatch-mono m m' none (some t) f h = elim h [ ]
  BinsMatch-mono m m' (some s) none f h = elim h [ ]
  BinsMatch-mono m m' (some s) (some t) f h =
      Match-mono (Paired m) (Paired m') (H.iter s) (G.iter t) f h

  -- The bins of both, number by number
  abbrev pub AllMatch : Assoc K (ValueCounter E) → Assoc ℕ H.Set → Assoc ℕ G.Set → Type 0
  AllMatch m b b' = (n : ℕ) → BinsMatch m (Assoc.get b n) (Assoc.get b' n)

  pub insert-AllMatch :
      (m : Assoc K (ValueCounter E)) (b : Assoc ℕ H.Set) (b' : Assoc ℕ G.Set) (n : ℕ) (s : H.Set)
      (t : G.Set)
      → AllMatch m b b'
      → Match (Paired m) (H.iter s) (G.iter t)
      → AllMatch m (Assoc.insert b n s) (Assoc.insert b' n t)
  insert-AllMatch m b b' n s t all here i = elim (Bool-cases (n == i)) [
    | inl e ↦ rw (get-insert b n i s, get-insert b' n i t, e) here
    | inr e ↦ rw (get-insert b n i s, get-insert b' n i t, e) (all i)
  ]

  pub record Alike (c : LfuCache H E) (d : LfuCache G K) : Type 0 where
    pub paired : IsPaired c.values
    pub values : d.values ≡ mirrored c.values
    pub bins : AllMatch c.values c.frequency_bin d.frequency_bin

module _ {K E : Type 0} ⦃q : Eq K⦄ ⦃r : Eq E⦄ (H : LinkedHashSet K) (G : LinkedHashSet E)
    (LH : IsLinkedHashSet H) (LG : IsLinkedHashSet G) where
  Match-or_default :
      (m : Assoc K (ValueCounter E)) (o : Option H.Set) (p : Option G.Set)
      → BinsMatch H G m o p
      → Match (Paired m) (H.iter (or_default H o)) (G.iter (or_default G p))
  Match-or_default m none none h = rw (LH.default_lem, LG.default_lem) tt
  Match-or_default m none (some t) h = elim h [ ]
  Match-or_default m (some s) none h = elim h [ ]
  Match-or_default m (some s) (some t) h = h

  pub add_to_bin-AllMatch :
      (m : Assoc K (ValueCounter E)) (b : Assoc ℕ H.Set) (b' : Assoc ℕ G.Set) (n : ℕ) (k : K)
      (e : E)
      → IsPaired m
      → AllMatch H G m b b'
      → Paired m k e
      → AllMatch H G m (add_to_bin H b n k) (add_to_bin G b' n e)
  add_to_bin-AllMatch m b b' n k e o all pair =
      let s = or_default H (Assoc.get b n) in
      let t = or_default G (Assoc.get b' n) in
      let old = Match-or_default m (Assoc.get b n) (Assoc.get b' n) (all n) in
      let left =
        Match-without (Paired m) (H.iter s) (G.iter t) k e
          (λ j d there. beq-Paired m k j e d o pair there) old in
      insert-AllMatch H G m b b' n (H.insert s k) (G.insert t e) all (
        rw (LH.insert_lem s k, LG.insert_lem t e)
          (Match-append (Paired m) (without (H.iter s) k) (without (G.iter t) e) k e left pair))

  -- A key and its value leave their bins.
  pub left-Match :
      (c : LfuCache H E) (d : LfuCache G K) (k : K) (e : E) (n : ℕ) (s : H.Set) (t : G.Set)
      → Alike H G c d
      → Assoc.get c.values k ≡ some (under e n)
      → Assoc.get c.frequency_bin n ≡ some s
      → Assoc.get d.frequency_bin n ≡ some t
      → Match (Paired c.values) (H.iter (H.remove s k)) (G.iter (G.remove t e))
  left-Match c d k e n s t a found at_n at_n' =
      let m = c.values in
      let here : Match (Paired m) (H.iter s) (G.iter t) = rw (at_n, at_n') at (a.bins n) in
      rw (LH.remove_lem s k, LG.remove_lem t e)
        (Match-without (Paired m) (H.iter s) (G.iter t) k e
          (λ j d there. beq-Paired m k j e d a.paired (n, found) there) here)

  pub is_empty-Match :
      (m : Assoc K (ValueCounter E)) (s : H.Set) (t : G.Set)
      → Match (Paired m) (H.iter s) (G.iter t)
      → H.is_empty s ≡ G.is_empty t
  is_empty-Match m s t h = cases (H.iter s) (G.iter t) refl refl h
    where
      cases :
          (l : List K) (l' : List E)
          → H.iter s ≡ l
          → G.iter t ≡ l'
          → Match (Paired m) l l'
          → H.is_empty s ≡ G.is_empty t
      cases [] [] e e' h = LH.empty s e ∙ sym (LG.empty t e')
      cases [] (x ∷ l') e e' h = elim h [ ]
      cases (x ∷ l) [] e e' h = elim h [ ]
      cases (x ∷ l) (y ∷ l') e e' h = LH.not_empty s x l e ∙ sym (LG.not_empty t y l' e')

  -- The first of a bin of the encoder has its value at the front of the decoder's bin.
  pub front-Match :
      (m : Assoc K (ValueCounter E)) (s : H.Set) (p : Option G.Set) (k : K) (rest : List K)
      → BinsMatch H G m (some s) p
      → H.iter s ≡ k ∷ rest
      → (t : G.Set) × (e : E) × (rest' : List E) × (p ≡ some t)
        × (G.iter t ≡ e ∷ rest')
        × Paired m k e
  front-Match m s none k rest h front = elim h [ ]
  front-Match m s (some t) k rest h front = first (G.iter t) refl (rw front at h)
    where
      first :
          (l : List E)
          → G.iter t ≡ l
          → Match (Paired m) (k ∷ rest) l
          → (t' : G.Set) × (e : E) × (rest' : List E) × (some t ≡ some t')
            × (G.iter t' ≡ e ∷ rest')
            × Paired m k e
      first [] same h = elim h [ ]
      first (e ∷ rest') same h = (t, e, rest', refl, same, h.0)
