-- ===== src/Unicache/Lfu/StaysAlike.antt =====
-- An encoder and a decoder that are alike stay so: when a key is used, when one is new, and when the
-- least used one leaves.
use omnipaxos_kv_project.Prelude.{
  ℕ, ◌≡◌, refl, sym, ap, subst, ◌∙◌, inl, inr, none, some, some-injective, List, ◌∷◌, true, false,
  Bool-cases, arith,
}
use omnipaxos_kv_project.Prelude.Assoc
use omnipaxos_kv_project.Prelude.Assoc.{Assoc, Eq, nat_eq, get-insert, get-remove}
use omnipaxos_kv_project.Prelude.Words.{add64}
use omnipaxos_kv_project.Unicache.OneToOne.{remove_absent, get-remove_self, beq-absent}
use omnipaxos_kv_project.Unicache.Lfu.{
  LinkedHashSet, LfuCache, ValueCounter, inc, moved, evicted, inserted,
}
use omnipaxos_kv_project.Unicache.Lfu.Bins.{has_count, in_bin}
use omnipaxos_kv_project.Unicache.Lfu.Sets.{IsLinkedHashSet}
use omnipaxos_kv_project.Unicache.Lfu.Pairs.{
  under, mirrored, IsPaired, mirrored-remove, remove-IsPaired, Paired, Match,
}
use omnipaxos_kv_project.Unicache.Lfu.Mirror.{
  BinsMatch-mono, insert-AllMatch, Alike, add_to_bin-AllMatch, left-Match,
}

module _ {K E : Type 0} ⦃q : Eq K⦄ ⦃r : Eq E⦄ (H : LinkedHashSet K) (G : LinkedHashSet E)
    (LH : IsLinkedHashSet H) (LG : IsLinkedHashSet G) where
  -- A use of a key and of its value
  pub moved-Alike :
      (c : LfuCache H E) (d : LfuCache G K) (k : K) (e : E) (n : ℕ) (s : H.Set) (t : G.Set)
      → Alike H G c d
      → Assoc.get c.values k ≡ some (under e n)
      → Assoc.get c.frequency_bin n ≡ some s
      → Assoc.get d.frequency_bin n ≡ some t
      → Alike H G (moved H c k (under e n) s) (moved G d e (under k n) t)
  unfolding Assoc.insert
  moved-Alike c d k e n s t a found at_n at_n' =
      let m = c.values in
      let m' = Assoc.insert m k (inc (under e n)) in
      let same = mirrored-remove m k e n a.paired found in
      let left = left-Match H G LH LG c d k e n s t a found at_n at_n' in
      let kept =
        insert-AllMatch H G m c.frequency_bin d.frequency_bin n (H.remove s k) (G.remove t e) a.bins
          left in
      let paired : IsPaired m' = (
        get-remove_self m k,
        rw same (get-remove_self (mirrored m) e),
        remove-IsPaired m k e n a.paired found,
      ) in
      let now : Paired m' k e =
        (add64 n 1, rw (get-insert m k k (inc (under e n)), Assoc.beq_refl k) refl) in
      let still = λ (j : K) (f : E) (p : Paired m j f). used_pair m k e n j f found p in
      record {
        paired = paired;
        values = rw (a.values, same) refl;
        bins =
            add_to_bin-AllMatch H G LH LG m' (Assoc.insert c.frequency_bin n (H.remove s k))
              (Assoc.insert d.frequency_bin n (G.remove t e)) (add64 n 1) k e paired
              (λ i. BinsMatch-mono H G m m' _ _ (λ j f there p. still j f p) (kept i)) now;
      }
    where
      used_pair :
          (m : Assoc K (ValueCounter E)) (k : K) (e : E) (n : ℕ) (j : K) (f : E)
          → Assoc.get m k ≡ some (under e n)
          → Paired m j f
          → Paired (Assoc.insert m k (inc (under e n))) j f
      used_pair m k e n j f found p = elim (Bool-cases (q.beq k j)) [
        | inl same ↦
            let equal = (q.beq_iff k j).0 same in
            let at_j = subst (λ i. Assoc.get m i ≡ some (under e n)) equal found in
            let value : e ≡ f = ap (λ x. x.value) (some-injective (sym at_j ∙ p.1)) in
            (
              add64 n 1,
              rw (get-insert m k j (inc (under e n)), same)
                  (ap (λ v. some (under v (add64 n 1))) value),
            )
        | inr apart ↦ (p.0, rw (get-insert m k j (inc (under e n)), apart) p.1)
      ]

  -- A new key with a new value
  pub inserted-Alike :
      (c : LfuCache H E) (d : LfuCache G K) (k : K) (e : E)
      → Alike H G c d
      → Assoc.get c.values k ≡ none
      → Assoc.get d.values e ≡ none
      → Alike H G (inserted H c k e) (inserted G d e k)
  unfolding Assoc.insert
  inserted-Alike c d k e a no_key no_value =
      let m = c.values in
      let m' = Assoc.insert m k (under e 1) in
      let gone = remove_absent m k no_key in
      let gone' = remove_absent d.values e no_value in
      let missing : Assoc.get (mirrored m) e ≡ none =
        ap (λ w. Assoc.get w e) (sym a.values) ∙ no_value in
      let paired : IsPaired m' = rw gone (no_key, missing, a.paired) in
      let now : Paired m' k e = (1, rw (get-insert m k k (under e 1), Assoc.beq_refl k) refl) in
      let still = λ (j : K) (f : E) (p : Paired m j f).
        let apart = beq-absent m k j (under f p.0) no_key p.1 in
        let pair : Paired m' j f = (p.0, rw (get-insert m k j (under e 1), apart) p.1) in pair in
      record {
        paired = paired;
        values = rw (gone, gone') (ap (◌∷◌ (e, under k 1)) a.values);
        bins =
            add_to_bin-AllMatch H G LH LG m' c.frequency_bin d.frequency_bin 1 k e paired
              (λ i. BinsMatch-mono H G m m' _ _ (λ j f there p. still j f p) (a.bins i)) now;
      }

  -- The keys that are used least leave both. That no other key of a bin is the one that leaves is
  -- known of the encoder.
  pub evicted-Alike :
      (c : LfuCache H E) (d : LfuCache G K) (k : K) (e : E) (n : ℕ) (s s' : H.Set) (t t' : G.Set)
      (rest : List K) (rest' : List E)
      → Alike H G c d
      → d.min_frequency ≡ c.min_frequency
      → Assoc.get c.values k ≡ some (under e n)
      → Assoc.get c.frequency_bin c.min_frequency ≡ some s
      → Assoc.get d.frequency_bin c.min_frequency ≡ some t
      → H.iter s ≡ k ∷ rest
      → G.iter t ≡ e ∷ rest'
      → H.iter s' ≡ rest
      → G.iter t' ≡ rest'
      → ((i : ℕ) (j : K)
          → in_bin H (Assoc.get (evicted H c (k, s')).0.frequency_bin i) j
            ≡ has_count (Assoc.get (evicted H c (k, s')).0.values j) i)
      → Alike H G (evicted H c (k, s')).0 (evicted G d (e, t')).0
  evicted-Alike c d k e n s s' t t' rest rest' a same_min found at_min at_min' front front' left
        left' binned =
      let m = c.values in
      let m' = Assoc.remove m k in
      let min = c.min_frequency in
      let b = Assoc.insert c.frequency_bin min s' in
      let matched : Match (Paired m) (H.iter s) (G.iter t) = rw (at_min, at_min') at (a.bins min) in
      let here : Match (Paired m) (k ∷ rest) (e ∷ rest') = rw (front, front') at matched in
      let popped =
        insert-AllMatch H G m c.frequency_bin d.frequency_bin min s' t' a.bins
          (rw (left, left') here.1) in
      let still =
        λ (i : ℕ) (j : K) (f : E) (there : in_bin H (Assoc.get b i) j ≡ true) (p : Paired m j f).
          let apart = other i j (sym (binned i j) ∙ there) in
          let pair : Paired m' j f = (p.0, rw (get-remove m k j, apart) p.1) in pair in
      record {
        paired = remove-IsPaired m k e n a.paired found;
        values = rw a.values (sym (mirrored-remove m k e n a.paired found));
        bins =
            rw same_min
              (λ i. BinsMatch-mono H G m m' _ _ (λ j f there p. still i j f there p) (popped i));
      }
    where
      other :
          (i : ℕ) (j : K)
          → has_count (Assoc.get (Assoc.remove c.values k) j) i ≡ true
          → q.beq k j ≡ false
      other i j counted = ground (arith, get-remove c.values k j)
