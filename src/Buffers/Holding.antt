-- ===== src/Buffers/Holding.antt =====
-- The requests that the buffers hold, by their ids: none is lost and none is made up.
use mathlib.Core.List.Perm
use mathlib.Core.List.{map-append, perm_middle}
use omnipaxos_kv_project.Prelude.{
  ℕ, ap, ◌≡◌, refl, subst, sym, ◌∙◌, Option, none, some, List, [], ◌∷◌, ◌++◌, map, Perm, Bool, true,
  false, arith, inl, inr, Option-cases, Bool-cases, some-injective, some-ne-none, ◌==◌, ==_iff,
  append_assoc,
}
use omnipaxos_kv_project.Prelude.Assoc
use omnipaxos_kv_project.Prelude.Assoc.{Assoc, nat_eq}
use omnipaxos_kv_project.Prelude.Heap.{select, select-perm}
use omnipaxos_kv_project.Request.{Request}
use omnipaxos_kv_project.Buffers.{
  Buffers, is_eligible, insert, insert_late, free_from_late, free_removed, take_next, push_early,
}
use omnipaxos_kv_project.Buffers.Freeing.{free_from_late-found}
use omnipaxos_kv_project.Buffers.Order.{take_next-cons, take_next-nil}

module _ {R : Type 0} ⦃q : Request R⦄ where
  abbrev pub late_ids : Assoc ℕ R → List ℕ
  late_ids = map λ e. q.get_id e.1

  abbrev pub ids : Buffers R → List ℕ
  ids b = map q.get_id b.early ++ late_ids b.late

  -- A late request stands under its own id, and under no other.
  abbrev pub IsKeyed : Assoc ℕ R → Type 0
  IsKeyed [] = Unit
  IsKeyed ((k, r) ∷ m) = (q.get_id r ≡ k) × (Assoc.get m k ≡ none) × IsKeyed m

  remove_absent : (m : Assoc ℕ R) (k : ℕ) → Assoc.get m k ≡ none → Assoc.remove m k ≡ m
  unfolding Assoc.get Assoc.remove
  remove_absent [] k h = refl
  remove_absent ((j, r) ∷ m) k h = ground (arith, remove_absent m k)

  pub remove-IsKeyed : (m : Assoc ℕ R) (k : ℕ) → IsKeyed m → IsKeyed (Assoc.remove m k)
  unfolding Assoc.remove
  remove-IsKeyed [] k h = tt
  remove-IsKeyed ((j, r) ∷ m) k h = elim (Bool-cases (j == k)) [
    | inl e ↦ rw e (remove-IsKeyed m k h.2)
    | inr e ↦ rw e (h.0, ground (arith, Assoc.get-remove m k j, h.1), remove-IsKeyed m k h.2)
  ]

  late_ids-remove :
      (m : Assoc ℕ R) (k : ℕ) (r : R)
      → IsKeyed m
      → Assoc.get m k ≡ some r
      → Perm (late_ids m) (q.get_id r ∷ late_ids (Assoc.remove m k))
  unfolding Assoc.get Assoc.remove
  late_ids-remove [] k r h e = cc
  late_ids-remove ((j, x) ∷ m) k r h e = elim (Bool-cases (j == k)) [
    | inl f ↦ rw f (same ((==_iff j k).0 f))
    | inr f ↦ rw f (
        Perm.trans (Perm.cons (q.get_id x) (late_ids-remove m k r h.2 (rw f at e)))
          (Perm.swap _ _ _))
  ]
    where
      same : j ≡ k → Perm (q.get_id x ∷ late_ids m) (q.get_id r ∷ late_ids (Assoc.remove m k))
      same jk =
          let gone = remove_absent m k (subst (λ i. Assoc.get m i ≡ none) jk h.1) in
          let found : x ≡ r = ground arith in rw (gone, found) (Perm.refl (q.get_id r ∷ late_ids m))

  pub insert-IsKeyed :
      (m : Assoc ℕ R) (r : R)
      → Assoc.get m (q.get_id r) ≡ none
      → IsKeyed m
      → IsKeyed (Assoc.insert m (q.get_id r) r)
  unfolding Assoc.insert
  insert-IsKeyed m r fresh h = rw (remove_absent m (q.get_id r) fresh) (refl, fresh, h)

  ids-push_early : (b : Buffers R) (r : R) → Perm (ids (push_early b r)) (q.get_id r ∷ ids b)
  ids-push_early b r =
      rw
        (
          map-append q.get_id b.early (r ∷ []),
          append_assoc (map q.get_id b.early) (q.get_id r ∷ []) (late_ids b.late),
        )
        (perm_middle (map q.get_id b.early) (late_ids b.late))

  ids-insert_late :
      (b : Buffers R) (r : R) (im_leader : Bool) (fresh : ℕ)
      → Assoc.get b.late (q.get_id r) ≡ none
      → Perm (ids (insert_late b r im_leader fresh).0) (q.get_id r ∷ ids b)
  unfolding Assoc.insert
  ids-insert_late b r true fresh new =
      subst (λ i. Perm (ids (push_early b (q.set_deadline r fresh))) (i ∷ ids b))
        (q.get_id-set_deadline r fresh) (ids-push_early b (q.set_deadline r fresh))
  ids-insert_late b r false fresh new =
      rw (remove_absent b.late (q.get_id r) new)
        (perm_middle (map q.get_id b.early) (late_ids b.late))

  -- An insertion of a request whose id is not in the late buffer adds it to one of the buffers, once,
  -- and takes none out.
  pub ids-insert :
      (b : Buffers R) (r : R) (im_leader : Bool) (fresh ch : ℕ)
      → Assoc.get b.late (q.get_id r) ≡ none
      → Perm (ids (insert b r im_leader fresh ch).0) (q.get_id r ∷ ids b)
  unfolding insert
  ids-insert b r im_leader fresh ch new =
      let b' = record b { notifiers = Assoc.insert b.notifiers (q.get_id r) ch } in
      elim (Bool-cases (is_eligible b.last_released_deadline (q.get_deadline r))) [
        | inl e ↦ rw e (ids-push_early b' r)
        | inr e ↦ rw e (ids-insert_late b' r im_leader fresh new)
      ]

  free_from_late-absent :
      (b : Buffers R) (id d : ℕ) → Assoc.get b.late id ≡ none → free_from_late b id d ≡ b
  unfolding free_from_late
  free_from_late-absent b id d e =
      ap (λ o. free_removed (record b { late = Assoc.remove b.late id }) o d) e
      ∙ ap (λ m. record b { late = m }) (remove_absent b.late id e)

  -- Where each late request stands under its own id, once, freeing an id leaves the buffers with the
  -- same requests, by their ids.
  pub ids-free_from_late :
      (b : Buffers R) (id d : ℕ) → IsKeyed b.late → Perm (ids (free_from_late b id d)) (ids b)
  ids-free_from_late b id d h = elim (Option-cases (Assoc.get b.late id)) [
    | inl e ↦ rw (free_from_late-absent b id d e) (Perm.refl (ids b))
    | inr (r, e) ↦
        let removed = record b { late = Assoc.remove b.late id } in
        let early = map q.get_id b.early in
        rw (free_from_late-found b id d r e) (
          Perm.trans (ids-push_early removed (q.set_deadline r d)) (
            rw (q.get_id-set_deadline r d) (
              Perm.symm (
                Perm.trans (Perm.append_left early (late_ids-remove b.late id r h e))
                  (perm_middle early (late_ids removed.late))))))
  ]

  taken-perm :
      (b b' : Buffers R) (ch : Option ℕ) (r : R) (l : List R)
      → b.early ≡ l
      → take_next b ≡ some (b', ch, r)
      → Perm (ids b) (q.get_id r ∷ ids b')
  taken-perm b b' ch r [] e h = absurd (some-ne-none (sym h ∙ take_next-nil b e))
  taken-perm b b' ch r (x ∷ xs) e h =
      let popped = select q.get_deadline x xs in
      let same = some-injective (sym h ∙ take_next-cons b x xs e) in
      let queue =
        subst (λ l. Perm l (popped.0 ∷ popped.1)) (sym e) (select-perm q.get_deadline x xs) in
      subst (λ t. Perm (ids b) (q.get_id t.2 ∷ ids t.0)) (sym same)
        (Perm.append (Perm.map q.get_id queue) (Perm.refl (late_ids b.late)))

  -- When a request is released, it leaves the buffers, and nothing else does.
  pub ids-take_next :
      (b b' : Buffers R) (ch : Option ℕ) (r : R)
      → take_next b ≡ some (b', ch, r)
      → Perm (ids b) (q.get_id r ∷ ids b')
  ids-take_next b b' ch r e = taken-perm b b' ch r b.early refl e
