-- ===== src/Buffers/Freeing.antt =====
-- What freeing a late request does to the order of the releases.
use omnipaxos_kv_project.Prelude.{
  ℕ, ap, ◌∙◌, ◌≢◌, ◌≤◌, ◌<◌, ◌≡◌, refl, subst, sym, Option, some, List, [], ◌∷◌, ◌++◌, arith, All,
}
use omnipaxos_kv_project.Prelude.Assoc
use omnipaxos_kv_project.Prelude.Assoc.{nat_eq}
use omnipaxos_kv_project.Prelude.Heap.{select, select_min}
use omnipaxos_kv_project.Request.{Request}
use omnipaxos_kv_project.Buffers.{
  Buffers, free_from_late, free_removed, take_next, push_early, release,
}
use omnipaxos_kv_project.Buffers.Order.{take_next-cons}

module _ {R : Type 0} ⦃q : Request R⦄ where
  All-last : (P : R → Type 0) (xs : List R) (y : R) → All P (xs ++ y ∷ []) → P y
  All-last P [] y h = h.0
  All-last P (x ∷ xs) y h = All-last P xs y h.1

  append-ne-nil : (xs : List R) (y : R) → xs ++ y ∷ [] ≢ []
  append-ne-nil [] y e = cc
  append-ne-nil (x ∷ xs) y e = cc

  -- A queue with the deadline `d` at its end releases none after it.
  take_next-le :
      (b : Buffers R) (xs ys : List R) (y : R)
      → b.early ≡ xs ++ y ∷ []
      → b.early ≡ ys
      → (b' : Buffers R) × (ch : Option ℕ) × (r : R) × (take_next b ≡ some (b', ch, r))
        × (q.get_deadline r ≤ q.get_deadline y)
  take_next-le b xs [] y e f = absurd (append-ne-nil xs y (sym e ∙ f))
  take_next-le b xs (z ∷ zs) y e f =
      let popped = select q.get_deadline z zs in
      let (b', ch, r) = release b popped in
      (
        b',
        ch,
        r,
        take_next-cons b z zs f,
        All-last (λ a. q.get_deadline popped.0 ≤ q.get_deadline a) xs y
            (subst (All (λ a. q.get_deadline popped.0 ≤ q.get_deadline a)) (sym f ∙ e)
              (select_min q.get_deadline z zs)),
      )

  pub free_from_late-found :
      (b : Buffers R) (id d : ℕ) (r : R)
      → Assoc.get b.late id ≡ some r
      → free_from_late b id d
        ≡ push_early (record b { late = Assoc.remove b.late id }) (q.set_deadline r d)
  unfolding free_from_late
  free_from_late-found b id d r found =
      ap (λ o. free_removed (record b { late = Assoc.remove b.late id }) o d) found

  -- The buffers do not check this themselves: when a late request is freed with a deadline before
  -- the last one released, the next request released exists and has a deadline before that last one
  -- too.
  pub freed_out_of_order :
      (b : Buffers R) (id d last : ℕ) (r : R)
      → b.last_released_deadline ≡ some last
      → Assoc.get b.late id ≡ some r
      → d < last
      → (b' : Buffers R) × (ch : Option ℕ) × (r' : R) × (take_next (free_from_late b id d)
          ≡ some (b', ch, r'))
        × (q.get_deadline r' < last)
  freed_out_of_order b id d last r released found before =
      let removed = record b { late = Assoc.remove b.late id } in
      let (b', ch, r', next, first) =
        take_next-le (push_early removed (q.set_deadline r d)) b.early _ (q.set_deadline r d) refl
          refl in
      (
        b',
        ch,
        r',
        rw (free_from_late-found b id d r found) next,
        omega (arith, q.get_deadline-set_deadline r d),
      )
