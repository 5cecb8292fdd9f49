-- ===== src/Buffers/Order.antt =====
-- The order in which the buffers release requests.
use omnipaxos_kv_project.Prelude.{
  ℕ, ap, ◌≤◌, ◌≡◌, refl, subst, sym, Option, none, some, List, [], ◌∷◌, map, Bool, true, false,
  arith, All, All-mono, All-append, Ascending, inl, inr, Bool-cases,
}
use omnipaxos_kv_project.Prelude.Assoc
use omnipaxos_kv_project.Prelude.Assoc.{nat_eq}
use omnipaxos_kv_project.Prelude.Heap
use omnipaxos_kv_project.Prelude.Heap.{select, select_least, select_min, All-select}
use omnipaxos_kv_project.Request.{Request}
use omnipaxos_kv_project.Buffers.{
  Buffers, is_eligible, insert, free_from_late, free_removed, take_next, next_of, push_early,
  release,
}

-- No release stands after the deadline `d`.
abbrev pub After : Option ℕ → ℕ → Type 0
After none d = Unit
After (some last) d = last ≤ d

After-trans : (o : Option ℕ) (d e : ℕ) → After o d → d ≤ e → After o e
After-trans none d e h k = tt
After-trans (some last) d e h k = omega arith

eligible-After : (o : Option ℕ) (d : ℕ) → is_eligible o d ≡ true → After o d
eligible-After none d h = tt
eligible-After (some last) d h = ground arith

-- The calls on the buffers
pub data Op (R : Type 0) : Type 0 where
  inserts : R → Bool → ℕ → ℕ → Op R
  frees : ℕ → ℕ → Op R
  takes : Op R

module _ {R : Type 0} ⦃q : Request R⦄ where
  -- What is queued comes after what was released.
  abbrev pub IsOrdered : Buffers R → Type 0
  IsOrdered b = All (λ r. After b.last_released_deadline (q.get_deadline r)) b.early

  -- A deadline that is given anew, by a leader or to a late request, is not before the last one
  -- released.
  abbrev pub Admissible : Buffers R → Op R → Type 0
  Admissible b (inserts r im_leader fresh ch) = After b.last_released_deadline fresh
  Admissible b (frees id new_deadline) = After b.last_released_deadline new_deadline
  Admissible b takes = Unit

  push_early-IsOrdered :
      (b : Buffers R) (r : R)
      → IsOrdered b
      → After b.last_released_deadline (q.get_deadline r)
      → IsOrdered (push_early b r)
  push_early-IsOrdered b r h a = All-append _ b.early (r ∷ []) h (a, tt)

  renewed :
      (b : Buffers R) (r : R) (d : ℕ)
      → IsOrdered b
      → After b.last_released_deadline d
      → IsOrdered (push_early b (q.set_deadline r d))
  renewed b r d h a =
      push_early-IsOrdered b (q.set_deadline r d) h
        (subst (After b.last_released_deadline) (sym (q.get_deadline-set_deadline r d)) a)

  insert-IsOrdered :
      (b : Buffers R) (r : R) (im_leader : Bool) (fresh ch : ℕ)
      → IsOrdered b
      → After b.last_released_deadline fresh
      → IsOrdered (insert b r im_leader fresh ch).0
  unfolding insert
  insert-IsOrdered b r true fresh ch h a =
      elim (Bool-cases (is_eligible b.last_released_deadline (q.get_deadline r))) [
        | inl e ↦ rw e (push_early-IsOrdered b r h (eligible-After _ _ e))
        | inr e ↦ rw e (renewed b r fresh h a)
      ]
  insert-IsOrdered b r false fresh ch h a =
      elim (Bool-cases (is_eligible b.last_released_deadline (q.get_deadline r))) [
        | inl e ↦ rw e (push_early-IsOrdered b r h (eligible-After _ _ e))
        | inr e ↦ rw e h
      ]

  free_removed-IsOrdered :
      (b : Buffers R) (o : Option R) (d : ℕ)
      → IsOrdered b
      → After b.last_released_deadline d
      → IsOrdered (free_removed b o d)
  free_removed-IsOrdered b none d h a = h
  free_removed-IsOrdered b (some r) d h a = renewed b r d h a

  free_from_late-IsOrdered :
      (b : Buffers R) (id d : ℕ)
      → IsOrdered b
      → After b.last_released_deadline d
      → IsOrdered (free_from_late b id d)
  unfolding free_from_late
  free_from_late-IsOrdered b id d h a =
      free_removed-IsOrdered (record b { late = Assoc.remove b.late id }) (Assoc.get b.late id) d h
        a

  pub take_next-nil : (b : Buffers R) → b.early ≡ [] → take_next b ≡ none
  unfolding take_next Heap.pop
  take_next-nil b e = ap (λ l. next_of b (Heap.pop q.get_deadline l)) e

  pub take_next-cons :
      (b : Buffers R) (x : R) (xs : List R)
      → b.early ≡ x ∷ xs
      → take_next b ≡ some (release b (select q.get_deadline x xs))
  unfolding take_next Heap.pop
  take_next-cons b x xs e = ap (λ l. next_of b (Heap.pop q.get_deadline l)) e

  -- The buffers after a call, and the request that it released
  abbrev pub after_take : Buffers R → Option (Buffers R × Option ℕ × R) → Buffers R × Option R
  after_take b none = (b, none)
  after_take b (some (b', ch, r)) = (b', some r)

  unfoldable pub step : Buffers R → Op R → Buffers R × Option R
  step b (inserts r im_leader fresh ch) = ((insert b r im_leader fresh ch).0, none)
  step b (frees id new_deadline) = (free_from_late b id new_deadline, none)
  step b takes = after_take b (take_next b)

  -- What calls release, in their order
  abbrev pub with_released : Option R → List R → List R
  with_released none rs = rs
  with_released (some r) rs = r ∷ rs

  unfoldable pub released : Buffers R → List (Op R) → List R
  released b [] = []
  released b (op ∷ ops) = with_released (step b op).1 (released (step b op).0 ops)

  abbrev pub AllAdmissible : Buffers R → List (Op R) → Type 0
  AllAdmissible b [] = Unit
  AllAdmissible b (op ∷ ops) = Admissible b op × AllAdmissible (step b op).0 ops

  pub step-take-cons :
      (b : Buffers R) (x : R) (xs : List R)
      → b.early ≡ x ∷ xs
      → step b takes
        ≡ ((release b (select q.get_deadline x xs)).0, some (select q.get_deadline x xs).0)
  unfolding step
  step-take-cons b x xs e = ap (after_take b) (take_next-cons b x xs e)

  pub step-take-nil : (b : Buffers R) → b.early ≡ [] → step b takes ≡ (b, none)
  unfolding step
  step-take-nil b e = ap (after_take b) (take_next-nil b e)

  abbrev IsReleasedInOrder : Option ℕ → List R → Type 0
  IsReleasedInOrder last rs =
      All (λ r. After last (q.get_deadline r)) rs × Ascending (map q.get_deadline rs)

  -- The rest comes after the request `m`, and that after what went before.
  cons-in-order :
      (last : Option ℕ) (m : R) (rs : List R)
      → After last (q.get_deadline m)
      → IsReleasedInOrder (some (q.get_deadline m)) rs
      → IsReleasedInOrder last (m ∷ rs)
  cons-in-order last m rs a (above, ascending) =
      ((a, All-mono _ _ rs (λ r h. After-trans last _ _ a h) above), (All-map rs above, ascending))
    where
      All-map :
          (xs : List R)
          → All (λ r. q.get_deadline m ≤ q.get_deadline r) xs
          → All (λ d. q.get_deadline m ≤ d) (map q.get_deadline xs)
      All-map [] h = tt
      All-map (x ∷ xs) h = (h.0, All-map xs h.1)

  last-insert :
      (b : Buffers R) (r : R) (im_leader : Bool) (fresh ch : ℕ)
      → (insert b r im_leader fresh ch).0.last_released_deadline ≡ b.last_released_deadline
  unfolding insert
  last-insert b r im_leader fresh ch = ground arith

  last-free_from_late :
      (b : Buffers R) (id d : ℕ)
      → (free_from_late b id d).last_released_deadline ≡ b.last_released_deadline
  unfolding free_from_late
  last-free_from_late b id d = ground arith

  release-IsOrdered :
      (b : Buffers R) (x : R) (xs : List R) → IsOrdered (release b (select q.get_deadline x xs)).0
  release-IsOrdered b x xs = (select_least q.get_deadline x xs).0

  step-IsOrdered :
      (b : Buffers R) (op : Op R) → IsOrdered b → Admissible b op → IsOrdered (step b op).0
  step-IsOrdered b (inserts r im_leader fresh ch) h a =
      unfold step in insert-IsOrdered b r im_leader fresh ch h a
  step-IsOrdered b (frees id d) h a = unfold step in free_from_late-IsOrdered b id d h a
  step-IsOrdered b takes h a = go b.early refl
    where
      go : (l : List R) → b.early ≡ l → IsOrdered (step b takes).0
      go [] e = rw (step-take-nil b e) h
      go (x ∷ xs) e = rw (step-take-cons b x xs e) (release-IsOrdered b x xs)

  step-in-order :
      (b : Buffers R) (op : Op R) (rs : List R)
      → IsOrdered b
      → IsReleasedInOrder (step b op).0.last_released_deadline rs
      → IsReleasedInOrder b.last_released_deadline (with_released (step b op).1 rs)
  step-in-order b (inserts r im_leader fresh ch) rs h k =
      unfold step in subst (λ o. IsReleasedInOrder o rs) (last-insert b r im_leader fresh ch) k
  step-in-order b (frees id d) rs h k =
      unfold step in subst (λ o. IsReleasedInOrder o rs) (last-free_from_late b id d) k
  step-in-order b takes rs h k = go b.early refl
    where
      go :
          (l : List R)
          → b.early ≡ l
          → IsReleasedInOrder b.last_released_deadline (with_released (step b takes).1 rs)
      go [] e =
          rw (step-take-nil b e)
            (subst (λ s. IsReleasedInOrder s.0.last_released_deadline rs) (step-take-nil b e) k)
      go (x ∷ xs) e =
          let m = (select q.get_deadline x xs).0 in
          let first = subst (All (λ r. After b.last_released_deadline (q.get_deadline r))) e h in
          let rest =
            subst (λ s. IsReleasedInOrder s.0.last_released_deadline rs) (step-take-cons b x xs e)
              k in
          rw (step-take-cons b x xs e) (
            cons-in-order b.last_released_deadline m rs
              (All-select q.get_deadline (λ r. After b.last_released_deadline (q.get_deadline r)) x
                xs first).0
              rest)

  -- From buffers whose early requests do not come before the last one released: whatever the calls
  -- are, their requests are released in the order of their deadlines, and none before the last one
  -- released so far, as long as no deadline that is given anew lies before the last one released.
  pub released-Ascending :
      (b : Buffers R) (ops : List (Op R))
      → IsOrdered b
      → AllAdmissible b ops
      → All (λ r. After b.last_released_deadline (q.get_deadline r)) (released b ops)
        × Ascending (map q.get_deadline (released b ops))
  unfolding released
  released-Ascending b [] h a = (tt, tt)
  released-Ascending b (op ∷ ops) h a =
      step-in-order b op (released (step b op).0 ops) h
        (released-Ascending (step b op).0 ops (step-IsOrdered b op h a.0) a.1)
