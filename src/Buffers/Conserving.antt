-- ===== src/Buffers/Conserving.antt =====
-- The requests that the buffers hold and release over any run of calls: none is lost, none is
-- released twice and none is made up.
use mathlib.Core.List.Perm
use mathlib.Core.List.{perm_middle}
use omnipaxos_kv_project.Prelude.{
  ℕ, ◌≡◌, refl, subst, Option, none, some, List, [], ◌∷◌, ◌++◌, map, Perm, Bool, true, false, inl,
  inr, Bool-cases,
}
use omnipaxos_kv_project.Prelude.Assoc
use omnipaxos_kv_project.Prelude.Assoc.{Assoc, nat_eq}
use omnipaxos_kv_project.Prelude.Heap.{select}
use omnipaxos_kv_project.Request.{Request}
use omnipaxos_kv_project.Buffers.{
  Buffers, is_eligible, insert, insert_late, free_from_late, free_removed, release,
}
use omnipaxos_kv_project.Buffers.Order.{
  Op, inserts, frees, takes, step, released, with_released, step-take-cons, step-take-nil,
  take_next-cons,
}
use omnipaxos_kv_project.Buffers.Holding.{
  ids, IsKeyed, insert-IsKeyed, remove-IsKeyed, ids-insert, ids-free_from_late, ids-take_next,
}

module _ {R : Type 0} ⦃q : Request R⦄ where
  -- The buffers after the calls
  pub after : Buffers R → List (Op R) → Buffers R
  after b [] = b
  after b (op ∷ ops) = after (step b op).0 ops

  -- The ids of the requests that the calls insert
  abbrev inserted_by : Op R → List ℕ → List ℕ
  inserted_by (inserts r im_leader fresh ch) l = q.get_id r ∷ l
  inserted_by (frees id new_deadline) l = l
  inserted_by takes l = l

  abbrev pub inserted : List (Op R) → List ℕ
  inserted [] = []
  inserted (op ∷ ops) = inserted_by op (inserted ops)

  abbrev IsFresh : Buffers R → Op R → Type 0
  IsFresh b (inserts r im_leader fresh ch) = Assoc.get b.late (q.get_id r) ≡ none
  IsFresh b (frees id new_deadline) = Unit
  IsFresh b takes = Unit

  -- No request comes under an id that waits in the late buffer.
  abbrev pub AllFresh : Buffers R → List (Op R) → Type 0
  AllFresh b [] = Unit
  AllFresh b (op ∷ ops) = IsFresh b op × AllFresh (step b op).0 ops

  insert_late-IsKeyed :
      (b : Buffers R) (r : R) (im_leader : Bool) (fresh : ℕ)
      → Assoc.get b.late (q.get_id r) ≡ none
      → IsKeyed b.late
      → IsKeyed (insert_late b r im_leader fresh).0.late
  insert_late-IsKeyed b r true fresh new h = h
  insert_late-IsKeyed b r false fresh new h = insert-IsKeyed b.late r new h

  free_removed-late : (b : Buffers R) (o : Option R) (d : ℕ) → (free_removed b o d).late ≡ b.late
  free_removed-late b none d = refl
  free_removed-late b (some r) d = refl

  step-IsKeyed :
      (b : Buffers R) (op : Op R) → IsFresh b op → IsKeyed b.late → IsKeyed (step b op).0.late
  unfolding step insert free_from_late
  step-IsKeyed b (inserts r im_leader fresh ch) new h =
      let b' = record b { notifiers = Assoc.insert b.notifiers (q.get_id r) ch } in
      elim (Bool-cases (is_eligible b.last_released_deadline (q.get_deadline r))) [
        | inl e ↦ rw e h
        | inr e ↦ rw e (insert_late-IsKeyed b' r im_leader fresh new h)
      ]
  step-IsKeyed b (frees id d) new h =
      let removed = record b { late = Assoc.remove b.late id } in
      rw (free_removed-late removed (Assoc.get b.late id) d) (remove-IsKeyed b.late id h)
  step-IsKeyed b takes new h = go b.early refl
    where
      go : (l : List R) → b.early ≡ l → IsKeyed (step b takes).0.late
      go [] e = rw (step-take-nil b e) h
      go (x ∷ xs) e = rw (step-take-cons b x xs e) h

  abbrev Balance : List ℕ → List R → Buffers R → List ℕ → Type 0
  Balance before rs b added = Perm (map q.get_id rs ++ ids b) (added ++ before)

  -- What a call adds to the requests and what it releases balance with the rest of the run.
  step-Balance :
      (b : Buffers R) (op : Op R) (rs : List R) (b' : Buffers R) (added : List ℕ)
      → IsFresh b op
      → IsKeyed b.late
      → Balance (ids (step b op).0) rs b' added
      → Balance (ids b) (with_released (step b op).1 rs) b' (inserted_by op added)
  step-Balance b (inserts r im_leader fresh ch) rs b' added new h rest =
      unfold step in
      Perm.trans rest (
        Perm.trans (Perm.append_left added (ids-insert b r im_leader fresh ch new))
          (perm_middle added (ids b)))
  step-Balance b (frees id d) rs b' added new h rest =
      unfold step in Perm.trans rest (Perm.append_left added (ids-free_from_late b id d h))
  step-Balance b takes rs b' added new h rest = go b.early refl
    where
      go : (l : List R) → b.early ≡ l → Balance (ids b) (with_released (step b takes).1 rs) b' added
      go [] e =
          rw (step-take-nil b e)
            (subst (λ s. Balance (ids s.0) rs b' added) (step-take-nil b e) rest)
      go (x ∷ xs) e =
          let out = release b (select q.get_deadline x xs) in
          let left = subst (λ s. Balance (ids s.0) rs b' added) (step-take-cons b x xs e) rest in
          let taken = ids-take_next b out.0 out.1 out.2 (take_next-cons b x xs e) in
          rw (step-take-cons b x xs e) (
            Perm.trans (Perm.cons (q.get_id out.2) left) (
              Perm.trans (Perm.symm (perm_middle added (ids out.0)))
                (Perm.append_left added (Perm.symm taken))))

  -- Where each late request stands under its own id, once, and none is inserted under an id that
  -- waits in the late buffer: whatever the calls are, the requests that were released and those that
  -- the buffers still hold are, by their ids, those that were inserted and those that the buffers held
  -- at first, each as often.
  pub released-conserves :
      (b : Buffers R) (ops : List (Op R))
      → IsKeyed b.late
      → AllFresh b ops
      → Perm (map q.get_id (released b ops) ++ ids (after b ops)) (inserted ops ++ ids b)
  unfolding released after
  released-conserves b [] h new = Perm.refl (ids b)
  released-conserves b (op ∷ ops) h new =
      step-Balance b op (released (step b op).0 ops) (after (step b op).0 ops) (inserted ops) new.0
        h (released-conserves (step b op).0 ops (step-IsKeyed b op new.0 h) new.1)
