-- ===== src/Prelude/Heap.antt =====
-- `std::collections::BinaryHeap` as a min-heap by a key: the bag of its elements, in the order of
-- insertion. Among equal keys, which Rust takes in an unspecified order, `pop` takes the oldest.
use Prim.Native.Nat.{ℕ, ◌≤◌}
use mathlib.Core.Bool.{true, false}
use mathlib.Core.Path.{◌≡◌, refl}
use mathlib.Core.Option.{Option, none, some}
use mathlib.Core.List.{List, [], ◌∷◌, Perm}
use mathlib.Core.List.Perm
use native.Mathlib.Omega.{arith}
use omnipaxos_kv_project.Prelude.Tests.{ltb, ltb→lt, if◌then◌else◌, Bool-cases}
use omnipaxos_kv_project.Prelude.Lists.{length, All, All-mono}
use mathlib.Core.Logic.{inl, inr}

module _ {ℓ} {A : Type ℓ} (key : A → ℕ) where
  -- The least of `x ∷ xs`, and the others
  unfoldable pub select : A → List A → A × List A
  select x [] = (x, [])
  select x (y ∷ ys) =
      let (m, rest) = select (if ltb (key y) (key x) then y else x) ys in
      (m, (if ltb (key y) (key x) then x else y) ∷ rest)

  unfoldable pub pop : List A → Option (A × List A)
  unfolding select
  pop [] = none
  pop (x ∷ xs) = some (select x xs)

module _ {A : Type 0} (key : A → ℕ) where
  pub select-perm :
      (x : A) (xs : List A) → Perm (x ∷ xs) ((select key x xs).0 ∷ (select key x xs).1)
  unfolding select
  select-perm x [] = Perm.refl (x ∷ [])
  select-perm x (y ∷ ys) = elim (Bool-cases (ltb (key y) (key x))) [
    | inl e ↦ rw e (Perm.trans (Perm.cons x (select-perm y ys)) (Perm.swap _ _ _))
    | inr e ↦ rw e (
        Perm.trans (Perm.swap y x ys)
          (Perm.trans (Perm.cons y (select-perm x ys)) (Perm.swap _ _ _)))
  ]

  select-cons_lt :
      (x y : A) (ys : List A)
      → ltb (key y) (key x) ≡ true
      → select key x (y ∷ ys) ≡ ((select key y ys).0, x ∷ (select key y ys).1)
  unfolding select
  select-cons_lt x y ys e = rw e

  select-cons_ge :
      (x y : A) (ys : List A)
      → ltb (key y) (key x) ≡ false
      → select key x (y ∷ ys) ≡ ((select key x ys).0, y ∷ (select key x ys).1)
  unfolding select
  select-cons_ge x y ys e = rw e

  -- What is left is not less than what was taken, and that not more than the first.
  pub select_least :
      (x : A) (xs : List A)
      → All (λ a. key (select key x xs).0 ≤ key a) (select key x xs).1
        × (key (select key x xs).0 ≤ key x)
  select_least x [] = unfold select in (tt, omega arith)
  select_least x (y ∷ ys) = elim (Bool-cases (ltb (key y) (key x))) [
    | inl e ↦
        let (least, first) = select_least y ys in
        let smaller = ltb→lt _ _ e in
        rw (select-cons_lt x y ys e) ((omega arith, least), omega arith)
    | inr e ↦
        let (least, first) = select_least x ys in
        let larger : key x ≤ key y = ground arith in
        rw (select-cons_ge x y ys e) ((omega arith, least), first)
  ]

  pub length-select : (x : A) (xs : List A) → length (select key x xs).1 ≡ length xs
  unfolding select
  length-select x [] = refl
  length-select x (y ∷ ys) = ground (arith, length-select y ys, length-select x ys)

  -- A property of all elements is one of the least and of the others.
  pub All-select :
      (P : A → Type 0) (x : A) (xs : List A)
      → All P (x ∷ xs)
      → All P ((select key x xs).0 ∷ (select key x xs).1)
  unfolding select
  All-select P x [] h = h
  All-select P x (y ∷ ys) h = elim (Bool-cases (ltb (key y) (key x))) [
    | inl e ↦ let r = All-select P y ys h.1 in rw e (r.0, (h.0, r.1))
    | inr e ↦ let r = All-select P x ys (h.0, h.1.1) in rw e (r.0, (h.1.0, r.1))
  ]

  -- What was taken is the least of all.
  pub select_min : (x : A) (xs : List A) → All (λ a. key (select key x xs).0 ≤ key a) (x ∷ xs)
  select_min x [] = unfold select in (omega arith, tt)
  select_min x (y ∷ ys) = elim (Bool-cases (ltb (key y) (key x))) [
    | inl e ↦
        let (first, least) = select_min y ys in
        let smaller = ltb→lt _ _ e in
        All-mono (λ a. key (select key y ys).0 ≤ key a) _ (x ∷ y ∷ ys)
          (λ a h. rw (select-cons_lt x y ys e) h) (omega arith, (first, least))
    | inr e ↦
        let (first, least) = select_min x ys in
        let larger : key x ≤ key y = ground arith in
        All-mono (λ a. key (select key x ys).0 ≤ key a) _ (x ∷ y ∷ ys)
          (λ a h. rw (select-cons_ge x y ys e) h) (first, (omega arith, least))
  ]
