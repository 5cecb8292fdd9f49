-- ===== src/Clock/Deadlines.antt =====
-- What `process_deadlines` notifies: exactly what has passed.
use omnipaxos_kv_project.Prelude.{
  ℕ, zero, suc, Option, none, some, ◌≤◌, ◌<◌, ◌≡◌, refl, subst, sym, ap, List, [], ◌∷◌, ◌++◌, Perm,
  inl, inr, Bool-cases, ltb, ltb→lt, arith, length, All, All-mono, Ascending,
}
use mathlib.Core.List.Perm
use omnipaxos_kv_project.Prelude.Assoc
use omnipaxos_kv_project.Prelude.Assoc.{Assoc, nat_eq}
use omnipaxos_kv_project.Prelude.Heap
use omnipaxos_kv_project.Prelude.Heap.{
  select, select-perm, select_least, select_min, length-select, All-select,
}
use omnipaxos_kv_project.Clock.{
  ClockState, by_time, notify, take_out, fire, fire_popped, process_deadlines,
}

-- The channels that the database has for deadlines that are looked up and removed in turn
abbrev pub notified : Assoc ℕ ℕ → List ℕ → List ℕ
notified db [] = []
notified db (d ∷ ds) = notify (Assoc.get db d) ++ notified (Assoc.remove db d) ds

-- From `c` the deadlines `fired` were taken out, the least first, `out` was notified, and `d` is
-- left, in which no deadline has passed.
pub record Fires (c : ClockState) (fired : List ℕ) (d : ClockState) (out : List ℕ) : Type 0 where
  pub all : Perm c.deadlines (fired ++ d.deadlines)
  pub passed : All (λ t. t < c.logical_time) fired
  pub pending : All (λ t. c.logical_time ≤ t) d.deadlines
  pub order : Ascending fired
  pub above : (k : ℕ) → All (λ t. k ≤ t) c.deadlines → All (λ t. k ≤ t) fired
  pub sent : out ≡ notified c.database fired

-- A round that takes the deadline `m` out, and the rounds behind it
Fires-cons :
    (c d : ClockState) (m : ℕ) (rest fired out : List ℕ)
    → Perm c.deadlines (m ∷ rest)
    → ((k : ℕ) → All (λ t. k ≤ t) c.deadlines → k ≤ m × All (λ t. k ≤ t) rest)
    → All (λ t. m ≤ t) rest
    → m < c.logical_time
    → Fires (take_out c m rest) fired d out
    → Fires c (m ∷ fired) d (notify (Assoc.get c.database m) ++ out)
Fires-cons c d m rest fired out p low least due f = record {
  all = Perm.trans p (Perm.cons m f.all);
  passed = (due, f.passed);
  pending = f.pending;
  order = (f.above m least, f.order);
  above = λ k h. let (h', hs) = low k h in (h', f.above k hs);
  sent = ap (λ l. notify (Assoc.get c.database m) ++ l) f.sent;
}

Fires-none : (c : ClockState) → All (λ t. c.logical_time ≤ t) c.deadlines → Fires c [] c []
Fires-none c h = record {
  all = Perm.refl c.deadlines;
  passed = tt;
  pending = h;
  order = tt;
  above = λ k _. tt;
  sent = refl;
}

fire-suc :
    (fuel : ℕ) (c : ClockState) (o : Option (ℕ × List ℕ))
    → Heap.pop by_time c.deadlines ≡ o
    → fire (suc fuel) c ≡ fire_popped (fire fuel) c o
unfolding fire
fire-suc fuel c o e = ap (fire_popped (fire fuel) c) e

pop-nil : (c : ClockState) → c.deadlines ≡ [] → Heap.pop by_time c.deadlines ≡ none
unfolding Heap.pop
pop-nil c e = rw e

pop-cons :
    (c : ClockState) (x : ℕ) (xs : List ℕ)
    → c.deadlines ≡ x ∷ xs
    → Heap.pop by_time c.deadlines ≡ some (select by_time x xs)
unfolding Heap.pop
pop-cons c x xs e = rw e

fire-Fires :
    (fuel : ℕ) (c : ClockState) (ds : List ℕ)
    → c.deadlines ≡ ds
    → length ds ≤ fuel
    → (fired : List ℕ) × Fires c fired (fire fuel c).0 (fire fuel c).1
fire-Fires zero c [] e h =
    unfold fire in ([], Fires-none c (subst (All (λ t. c.logical_time ≤ t)) (sym e) tt))
fire-Fires zero c (x ∷ xs) e h = absurd (omega arith)
fire-Fires (suc fuel) c [] e h =
    rw (fire-suc fuel c none (pop-nil c e))
      ([], Fires-none c (subst (All (λ t. c.logical_time ≤ t)) (sym e) tt))
fire-Fires (suc fuel) c (x ∷ xs) e h =
    let (m, rest) = select by_time x xs in
    elim (Bool-cases (ltb m c.logical_time)) [
      | inl due ↦
          let (fired, f) =
            fire-Fires fuel (take_out c m rest) rest refl
              (omega (arith, length-select by_time x xs)) in
          rw (fire-suc fuel c _ (pop-cons c x xs e), due)
            (
              m ∷ fired,
              (Fires-cons c _ m rest fired _
                  (subst (λ l. Perm l (m ∷ rest)) (sym e) (select-perm by_time x xs))
                  (λ k low. All-select by_time (λ t. k ≤ t) x xs (subst (All (λ t. k ≤ t)) e low))
                  (select_least by_time x xs).0 (ltb→lt _ _ due) f),
            )
      | inr fits ↦
          rw (fire-suc fuel c _ (pop-cons c x xs e), fits)
            (
              [],
              Fires-none c (
                  subst (All (λ t. c.logical_time ≤ t)) (sym e) (
                    All-mono (λ t. m ≤ t) _ (x ∷ xs) (λ t k. ground arith)
                      (select_min by_time x xs))),
            )
    ]

-- `process_deadlines` takes out exactly the deadlines that have passed, the earliest first, leaves
-- the others, and notifies the channels that the database has for them.
pub process_deadlines-Fires :
    (c : ClockState)
    → (fired : List ℕ) × Fires c fired (process_deadlines c).0 (process_deadlines c).1
unfolding process_deadlines
process_deadlines-Fires c = fire-Fires (length c.deadlines) c c.deadlines refl (omega arith)
