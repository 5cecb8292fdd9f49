-- ===== src/Ballot.antt =====
-- `Ballot` of crates/custom-paxos/omnipaxos/src/ballot_leader_election.rs, and its order.
pub mod Order
use Prim.Native.Nat.{compare, Ordering}
use omnipaxos_kv_project.Prelude.{ℕ, Bool, true, false, ◌&&◌, ◌==◌}

pub record Ballot : Type 0 where
  pub config_id : ℕ
  pub n : ℕ
  pub priority : ℕ
  pub pid : ℕ

-- `Ballot::default()`
abbrev pub default : Ballot
default = record { config_id = 0; n = 0; priority = 0; pid = 0 }

-- `Ordering::then`
abbrev pub then_with : Ordering → Ordering → Ordering
then_with Ordering.eq o = o
then_with Ordering.lt o = Ordering.lt
then_with Ordering.gt o = Ordering.gt

-- `Ord for Ballot`: the order of the tuples (n, priority, pid)
unfoldable pub cmp : Ballot → Ballot → Ordering
cmp a b =
    then_with (compare a.n b.n) (then_with (compare a.priority b.priority) (compare a.pid b.pid))

-- `a < b` and `a <= b` by `cmp`
unfoldable pub lt : Ballot → Ballot → Bool
unfolding cmp
lt a b = elim (cmp a b) [ Ordering.lt ↦ true | _ ↦ false ]

unfoldable pub le : Ballot → Ballot → Bool
unfolding cmp
le a b = elim (cmp a b) [ Ordering.gt ↦ false | _ ↦ true ]

-- The derived `PartialEq`, which reads the configuration too
unfoldable pub eq : Ballot → Ballot → Bool
eq a b = a.config_id == b.config_id && a.n == b.n && a.priority == b.priority && a.pid == b.pid
