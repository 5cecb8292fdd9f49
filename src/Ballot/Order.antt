-- ===== src/Ballot/Order.antt =====
-- The order of ballots.
use omnipaxos_kv_project.Prelude.{◌≡◌, ◌↔◌, true, false, arith}
use omnipaxos_kv_project.Ballot.{Ballot, lt, le, eq}

pub lt_irrefl : (a : Ballot) → lt a a ≡ false
unfolding lt
lt_irrefl a = ground arith

pub lt_trans : (a b c : Ballot) → lt a b ≡ true → lt b c ≡ true → lt a c ≡ true
unfolding lt
lt_trans a b c h k = ground arith

pub le_trans : (a b c : Ballot) → le a b ≡ true → le b c ≡ true → le a c ≡ true
unfolding le
le_trans a b c h k = ground arith

pub le_iff_not_lt : (a b : Ballot) → (le a b ≡ true) ↔ (lt b a ≡ false)
unfolding lt le
le_iff_not_lt a b = ground arith

pub eq_iff : (a b : Ballot) → (eq a b ≡ true) ↔ (a ≡ b)
unfolding eq
eq_iff a b = ground arith

pub lt_of_not_le : (a b : Ballot) → le a b ≡ false → lt b a ≡ true
unfolding lt le
lt_of_not_le a b h = ground arith
