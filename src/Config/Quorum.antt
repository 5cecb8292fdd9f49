-- ===== src/Config/Quorum.antt =====
-- `Quorum` of crates/custom-paxos/omnipaxos/src/util.rs.
use omnipaxos_kv_project.Prelude.{
  ℕ, ◌+◌, ◌/◌, ◌<◌, ◌≡◌, Option, none, some, Bool, true, arith, leb, length,
}
use omnipaxos_kv_project.Prelude.Words.{add64}
use omnipaxos_kv_project.Config.{
  FlexibleQuorum, ClusterConfig, valid, validate_cluster, validate_quorum,
}

pub data Quorum : Type 0 where
  majority : ℕ → Quorum
  flexible : FlexibleQuorum → Quorum

-- `Quorum::with`
unfoldable pub with : Option FlexibleQuorum → ℕ → Quorum
with (some q) num_nodes = flexible q
with none num_nodes = majority (num_nodes / 2 + 1)

unfoldable pub is_prepare_quorum : Quorum → ℕ → Bool
is_prepare_quorum (majority m) num_nodes = leb m num_nodes
is_prepare_quorum (flexible q) num_nodes = leb q.read_quorum_size num_nodes

unfoldable pub is_accept_quorum : Quorum → ℕ → Bool
is_accept_quorum (majority m) num_nodes = leb m num_nodes
is_accept_quorum (flexible q) num_nodes = leb q.write_quorum_size num_nodes

overlap :
    (n p a : ℕ) (f : Option FlexibleQuorum)
    → validate_quorum n f ≡ valid
    → is_prepare_quorum (with f n) p ≡ true
    → is_accept_quorum (with f n) a ≡ true
    → n < p + a
unfolding with is_prepare_quorum is_accept_quorum validate_quorum add64
overlap n p a none v hp ha = ground arith
overlap n p a (some q) v hp ha = ground arith

-- In a cluster whose configuration validates, any prepare quorum of `p` nodes and any accept quorum
-- of `a` nodes together are more than the nodes there are, so they have a node in common.
pub quorums_overlap :
    (c : ClusterConfig) (p a : ℕ)
    → validate_cluster c ≡ valid
    → is_prepare_quorum (with c.flexible_quorum (length c.nodes)) p ≡ true
    → is_accept_quorum (with c.flexible_quorum (length c.nodes)) a ≡ true
    → length c.nodes < p + a
unfolding validate_cluster
quorums_overlap c p a v hp ha = overlap (length c.nodes) p a c.flexible_quorum (ground arith) hp ha
