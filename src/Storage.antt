-- ===== src/Storage.antt =====
-- The data types of the replicated log, of crates/custom-paxos/omnipaxos/src/storage/mod.rs and
-- util.rs, and the errors of omni_paxos.rs that the storage returns.
pub mod Memory
pub mod Persistent
pub mod Cache
pub mod Internal
use omnipaxos_kv_project.Prelude.{ℕ, ◌≡◌, refl, Option, List, Bool}
use omnipaxos_kv_project.Ballot.{Ballot}
use omnipaxos_kv_project.Config.{ClusterConfig}

pub record StopSign : Type 0 where
  pub next_config : ClusterConfig
  pub metadata : Option (List ℕ)

pub data SnapshotType {ℓ} (S : Type ℓ) : Type ℓ where
  complete : S → SnapshotType S
  delta : S → SnapshotType S

-- The trait `Snapshot<T>`; `merge` returns the merged snapshot.
pub record Snapshot {ℓ} (T S : Type ℓ) : Type ℓ where
  pub create : List T → S
  pub merge : S → S → S
  pub use_snapshots : Bool

pub data StorageOp {ℓ} (T S : Type ℓ) : Type ℓ where
  append_entry : T → StorageOp T S
  append_entries : List T → StorageOp T S
  append_on_prefix : ℕ → List T → StorageOp T S
  set_promise : Ballot → StorageOp T S
  set_decided_index : ℕ → StorageOp T S
  set_accepted_round : Ballot → StorageOp T S
  set_compacted_idx : ℕ → StorageOp T S
  trim : ℕ → StorageOp T S
  set_stopsign : Option StopSign → StorageOp T S
  set_snapshot : Option S → StorageOp T S

pub data LogEntry {ℓ} (T : Type ℓ) : Type ℓ where
  decided : T → LogEntry T
  undecided : T → LogEntry T
  trimmed : ℕ → LogEntry T
  stop_sign : StopSign → Bool → LogEntry T

pub data IndexEntry : Type 0 where
  entry compacted : IndexEntry
  stop_sign : StopSign → IndexEntry

pub record LogSync {ℓ} (T S : Type ℓ) : Type ℓ where
  pub decided_snapshot : Option (SnapshotType S)
  pub suffix : List T
  pub sync_idx : ℕ
  pub stopsign : Option StopSign

pub data CompactionErr : Type 0 where
  undecided_index trimmed_index not_all_decided not_current_leader : ℕ → CompactionErr

-- `StorageResult`, with the panic of `unimplemented!`; the memory storage itself never fails.
pub data StorageResult {ℓ} (A : Type ℓ) : Type ℓ where
  ok : A → StorageResult A
  err : CompactionErr → StorageResult A
  panic : StorageResult A

infixl 5 ◌>>=◌
abbrev pub ◌>>=◌ {ℓ κ} :
    {A : Type ℓ} {B : Type κ} → StorageResult A → (A → StorageResult B) → StorageResult B
panic >>= next = panic
err why >>= next = err why
ok value >>= next = next value

-- A chain of two results that comes to a value has both of them.
pub >>=-both {ℓ κ} :
    {A : Type ℓ} {B : Type κ} {final : B} (next : A → StorageResult B) (result : StorageResult A)
    → (result >>= next) ≡ ok final
    → (between : A) × (result ≡ ok between) × (next between ≡ ok final)
>>=-both next (ok between) reached = (between, refl, reached)
>>=-both next (err why) reached = cc
>>=-both next panic reached = cc

pub ok-injective {ℓ} : {A : Type ℓ} {a b : A} → ok a ≡ ok b → a ≡ b
ok-injective h = cc
