-- ===== src/SequencePaxos/Synchronising.antt =====
-- `create_log_sync` of crates/custom-paxos/omnipaxos/src/sequence_paxos/mod.rs, which makes what
-- another server needs to catch up. A read that fails is a panic, by `expect`.
use omnipaxos_kv_project.Prelude.{ℕ, none, ◌&&◌, ltb, if◌then◌else◌}
use omnipaxos_kv_project.Storage.{StorageResult, ok, panic, ◌>>=◌, Snapshot, LogSync}
use omnipaxos_kv_project.Storage.Memory.{get_suffix}
use omnipaxos_kv_project.Storage.Internal.Compact.{create_diff_snapshot}
use omnipaxos_kv_project.SequencePaxos.{SequencePaxos}

abbrev pub expect {ℓ} : {A : Type ℓ} → StorageResult A → StorageResult A
expect (ok a) = ok a
expect _ = panic

module _ {T S : Type 0} (snap : Snapshot T S) where
  unfoldable pub create_log_sync : SequencePaxos T S → ℕ → ℕ → StorageResult (LogSync T S)
  create_log_sync s common_prefix_idx other_logs_decided_idx =
      let i = s.internal_storage in
      let decided_idx = i.state_cache.decided_idx in
      let from_snapshot = do
        (delta_snapshot, compacted_idx) ←
            expect (create_diff_snapshot snap i other_logs_decided_idx)
        ok (record {
          decided_snapshot = delta_snapshot;
          suffix = get_suffix i.storage decided_idx;
          sync_idx = compacted_idx;
          stopsign = i.state_cache.stopsign;
        })
      in let from_log : LogSync T S = record {
        decided_snapshot = none;
        suffix = get_suffix i.storage common_prefix_idx;
        sync_idx = common_prefix_idx;
        stopsign = i.state_cache.stopsign;
      } in
        if snap.use_snapshots && ltb common_prefix_idx decided_idx
        then from_snapshot
        else ok from_log
