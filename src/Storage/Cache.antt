-- ===== src/Storage/Cache.antt =====
-- crates/custom-paxos/omnipaxos/src/storage/state_cache.rs, without the feature `unicache`, which
-- is not in the build.
use omnipaxos_kv_project.Prelude.{
  ℕ, Option, none, some, List, [], ◌∷◌, ◌++◌, Bool, true, false, ◌&&◌, leb, ◌==◌, length,
  if◌then◌else◌,
}
use omnipaxos_kv_project.Ballot.{Ballot}
use omnipaxos_kv_project.Ballot
use omnipaxos_kv_project.Storage.{StopSign}

pub record StateCache {ℓ} (T : Type ℓ) : Type ℓ where
  pub batch_size : ℕ
  pub batched_entries : List T
  pub promise : Ballot
  pub accepted_round : Ballot
  pub decided_idx : ℕ
  pub accepted_idx : ℕ
  pub compacted_idx : ℕ
  pub stopsign : Option StopSign

abbrev pub is_some {ℓ} : {A : Type ℓ} → Option A → Bool
is_some none = false
is_some (some a) = true

abbrev pub is_empty {ℓ} : {A : Type ℓ} → List A → Bool
is_empty [] = true
is_empty (x ∷ xs) = false

module _ {ℓ} {T : Type ℓ} where
  -- `StateCache::new`
  abbrev pub empty : ℕ → StateCache T
  empty size = record {
    batch_size = size;
    batched_entries = [];
    promise = Ballot.default;
    accepted_round = Ballot.default;
    decided_idx = 0;
    accepted_idx = 0;
    compacted_idx = 0;
    stopsign = none;
  }

  unfoldable pub take_batched_entries : StateCache T → StateCache T × List T
  take_batched_entries c = (record c { batched_entries = [] }, c.batched_entries)

  unfoldable pub take_entries_if_batch_is_full : StateCache T → StateCache T × Option (List T)
  unfolding take_batched_entries
  take_entries_if_batch_is_full c =
      if leb c.batch_size (length c.batched_entries)
      then (let (c', es) = take_batched_entries c in (c', some es))
      else (c, none)

  unfoldable pub append_entry : StateCache T → T → StateCache T × Option (List T)
  unfolding take_entries_if_batch_is_full
  append_entry c e =
      take_entries_if_batch_is_full (record c { batched_entries = c.batched_entries ++ e ∷ [] })

  unfoldable pub append_entries : StateCache T → List T → StateCache T × Option (List T)
  unfolding take_entries_if_batch_is_full
  append_entries c es =
      take_entries_if_batch_is_full (record c { batched_entries = c.batched_entries ++ es })

  unfoldable pub append_stopsign : StateCache T → StopSign → StateCache T × Option (List T)
  unfolding take_batched_entries
  append_stopsign c ss =
      let c' = record c { stopsign = some ss } in
      if is_empty c.batched_entries
      then (c', none)
      else (let (d, es) = take_batched_entries c' in (d, some es))

  unfoldable pub stopsign_is_decided : StateCache T → Bool
  stopsign_is_decided c = is_some c.stopsign && (c.decided_idx == c.accepted_idx)
