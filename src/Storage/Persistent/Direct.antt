-- ===== src/Storage/Persistent/Direct.antt =====
-- The methods of `PersistentStorage` that go to the database without the batch, its reads, and
-- how it is opened. A read returns none for an error.
use omnipaxos_kv_project.Prelude.{
  ℕ, zero, suc, ◌-◌, Option, none, some, List, [], ◌∷◌, ◌++◌, Bool, true, false, ◌||◌, ltb, leb,
  length, if◌then◌else◌,
}
use omnipaxos_kv_project.Prelude.Words.{add64, sub64}
use omnipaxos_kv_project.Ballot.{Ballot}
use omnipaxos_kv_project.Storage.{StopSign}
use omnipaxos_kv_project.Storage.Persistent.{
  Bytes, MetaKey, nprom, acc, decide, BatchOp, RocksDb, Bincode, Codecs, PersistentStorage,
  and_then,
}

-- An error of a read ends it.
infixl 5 ◌>>=◌
abbrev pub ◌>>=◌ {ℓ κ} : {A : Type ℓ} {B : Type κ} → Option A → (A → Option B) → Option B
some value >>= next = next value
none >>= next = none

module _ {T S : Type 0} (c : Codecs T S) where
  -- How the value of a key is read: a number, a ballot, and an optional value
  abbrev pub read_number : Option Bytes → Option ℕ
  read_number none = some 0
  read_number (some bytes) = c.read_from bytes

  abbrev pub read_ballot : Option Bytes → Option (Option Ballot)
  read_ballot none = some none
  read_ballot (some bytes) = do ballot ← c.ballot.deserialize bytes; some (some ballot)

abbrev pub read_optional : {A : Type 0} → Bincode (Option A) → Option Bytes → Option (Option A)
read_optional code none = some none
read_optional code (some bytes) = code.deserialize bytes

module _ {T S : Type 0} (R : RocksDb) (c : Codecs T S) where
  abbrev pub stored_db : PersistentStorage R → Option R.Db → PersistentStorage R × Bool
  stored_db p none = (p, false)
  stored_db p (some db') = (record p { db = db' }, true)

  abbrev pub append_serialized : PersistentStorage R → Option Bytes → PersistentStorage R × Bool
  append_serialized p none = (p, false)
  append_serialized p (some bytes) =
      and_then R c (stored_db p (R.put_cf p.db p.next_log_key bytes))
        λ p'. (record p' { next_log_key = add64 p'.next_log_key 1 }, true)

  unfoldable pub append_entry : PersistentStorage R → T → PersistentStorage R × Bool
  append_entry p e = append_serialized p (c.entry.serialize e)

  -- The loop of `append_entries` with its own batch; an error leaves the key where it is.
  unfoldable pub append_loop :
      PersistentStorage R → List BatchOp → List T → PersistentStorage R × Bool
  append_loop p batch [] = stored_db p (R.write p.db batch)
  append_loop p batch (e ∷ es) = elim (c.entry.serialize e) [
    | none ↦ (p, false)
    | some bytes ↦
        append_loop (record p { next_log_key = add64 p.next_log_key 1 })
          (batch ++ BatchOp.put_cf p.next_log_key bytes ∷ []) es
  ]

  unfoldable pub append_entries : PersistentStorage R → List T → PersistentStorage R × Bool
  unfolding append_loop
  append_entries p es = append_loop p [] es

  unfoldable pub append_on_prefix : PersistentStorage R → ℕ → List T → PersistentStorage R × Bool
  unfolding append_entries
  append_on_prefix p from_idx es =
      let delete_idx = add64 from_idx (length es) in
      let deleted =
        if ltb delete_idx p.next_log_key
        then stored_db p (R.delete_range_cf p.db delete_idx p.next_log_key)
        else (p, true) in
      and_then R c deleted λ p'. append_entries (record p' { next_log_key = from_idx }) es

  unfoldable pub trim : PersistentStorage R → ℕ → PersistentStorage R × Bool
  trim p trimmed_idx = stored_db p (R.delete_range_cf p.db 0 trimmed_idx)

  -- The loop of `get_entries`, for the number of entries that are left
  unfoldable pub read_entries : R.Iter → ℕ → Option (List T)
  read_entries iter zero = some []
  read_entries iter (suc n) = do
    entry_bytes ← R.value iter
    e ← c.entry.deserialize entry_bytes
    es ← read_entries (R.next iter) n
    some (e ∷ es)

  unfoldable pub get_entries : PersistentStorage R → ℕ → ℕ → Option (List T)
  unfolding read_entries
  get_entries p from to =
      let found = read_entries (R.seek p.db from) (to - from) in
      if ltb p.next_log_key to || leb to from then some [] else found

  unfoldable pub get_suffix : PersistentStorage R → ℕ → Option (List T)
  unfolding get_entries
  get_suffix p from = get_entries p from p.next_log_key

  abbrev pub put_serialized :
      PersistentStorage R → MetaKey → Option Bytes → PersistentStorage R × Bool
  put_serialized p k none = (p, false)
  put_serialized p k (some bytes) = stored_db p (R.put p.db k bytes)

  unfoldable pub get_promise : PersistentStorage R → Option (Option Ballot)
  get_promise p = R.get p.db nprom >>= read_ballot c

  unfoldable pub set_promise : PersistentStorage R → Ballot → PersistentStorage R × Bool
  set_promise p n_prom = put_serialized p nprom (c.ballot.serialize n_prom)

  unfoldable pub get_decided_idx : PersistentStorage R → Option ℕ
  get_decided_idx p = R.get p.db decide >>= read_number c

  unfoldable pub set_decided_idx : PersistentStorage R → ℕ → PersistentStorage R × Bool
  set_decided_idx p ld = put_serialized p decide (some (c.as_bytes ld))

  unfoldable pub get_accepted_round : PersistentStorage R → Option (Option Ballot)
  get_accepted_round p = R.get p.db acc >>= read_ballot c

  unfoldable pub set_accepted_round : PersistentStorage R → Ballot → PersistentStorage R × Bool
  set_accepted_round p na = put_serialized p acc (c.ballot.serialize na)

  unfoldable pub get_compacted_idx : PersistentStorage R → Option ℕ
  get_compacted_idx p = R.get p.db MetaKey.trim >>= read_number c

  unfoldable pub set_compacted_idx : PersistentStorage R → ℕ → PersistentStorage R × Bool
  set_compacted_idx p trimmed_idx = put_serialized p MetaKey.trim (some (c.as_bytes trimmed_idx))

  unfoldable pub get_log_len : PersistentStorage R → Option ℕ
  unfolding get_compacted_idx
  get_log_len p = do compacted_idx ← get_compacted_idx p; some (sub64 p.next_log_key compacted_idx)

  unfoldable pub get_stopsign : PersistentStorage R → Option (Option StopSign)
  get_stopsign p = R.get p.db MetaKey.stopsign >>= read_optional c.stop_sign

  unfoldable pub set_stopsign : PersistentStorage R → Option StopSign → PersistentStorage R × Bool
  set_stopsign p s = put_serialized p MetaKey.stopsign (c.stop_sign.serialize s)

  unfoldable pub get_snapshot : PersistentStorage R → Option (Option S)
  get_snapshot p = R.get p.db MetaKey.snapshot >>= read_optional c.state

  unfoldable pub set_snapshot : PersistentStorage R → Option S → PersistentStorage R × Bool
  set_snapshot p snap = put_serialized p MetaKey.snapshot (c.state.serialize snap)

  abbrev pub next_key : R.Db → Option ℕ → Option ℕ
  next_key db (some last) = some (add64 last 1)
  next_key db none = R.get db MetaKey.trim >>= read_number c

  -- `PersistentStorage::open`, for what RocksDB opened; none is a panic.
  unfoldable pub opened : Option R.Db → Option (PersistentStorage R)
  opened none = none
  opened (some db) = do
    next_log_key ← next_key db (R.key (R.seek_to_last db))
    some (record { db = db; write_batch = []; next_log_key = next_log_key })

  -- `PersistentStorage::new`, which panics where there is something at the path
  unfoldable pub created : Bool → Option R.Db → Option (PersistentStorage R)
  unfolding opened
  created exists db = if exists then none else opened db
