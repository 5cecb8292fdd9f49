-- ===== src/Tests/Persisting.antt =====
-- The theorems on the persistent storage, over a database that is kept in memory.
use omnipaxos_kv_project.Prelude.{
  ℕ, zero, suc, ◌+◌, ◌≡◌, refl, sym, inl, true, some-ne-none, Option, none, some, some-injective,
  List, [], ◌∷◌, arith,
}
use omnipaxos_kv_project.Prelude.Words.{add64, sub64}
use omnipaxos_kv_project.Ballot.{Ballot}
use omnipaxos_kv_project.Storage.{StopSign, StorageOp}
use omnipaxos_kv_project.Storage.Memory
use omnipaxos_kv_project.Storage.Persistent.{
  Bytes, RocksDb, Codecs, PersistentStorage, BatchOp, write_atomically,
}
use omnipaxos_kv_project.Storage.Persistent
use omnipaxos_kv_project.Storage.Persistent.Direct.{opened}
use omnipaxos_kv_project.Storage.Persistent.Contents.{
  Contents, after, after_all, IsRocksDb, IsFaithful,
}
use omnipaxos_kv_project.Storage.Persistent.Batches.{IsHeld}
use omnipaxos_kv_project.Storage.Persistent.Reading.{ReadsAs, write_atomically-ReadsAs}
use omnipaxos_kv_project.Storage.Persistent.Reopening.{FindsLast, opened-write_atomically}
use omnipaxos_kv_project.Storage.Persistent.Transactions.{AllFit}
use omnipaxos_kv_project.Tests.{first_ballot}

-- The greatest key below a bound
greatest : ℕ → (ℕ → Option Bytes) → Option ℕ
greatest zero log = none
greatest (suc k) log = elim (log k) [ none ↦ greatest k log | some bytes ↦ some k ]

abbrev value_at : Contents → Option ℕ → Option Bytes
value_at d none = none
value_at d (some k) = d.log k

abbrev next_at : Option ℕ → Option ℕ
next_at none = none
next_at (some k) = some (k + 1)

abbrev memory_db : RocksDb
memory_db = record {
  Db = Contents;
  write = λ d ops. some (after_all d ops);
  put_cf = λ d k bytes. some (after d (BatchOp.put_cf k bytes));
  delete_range_cf = λ d from to. some (after d (BatchOp.delete_range_cf from to));
  put = λ d k bytes. some (after d (BatchOp.put k bytes));
  get = λ d k. some (d.meta k);
  Iter = Contents × Option ℕ;
  seek = λ d k. (d, some k);
  seek_to_last = λ d. (d, greatest 16 d.log);
  key = λ it. it.1;
  value = λ it. value_at it.0 it.1;
  next = λ it. (it.0, next_at it.1);
}

abbrev memory_db_lawful : IsRocksDb memory_db
memory_db_lawful = record {
  contents = λ d. d;
  write_lem = λ d ops d' wrote. sym (some-injective wrote);
  get_lem = λ d k. refl;
  value-seek = λ d k bytes there. there;
  next-seek = λ d k bytes bytes' there there'. refl;
}

abbrev read_ballot : Bytes → Option Ballot
read_ballot (a ∷ b ∷ c ∷ d ∷ []) = some (record { config_id = a; n = b; priority = c; pid = d })
read_ballot _ = none

abbrev write_stop_sign : Option StopSign → Option Bytes
write_stop_sign none = some []
write_stop_sign (some ss) = none

-- What was written is none.
abbrev read_stop_sign : Bytes → Option (Option StopSign)
read_stop_sign bytes = some none

abbrev read_number : Bytes → Option ℕ
read_number (n ∷ []) = some n
read_number _ = none

abbrev write_state : Option ℕ → Bytes
write_state none = []
write_state (some n) = n ∷ []

abbrev read_state : Bytes → Option (Option ℕ)
read_state [] = some none
read_state (n ∷ ns) = some (some n)

-- A serialization that does not take a stop-sign
abbrev codecs : Codecs ℕ ℕ
codecs = record {
  entry = record { serialize = λ n. some (n ∷ []); deserialize = read_number };
  ballot = record {
    serialize = λ (b : Ballot). some (b.config_id ∷ b.n ∷ b.priority ∷ b.pid ∷ []);
    deserialize = read_ballot;
  };
  stop_sign = record { serialize = write_stop_sign; deserialize = read_stop_sign };
  state = record { serialize = λ s. some (write_state s); deserialize = read_state };
  as_bytes = λ n. n ∷ [];
  read_from = read_number;
}

stop_sign_back :
    (o : Option StopSign) (bytes : Bytes)
    → write_stop_sign o ≡ some bytes
    → read_stop_sign bytes ≡ some o
stop_sign_back none bytes e = refl
stop_sign_back (some ss) bytes e = cc

state_back : (o : Option ℕ) → read_state (write_state o) ≡ some o
state_back none = refl
state_back (some n) = refl

codecs-IsFaithful : IsFaithful codecs
codecs-IsFaithful = record {
  entry = λ n bytes e. rw (← some-injective e) refl;
  ballot = λ b bytes e. rw (← some-injective e) refl;
  stop_sign = stop_sign_back;
  state = λ s bytes e. rw (← some-injective e) (state_back s);
  number = λ n fits. refl;
}

abbrev nothing : PersistentStorage memory_db
nothing = record {
  db = record { log = λ k. none; meta = λ k. none };
  write_batch = [];
  next_log_key = 0;
}

nothing-IsHeld : IsHeld memory_db memory_db_lawful codecs nothing (Memory.empty {T = ℕ} {S = ℕ})
unfolding after_all
nothing-IsHeld = record {
  log = record {
    key = refl;
    entries = λ k where_it_is. ground arith;
    present = λ k l u. absurd (omega arith);
  };
  meta = (refl, refl, refl, refl, refl, refl);
}

abbrev operations : List (StorageOp ℕ ℕ)
operations =
    StorageOp.append_entries (5 ∷ 6 ∷ 7 ∷ [])
    ∷ StorageOp.set_promise first_ballot
    ∷ StorageOp.trim 1
    ∷ StorageOp.set_compacted_idx 1
    ∷ StorageOp.append_on_prefix 2 (9 ∷ [])
    ∷ []

operations-fit : AllFit (Memory.empty {T = ℕ} {S = ℕ}) operations
unfolding Memory.write Memory.append_entries Memory.trim Memory.append_on_prefix sub64
operations-fit = (
  ground arith,
  (
    tt,
    (
      (ground arith, ground arith, ground arith),
      (ground arith, ((ground arith, ground arith, ground arith), tt)),
    ),
  ),
)

operations_done : (write_atomically memory_db codecs nothing operations).1 ≡ true
unfolding write_atomically Persistent.batch_ops Persistent.batch_op Persistent.batch_append_entries
    Persistent.batch_append_entry Persistent.batch_append_on_prefix add64
operations_done = refl

write_atomically-ReadsAs_example :
    ReadsAs memory_db memory_db_lawful codecs codecs-IsFaithful
      (write_atomically memory_db codecs nothing operations).0
      (Memory.write_atomically Memory.empty operations)
      1
      3
unfolding Memory.write_atomically Memory.write Memory.append_entries Memory.trim
    Memory.append_on_prefix sub64
write_atomically-ReadsAs_example =
    write_atomically-ReadsAs memory_db memory_db_lawful codecs codecs-IsFaithful nothing
      Memory.empty operations 1 3 nothing-IsHeld operations-fit operations_done (ground arith)
      (ground arith) (ground arith) (ground arith)

-- The database after the operations holds the keys 1 and 2.
operations-FindsLast :
    FindsLast memory_db memory_db_lawful (write_atomically memory_db codecs nothing operations).0.db
unfolding write_atomically Persistent.batch_ops Persistent.batch_op Persistent.batch_append_entries
    Persistent.batch_append_entry Persistent.batch_append_on_prefix add64 after_all greatest
operations-FindsLast = record {
  held = λ k found. rw (← some-injective found) (9 ∷ [], refl);
  above = λ k j found later. let top : 2 ≡ k = some-injective found in ground arith;
  empty = λ j found. absurd (some-ne-none found);
}

opened-write_atomically_example :
    let (p, done) = write_atomically memory_db codecs nothing operations in
    opened memory_db codecs (some p.db) ≡ some p
unfolding Memory.write_atomically Memory.write Memory.append_entries Memory.trim
    Memory.append_on_prefix sub64
opened-write_atomically_example =
    opened-write_atomically memory_db memory_db_lawful codecs codecs-IsFaithful nothing Memory.empty
      operations nothing-IsHeld operations-fit operations_done operations-FindsLast
      (inl (ground arith)) (ground arith)
