-- ===== src/Storage/Persistent/Contents.antt =====
-- What a RocksDB holds, as functions from its keys, and what the storage relies on of RocksDB and
-- of the serializations.
use Prim.Native.Nat.{◌^◌}
use omnipaxos_kv_project.Prelude.{
  ℕ, ◌+◌, ◌<◌, ◌≡◌, refl, Option, none, some, List, [], ◌∷◌, ◌++◌, ◌&&◌, ltb, leb, ◌==◌,
  if◌then◌else◌,
}
use omnipaxos_kv_project.Storage.Persistent.{
  Bytes, MetaKey, nprom, acc, decide, BatchOp, RocksDb, Bincode, Codecs,
}

pub record Contents : Type 0 where
  pub log : ℕ → Option Bytes
  pub meta : MetaKey → Option Bytes

abbrev pub code : MetaKey → ℕ
code nprom = 0
code acc = 1
code decide = 2
code MetaKey.trim = 3
code MetaKey.stopsign = 4
code MetaKey.snapshot = 5

-- One operation of a batch
abbrev pub after : Contents → BatchOp → Contents
after c (BatchOp.put_cf k bytes) = record c { log = λ j. if j == k then some bytes else c.log j }
after c (BatchOp.delete_range_cf from to) = record c {
  log = λ j. if leb from j && ltb j to then none else c.log j;
}
after c (BatchOp.put k bytes) = record c {
  meta = λ j. if code j == code k then some bytes else c.meta j;
}

unfoldable pub after_all : Contents → List BatchOp → Contents
after_all c [] = c
after_all c (op ∷ ops) = after_all (after c op) ops

pub after_all-snoc :
    (c : Contents) (ops : List BatchOp) (op : BatchOp)
    → after_all c (ops ++ op ∷ []) ≡ after (after_all c ops) op
unfolding after_all
after_all-snoc c [] op = refl
after_all-snoc c (first ∷ ops) op = after_all-snoc (after c first) ops op

-- A batch that is written is done whole and in its order; a read gives what is held; an iterator
-- stands on the key that it sought where that is held, and goes on to the next one.
pub record IsRocksDb (R : RocksDb) : Type 0 where
  pub contents : R.Db → Contents
  pub write_lem :
      (d : R.Db) (ops : List BatchOp) (d' : R.Db)
      → R.write d ops ≡ some d'
      → contents d' ≡ after_all (contents d) ops
  pub get_lem : (d : R.Db) (k : MetaKey) → R.get d k ≡ some ((contents d).meta k)
  pub value-seek :
      (d : R.Db) (k : ℕ) (bytes : Bytes)
      → (contents d).log k ≡ some bytes
      → R.value (R.seek d k) ≡ some bytes
  pub next-seek :
      (d : R.Db) (k : ℕ) (bytes bytes' : Bytes)
      → (contents d).log k ≡ some bytes
      → (contents d).log (k + 1) ≡ some bytes'
      → R.next (R.seek d k) ≡ R.seek d (k + 1)

-- What is deserialized is what was serialized.
abbrev pub RoundTrips : {A : Type 0} → Bincode A → Type 0
RoundTrips {A = A} b =
    (a : A) (bytes : Bytes) → b.serialize a ≡ some bytes → b.deserialize bytes ≡ some a

pub record IsFaithful {T S : Type 0} (c : Codecs T S) : Type 0 where
  pub entry : RoundTrips c.entry
  pub ballot : RoundTrips c.ballot
  pub stop_sign : RoundTrips c.stop_sign
  pub state : RoundTrips c.state
  pub number : (n : ℕ) → n < 2 ^ 64 → c.read_from (c.as_bytes n) ≡ some n
