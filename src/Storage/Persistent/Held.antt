-- ===== src/Storage/Persistent/Held.antt =====
-- When the log and the values of a database are those of a memory storage, and what a change of
-- the log makes of it.
use Prim.Native.Nat.{◌^◌, min}
use omnipaxos_kv_project.Prelude.{
  ℕ, ◌+◌, ◌-◌, ◌≤◌, ◌<◌, ◌≡◌, ◌⊎◌, Option, none, some, [], ◌∷◌, arith, dec_lt, length, get_elem?,
  take, ltb, leb, ◌==◌, ◌&&◌, if◌then◌else◌, length-append, length-drop, length-take,
  get_elem?-snoc, get_elem?-take, get_elem?-drop, get_elem?-beyond,
}
use omnipaxos_kv_project.Prelude.Words.{sub64, sub64_exact}
use omnipaxos_kv_project.Storage.Memory
use omnipaxos_kv_project.Storage.Memory.{MemoryStorage}
use omnipaxos_kv_project.Storage.Persistent.{Bytes, MetaKey, nprom, acc, decide, Codecs}
use omnipaxos_kv_project.Storage.Persistent.Direct.{read_number, read_ballot, read_optional}

module _ {T S : Type 0} where
  -- The entry that a memory storage has at an index of the whole log
  abbrev pub entry_at : MemoryStorage T S → ℕ → Option T
  entry_at m k = if ltb k m.trimmed_idx then none else get_elem? m.log (k - m.trimmed_idx)

  abbrev pub end_of : MemoryStorage T S → ℕ
  end_of m = m.trimmed_idx + length m.log

  entry_at-append :
      (m : MemoryStorage T S) (e : T) (k : ℕ)
      → entry_at (Memory.append_entry m e) k ≡ (if k == end_of m then some e else entry_at m k)
  unfolding Memory.append_entry
  entry_at-append m e k = ground (arith, get_elem?-snoc m.log e (k - m.trimmed_idx))

  entry_at-trim :
      (m : MemoryStorage T S) (idx k : ℕ)
      → m.trimmed_idx ≤ idx
      → idx ≤ end_of m
      → idx < 2 ^ 64
      → entry_at (Memory.trim m idx) k ≡ (if ltb k idx then none else entry_at m k)
  unfolding Memory.trim
  entry_at-trim m idx k l u w =
      let width : min (sub64 idx m.trimmed_idx) (length m.log) ≡ idx - m.trimmed_idx =
        omega (arith, sub64_exact idx m.trimmed_idx l w) in
      rw width (ground (arith, get_elem?-drop (idx - m.trimmed_idx) m.log (k - idx)))

module _ {T S : Type 0} (c : Codecs T S) where
  abbrev pub bytes_of : Option T → Option Bytes
  bytes_of none = none
  bytes_of (some e) = c.entry.serialize e

  -- The log up to the next key, and from `stale` on, is that of the memory storage; in between
  -- there may be old entries.
  pub record HoldsLog (log : ℕ → Option Bytes) (next stale : ℕ) (m : MemoryStorage T S)
      : Type 0 where
    pub key : next ≡ end_of m
    pub entries : (k : ℕ) → (k < next) ⊎ (stale ≤ k) → log k ≡ bytes_of (entry_at m k)
    pub present : (k : ℕ) → m.trimmed_idx ≤ k → k < next → (bytes : Bytes) × (log k ≡ some bytes)

  -- Each value that is read is that of the memory storage.
  abbrev pub HoldsMeta : (MetaKey → Option Bytes) → MemoryStorage T S → Type 0
  HoldsMeta meta m =
      (read_ballot c (meta nprom) ≡ some m.n_prom)
      × (read_ballot c (meta acc) ≡ some m.acc_round)
      × (read_number c (meta decide) ≡ some m.ld)
      × (read_number c (meta MetaKey.trim) ≡ some m.compacted_idx)
      × (read_optional c.stop_sign (meta MetaKey.stopsign) ≡ some m.stopsign)
      × (read_optional c.state (meta MetaKey.snapshot) ≡ some m.snapshot)

  pub same-HoldsLog :
      (log : ℕ → Option Bytes) (next : ℕ) (m m' : MemoryStorage T S)
      → m'.log ≡ m.log
      → m'.trimmed_idx ≡ m.trimmed_idx
      → HoldsLog log next next m
      → HoldsLog log next next m'
  same-HoldsLog log next m m' same_log same_idx h = record {
    key = rw (same_log, same_idx) h.key;
    entries = λ k where_it_is. rw (same_log, same_idx) (h.entries k where_it_is);
    present = λ k l u. h.present k (rw (← same_idx) l) u;
  }

  present_or :
      (log : ℕ → Option Bytes) (next stale : ℕ) (m : MemoryStorage T S) (bytes : Bytes) (k : ℕ)
      → HoldsLog log next stale m
      → m.trimmed_idx ≤ k
      → k < next + 1
      → (b : Bytes) × ((if k == next then some bytes else log k) ≡ some b)
  present_or log next stale m bytes k h l u = elim (dec_lt k next) [
    | yes below ↦ let (b, held) = h.present k l below in (b, ground (arith, held))
    | no beyond ↦ (bytes, ground arith)
  ]

  -- An entry is put at the next key.
  pub append-HoldsLog :
      (log : ℕ → Option Bytes) (next stale : ℕ) (m : MemoryStorage T S) (e : T) (bytes : Bytes)
      → HoldsLog log next stale m
      → c.entry.serialize e ≡ some bytes
      → HoldsLog
          (λ k. if k == next then some bytes else log k)
          (next + 1)
          stale
          (Memory.append_entry m e)
  unfolding Memory.append_entry
  append-HoldsLog log next stale m e bytes h written = record {
    key = omega (arith, h.key, length-append m.log (e ∷ []));
    entries =
        λ k where_it_is. rw (entry_at-append m e k) (ground (arith, h.key, h.entries k, written));
    present = λ k l u. present_or log next stale m bytes k h l u;
  }

  -- Where nothing stale is left, the whole log is that of the memory storage.
  pub fresh-HoldsLog :
      (log : ℕ → Option Bytes) (next stale : ℕ) (m : MemoryStorage T S)
      → HoldsLog log next stale m
      → stale ≤ next
      → HoldsLog log next next m
  fresh-HoldsLog log next stale m h l = record {
    key = h.key;
    entries = λ k where_it_is. h.entries k (ground arith);
    present = h.present;
  }

  -- The entries below an index are deleted.
  pub trim-HoldsLog :
      (log : ℕ → Option Bytes) (next : ℕ) (m : MemoryStorage T S) (idx : ℕ)
      → HoldsLog log next next m
      → m.trimmed_idx ≤ idx
      → idx ≤ end_of m
      → idx < 2 ^ 64
      → HoldsLog (λ k. if leb 0 k && ltb k idx then none else log k) next next (Memory.trim m idx)
  unfolding Memory.trim
  trim-HoldsLog log next m idx h l u w =
      let width : min (sub64 idx m.trimmed_idx) (length m.log) ≡ idx - m.trimmed_idx =
        omega (arith, sub64_exact idx m.trimmed_idx l w) in
      record {
        key = rw width (omega (arith, h.key, length-drop (idx - m.trimmed_idx) m.log));
        entries = λ k where_it_is. rw (entry_at-trim m idx k l u w) (ground (arith, h.entries k));
        present = λ k over below.
            let (b, held) = h.present k (omega arith) below in (b, ground (arith, held));
      }

  -- The log is cut at an index, where the entries that `count` new ones will replace may stay.
  pub cut-HoldsLog :
      (log log' : ℕ → Option Bytes) (next : ℕ) (m : MemoryStorage T S) (from count : ℕ)
      → HoldsLog log next next m
      → m.trimmed_idx ≤ from
      → from ≤ end_of m
      → from < 2 ^ 64
      → ((k : ℕ) → log' k ≡ (if leb (from + count) k && ltb k next then none else log k))
      → HoldsLog log' from (from + count) (record m { log = take (sub64 from m.trimmed_idx) m.log })
  cut-HoldsLog log log' next m from count h l u w cut =
      let width : sub64 from m.trimmed_idx ≡ from - m.trimmed_idx =
        sub64_exact from m.trimmed_idx l w in
      record {
        key = rw width (omega (arith, length-take (from - m.trimmed_idx) m.log));
        entries = λ k where_it_is.
            let taken = get_elem?-take (from - m.trimmed_idx) m.log (k - m.trimmed_idx) in
            let beyond = get_elem?-beyond m.log (k - m.trimmed_idx) in
            rw width (ground (arith, cut k, h.key, h.entries k, taken, beyond));
        present = λ k over below.
            let (b, held) = h.present k over (omega (arith, h.key)) in
            (b, ground (arith, cut k, held));
      }
