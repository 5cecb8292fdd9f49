-- ===== src/Storage/Internal/Reading.antt =====
-- What `read_decided_suffix` returns.
use Prim.Native.Nat.{◌^◌}
use omnipaxos_kv_project.Prelude.{
  ℕ, ◌+◌, ◌-◌, ◌≤◌, ◌<◌, ◌≡◌, refl, none, some, List, [], ◌∷◌, map, arith, lt→ltb, length,
  length-take, take, drop,
}
use omnipaxos_kv_project.Prelude.Words.{add64, sub64, sub64_exact}
use omnipaxos_kv_project.Storage.{decided, entry, ok}
use omnipaxos_kv_project.Storage.Memory
use omnipaxos_kv_project.Storage.Internal.{InternalStorage}
use omnipaxos_kv_project.Storage.Internal.Read.{
  label, create_read_log_entries, read, read_decided_suffix, get_entry_type,
}
use omnipaxos_kv_project.Storage.Internal.Consistency.{IsConsistent}

-- Below the decided index every entry is labelled as decided.
label_below {ℓ} :
    {T : Type ℓ} (d i : ℕ) (es : List T) → i + length es ≤ d → label d i es ≡ map decided es
unfolding label
label_below d i [] h = refl
label_below d i (e ∷ es) h = ground (arith, label_below d (i + 1) es)

slice_in_range :
    {A : Type 0} (l : List A) (from to : ℕ)
    → from ≤ to
    → to ≤ length l
    → Memory.slice l from to ≡ some (take (to - from) (drop from l))
slice_in_range l from to h k = ground arith

module _ {T S : Type 0} (s : InternalStorage T S) (h : IsConsistent s) where
  open s.state_cache use {decided_idx, accepted_idx, compacted_idx, stopsign}

  -- The entries from the index `from` up to `to`, as the uncompacted log would have them
  abbrev pub window : ℕ → ℕ → List T
  window from to = take (to - from) (drop (from - compacted_idx) s.storage.log)

  get_entries-window :
      (from to : ℕ)
      → compacted_idx ≤ from
      → from < to
      → to ≤ accepted_idx
      → stopsign ≡ none
      → Memory.get_entries s.storage from to ≡ window from to
  unfolding Memory.get_entries
  get_entries-window from to l b u n =
      let f : sub64 from compacted_idx ≡ from - compacted_idx =
        sub64_exact from compacted_idx l (omega (arith, h.fits)) in
      let t : sub64 to compacted_idx ≡ to - compacted_idx =
        sub64_exact to compacted_idx (omega arith) (omega (arith, h.fits)) in
      let size : to - compacted_idx ≤ length s.storage.log = ground (arith, h.accepted, n) in
      let width : to - compacted_idx - (from - compacted_idx) ≡ to - from = omega arith in
      rw (
        h.trimmed,
        f,
        t,
        slice_in_range s.storage.log (from - compacted_idx) (to - compacted_idx) (omega arith) size,
        width,
      )

  entry_type :
      (idx : ℕ)
      → compacted_idx ≤ idx
      → idx < accepted_idx
      → stopsign ≡ none
      → get_entry_type s idx compacted_idx accepted_idx ≡ some entry
  unfolding get_entry_type add64
  entry_type idx l u n = ground (arith, h.fits)

  -- No entry stands at or beyond the accepted index, which is at least the compacted one.
  entry_type_beyond :
      (idx : ℕ)
      → accepted_idx ≤ idx
      → idx + 1 < 2 ^ 64
      → get_entry_type s idx compacted_idx accepted_idx ≡ none
  unfolding get_entry_type add64
  entry_type_beyond idx l w = ground (arith, h.accepted)

  labelled :
      (from : ℕ)
      → compacted_idx ≤ from
      → from < decided_idx
      → decided_idx ≤ accepted_idx
      → stopsign ≡ none
      → create_read_log_entries s from decided_idx ≡ map decided (window from decided_idx)
  unfolding create_read_log_entries
  labelled from l b u n =
      let rest = drop (from - compacted_idx) s.storage.log in
      rw (get_entries-window from decided_idx l b u n) (
        label_below decided_idx from (window from decided_idx)
          (omega (arith, length-take (decided_idx - from) rest)))

  -- In a consistent storage without a stop-sign, whose decided index is within the accepted log, a
  -- read from an index below the decided one that is not compacted returns the decided entries from
  -- there on, in the order of the log and each labelled as decided.
  pub read_decided_suffix-window :
      (from : ℕ)
      → compacted_idx ≤ from
      → from < decided_idx
      → decided_idx ≤ accepted_idx
      → stopsign ≡ none
      → read_decided_suffix s from ≡ ok (some (map decided (window from decided_idx)))
  unfolding read_decided_suffix read
  read_decided_suffix-window from l b u n =
      let last : sub64 decided_idx 1 ≡ decided_idx - 1 =
        sub64_exact decided_idx 1 (omega arith) (omega (arith, h.fits)) in
      rw
        (
          lt→ltb from decided_idx b,
          last,
          entry_type from l (omega arith) n,
          entry_type (decided_idx - 1) (omega arith) (omega arith) n,
        )
        (ground (arith, labelled from l b u n))

  -- In a consistent storage whose decided index is beyond the accepted log, and a `usize`, a read
  -- of the decided entries from an index below it returns none.
  pub read_decided_suffix-beyond :
      (from : ℕ)
      → from < decided_idx
      → accepted_idx < decided_idx
      → decided_idx < 2 ^ 64
      → read_decided_suffix s from ≡ ok none
  unfolding read_decided_suffix read add64 sub64
  read_decided_suffix-beyond from b u w =
      let last : sub64 decided_idx 1 ≡ decided_idx - 1 =
        sub64_exact decided_idx 1 (omega arith) w in
      let compacted_or_beyond = entry_type_beyond (decided_idx - 1) (omega arith) (omega arith) in
      ground (arith, last, compacted_or_beyond)
