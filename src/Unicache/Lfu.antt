-- ===== src/Unicache/Lfu.antt =====
-- `LFUCache` of crates/custom-paxos/omnipaxos/src/unicache/lfu/mod.rs, over the crate
-- linked_hash_set, which is a parameter. A panic is none; the counters wrap around at 64 bits.
pub mod Fields
pub mod Sets
pub mod Bins
pub mod Using
pub mod Pairs
pub mod Mirror
pub mod StaysAlike
pub mod Synced
pub mod Evicting
pub mod RoundTrip
pub mod Serializing
pub mod Cloning
use omnipaxos_kv_project.Prelude.{
  ◌>>=◌, ℕ, zero, suc, Option, none, some, List, [], ◌∷◌, Bool, true, false, ◌&&◌, ◌==◌, leb,
  length, map, if◌then◌else◌,
}
use omnipaxos_kv_project.Prelude.Assoc
use omnipaxos_kv_project.Prelude.Assoc.{Assoc, Eq, nat_eq}
use omnipaxos_kv_project.Prelude.Words.{add64}

-- What the source uses of `linked_hash_set::LinkedHashSet`
pub record LinkedHashSet (K : Type 0) : Type 1 where
  pub Set : Type 0
  pub default : Set
  pub with_capacity : ℕ → Set
  pub insert : Set → K → Set
  pub remove : Set → K → Set
  pub pop_front : Set → Option (K × Set)
  pub is_empty : Set → Bool
  pub iter : Set → List K

pub record ValueCounter (V : Type 0) : Type 0 where
  pub value : V
  pub count : ℕ

-- `ValueCounter::inc`
abbrev pub inc : {V : Type 0} → ValueCounter V → ValueCounter V
inc x = record x { count = add64 x.count 1 }

pub record LfuCache {K : Type 0} (H : LinkedHashSet K) (V : Type 0) : Type 0 where
  pub values : Assoc K (ValueCounter V)
  pub frequency_bin : Assoc ℕ H.Set
  pub capacity : ℕ
  pub min_frequency : ℕ

-- `entry(..).or_default()`
abbrev pub or_default : {K : Type 0} (H : LinkedHashSet K) → Option H.Set → H.Set
or_default H none = H.default
or_default H (some bin) = bin

-- `frequency_bin.entry(n).or_default().insert(key)`
abbrev pub add_to_bin : {K : Type 0} (H : LinkedHashSet K) → Assoc ℕ H.Set → ℕ → K → Assoc ℕ H.Set
add_to_bin H bins n key = Assoc.insert bins n (H.insert (or_default H (Assoc.get bins n)) key)

module _ {K V : Type 0} (H : LinkedHashSet K) where
  unfoldable pub with_capacity : ℕ → Option (LfuCache H V)
  with_capacity zero = none
  with_capacity (suc n) =
      some (record { values = []; frequency_bin = []; capacity = suc n; min_frequency = 0 })

  abbrev pub len : LfuCache H V → ℕ
  len c = length c.values

  abbrev pub is_empty : LfuCache H V → Bool
  is_empty c = length c.values == 0

  -- `iter`, in the order of the map
  abbrev pub iter : LfuCache H V → List (K × V)
  iter c = map (λ item. (item.0, item.1.value)) c.values

module _ {K V : Type 0} ⦃q : Eq K⦄ (H : LinkedHashSet K) where
  abbrev pub contains : LfuCache H V → K → Bool
  contains c key = elim (Assoc.get c.values key) [ none ↦ false | some _ ↦ true ]

  abbrev pub removed : LfuCache H V → K → Option (ValueCounter V) → LfuCache H V × Option V
  removed c key none = (c, none)
  removed c key (some x) =
      let bin = or_default H (Assoc.get c.frequency_bin x.count) in
      (
        record c {
          values = Assoc.remove c.values key;
          frequency_bin = Assoc.insert c.frequency_bin x.count (H.remove bin key);
        },
        some x.value,
      )

  unfoldable pub remove : LfuCache H V → K → LfuCache H V × Option V
  remove c key = removed c key (Assoc.get c.values key)

  -- A key that was found moves from its bin to the next one.
  abbrev pub moved : LfuCache H V → K → ValueCounter V → H.Set → LfuCache H V
  moved c key x bin =
      let left = H.remove bin key in
      let bins = Assoc.insert c.frequency_bin x.count left in
      record c {
        values = Assoc.insert c.values key (inc x);
        min_frequency =
            if x.count == c.min_frequency && H.is_empty left
            then add64 c.min_frequency 1
            else c.min_frequency;
        frequency_bin = add_to_bin H bins (add64 x.count 1) key;
      }

  abbrev pub updated : LfuCache H V → K → Option (ValueCounter V) → Option (LfuCache H V)
  updated c key none = some c
  updated c key (some x) = do bin ← Assoc.get c.frequency_bin x.count; some (moved c key x bin)

  unfoldable pub update_frequency_bin : LfuCache H V → K → Option (LfuCache H V)
  update_frequency_bin c key = updated c key (Assoc.get c.values key)

  abbrev pub value_of : Option (ValueCounter V) → Option V
  value_of none = none
  value_of (some x) = some x.value

  unfoldable pub get : LfuCache H V → K → Option (LfuCache H V × Option V)
  unfolding update_frequency_bin
  get c key = do c' ← update_frequency_bin c key; some (c', value_of (Assoc.get c'.values key))

  -- The cache without the key that was used least, and that key with its value
  abbrev pub evicted : LfuCache H V → K × H.Set → LfuCache H V × K × Option V
  evicted c (key, left) = (
    record c {
      values = Assoc.remove c.values key;
      frequency_bin = Assoc.insert c.frequency_bin c.min_frequency left;
    },
    key,
    value_of (Assoc.get c.values key),
  )

  -- `index`
  unfoldable pub index : LfuCache H V → K → Option V
  index c key = value_of (Assoc.get c.values key)

  unfoldable pub evict : LfuCache H V → Option (LfuCache H V)
  evict c = do
    bin ← Assoc.get c.frequency_bin c.min_frequency
    front ← H.pop_front bin
    some (evicted c front).0

  abbrev pub key_from : LfuCache H V → Option H.Set → Option (LfuCache H V × Option K)
  key_from c none = some (c, none)
  key_from c (some bin) = do
    front ← H.pop_front bin
    some ((evicted c front).0, some (evicted c front).1)

  unfoldable pub evict_and_return_key : LfuCache H V → Option (LfuCache H V × Option K)
  evict_and_return_key c = key_from c (Assoc.get c.frequency_bin c.min_frequency)

  abbrev pub value_from : LfuCache H V → Option H.Set → Option (LfuCache H V × Option V)
  value_from c none = some (c, none)
  value_from c (some bin) = do
    front ← H.pop_front bin
    some ((evicted c front).0, (evicted c front).2)

  unfoldable pub evict_and_return_value : LfuCache H V → Option (LfuCache H V × Option V)
  evict_and_return_value c = value_from c (Assoc.get c.frequency_bin c.min_frequency)

  abbrev pub inserted : LfuCache H V → K → V → LfuCache H V
  inserted c key value = record c {
    values = Assoc.insert c.values key (record { value = value; count = 1 });
    min_frequency = 1;
    frequency_bin = add_to_bin H c.frequency_bin 1 key;
  }

  abbrev pub set_found : LfuCache H V → K → V → Option (ValueCounter V) → Option (LfuCache H V)
  unfolding update_frequency_bin evict
  set_found c key value (some x) =
      update_frequency_bin
        (record c { values = Assoc.insert c.values key (record x { value = value }) }) key
  set_found c key value none = do
    c' ← if leb c.capacity (len H c) then evict c else some c
    some (inserted c' key value)

  unfoldable pub set : LfuCache H V → K → V → Option (LfuCache H V)
  unfolding update_frequency_bin evict
  set c key value = set_found c key value (Assoc.get c.values key)
