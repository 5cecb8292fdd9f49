-- ===== src/Unicache/Lru/Contents.antt =====
-- What is relied on of the crate lru.
use omnipaxos_kv_project.Prelude.{ℕ, ◌<◌, ◌≡◌, none, some, List, [], ◌∷◌, ◌++◌, length}
use omnipaxos_kv_project.Prelude.Assoc
use omnipaxos_kv_project.Prelude.Assoc.{Assoc, Eq}
use omnipaxos_kv_project.Unicache.Lru.{LruCache}

-- What the caches rely on of the crate lru. The items stand in the order of their use, the last one
-- used first: `get` uses an item, `pop_lru` takes the last one out, and `push` uses a new one, in the
-- place of the last where there is no room.
pub record IsLruCache {K V : Type 0} ⦃q : Eq K⦄ (L : LruCache K V) : Type 0 where
  pub capacity : L.Cache → ℕ
  pub capacity-new : (n : ℕ) → capacity (L.new n) ≡ n
  pub iter-new : (n : ℕ) → L.iter (L.new n) ≡ []
  pub len_lem : (c : L.Cache) → L.len c ≡ length (L.iter c)
  pub get_lem : (c : L.Cache) (k : K) → (L.get c k).1 ≡ Assoc.get (L.iter c) k
  pub capacity-get : (c : L.Cache) (k : K) → capacity (L.get c k).0 ≡ capacity c
  pub get_used :
      (c : L.Cache) (k : K) (v : V)
      → Assoc.get (L.iter c) k ≡ some v
      → L.iter (L.get c k).0 ≡ (k, v) ∷ Assoc.remove (L.iter c) k
  pub get_missed :
      (c : L.Cache) (k : K) → Assoc.get (L.iter c) k ≡ none → L.iter (L.get c k).0 ≡ L.iter c
  pub capacity-pop_lru : (c : L.Cache) → capacity (L.pop_lru c).0 ≡ capacity c
  pub pop_lru_lem :
      (c : L.Cache) (before : List (K × V)) (last : K × V)
      → L.iter c ≡ before ++ last ∷ []
      → ((L.pop_lru c).1 ≡ some last) × (L.iter (L.pop_lru c).0 ≡ before)
  pub capacity-push : (c : L.Cache) (k : K) (v : V) → capacity (L.push c k v) ≡ capacity c
  pub push_room :
      (c : L.Cache) (k : K) (v : V)
      → Assoc.get (L.iter c) k ≡ none
      → length (L.iter c) < capacity c
      → L.iter (L.push c k v) ≡ (k, v) ∷ L.iter c
  pub push_full :
      (c : L.Cache) (k : K) (v : V) (before : List (K × V)) (last : K × V)
      → Assoc.get (L.iter c) k ≡ none
      → L.iter c ≡ before ++ last ∷ []
      → length (L.iter c) ≡ capacity c
      → L.iter (L.push c k v) ≡ (k, v) ∷ before
