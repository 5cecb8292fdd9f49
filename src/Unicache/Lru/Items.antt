-- ===== src/Unicache/Lru/Items.antt =====
-- The items that an encoder and a decoder share, and what a field makes of them.
use omnipaxos_kv_project.Prelude.{
  ℕ, suc, ◌<◌, ◌≤◌, ◌≡◌, refl, sym, subst, none, some, List, [], ◌∷◌, ◌++◌, All, length,
  length-append, arith,
}
use omnipaxos_kv_project.Prelude.Assoc
use omnipaxos_kv_project.Prelude.Assoc.{Assoc, Eq}
use omnipaxos_kv_project.Unicache.{IncrementByOne, code, swapped}
use omnipaxos_kv_project.Unicache.OneToOne.{
  IsOneToOne, get-append_none, get-remove_self, swapped-remove, remove-IsOneToOne, length-remove,
  snoc-IsOneToOne, All-snoc, All-remove, All-get,
}
use omnipaxos_kv_project.Unicache.Codes.{AreDistinct, IsCode, next-absent, more_codes}

module _ {K E : Type 0} ⦃q : Eq K⦄ ⦃r : Eq E⦄ (i : IncrementByOne E) (size : ℕ) where
  -- The items of both: of a size that they have, one to one, under the codes that were made.
  pub record Items (items : List (K × E)) : Type 0 where
    pub within : length items ≤ size
    pub one : IsOneToOne items
    pub codes : All (λ item. IsCode i (length items) item.1) items

  -- A field that is there moves to the front.
  pub used-Items :
      (items : List (K × E)) (k : K) (e : E)
      → Items items
      → Assoc.get items k ≡ some e
      → Items ((k, e) ∷ Assoc.remove items k)
  used-Items items k e s found =
      let same = length-remove items k e s.one found in
      let value : Assoc.get (swapped (Assoc.remove items k)) e ≡ none =
        rw (swapped-remove items k e s.one found) (get-remove_self (swapped items) e) in
      record {
        within = omega (arith, s.within);
        one = (get-remove_self items k, value, remove-IsOneToOne items k e s.one found);
        codes =
            subst (λ n. All (λ item. IsCode i n item.1) ((k, e) ∷ Assoc.remove items k)) (sym same)
              (
                All-get (IsCode i (length items)) items k e s.codes found,
                All-remove (λ item. IsCode i (length items) item.1) items k s.codes,
              );
      }

  -- A new field gets the next code.
  pub new-Items :
      (items : List (K × E)) (k : K)
      → AreDistinct i size
      → Items items
      → length items < size
      → Assoc.get items k ≡ none
      → Items ((k, code i (suc (length items))) ∷ items)
  new-Items items k distinct s room absent = record {
    within = room;
    one = (absent, next-absent i size (length items) items distinct room s.codes, s.one);
    codes = ((length items, omega arith, refl), more_codes i (length items) items s.codes);
  }

  -- A new field takes the code of the last one.
  pub full-Items :
      (before : List (K × E)) (k j : K) (e : E)
      → Items (before ++ (j, e) ∷ [])
      → Assoc.get (before ++ (j, e) ∷ []) k ≡ none
      → Items ((k, e) ∷ before)
  full-Items before k j e s absent =
      let same : length (before ++ (j, e) ∷ []) ≡ suc (length before) =
        omega (arith, length-append before ((j, e) ∷ [])) in
      let (no_key, no_value, one) = snoc-IsOneToOne before j e s.one in
      let (rest, last) =
        All-snoc (λ item. IsCode i (suc (length before)) item.1) before (j, e)
          (rw same at s.codes) in
      record {
        within = omega (arith, s.within, same);
        one = ((get-append_none before ((j, e) ∷ []) k absent).0, no_value, one);
        codes = (last, rest);
      }
