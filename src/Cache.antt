-- ===== src/Cache.antt =====
-- `UnsafeLRUCache` and `SafeLRUCache` of cpp/src/lib/lru_cache.h, for keys that are strings. Each
-- member function of `SafeLRUCache` holds the lock from its start to its end, so that a run of several
-- threads is a sequence of these operations.
pub mod Laws
pub mod Recency
pub mod Manifests
pub mod Keys
use alba.Base.{
  ℕ, ◌+◌, ◌≤◌, ◌<◌, ◌≡◌, List, [], ◌∷◌, ◌++◌, Bool, true, false, Option, none, some, leb, ◌==◌,
  if◌then◌else◌, string_eq, length, drop, map,
}

-- A list of pairs by its keys.
module _ {V : Type 0} where
  abbrev pub assoc : List ℕ → List (List ℕ × V) → Option V
  assoc k [] = none
  assoc k ((k', v) ∷ es) = if string_eq k k' then some v else assoc k es

  abbrev pub has : List ℕ → List (List ℕ × V) → Bool
  has k [] = false
  has k ((k', v) ∷ es) = if string_eq k k' then true else has k es

  abbrev pub remove : List ℕ → List (List ℕ × V) → List (List ℕ × V)
  remove k [] = []
  remove k ((k', v) ∷ es) = if string_eq k k' then remove k es else (k', v) ∷ remove k es

-- What the cache relies on of boost::bimap<unordered_set_of<K>, list_of<V>>: a list of pairs, to the
-- end of which `insert` adds a pair unless its key is there, with a left view by key and a right view
-- in the order of the list.
pub record Bimap (V : Type 0) : Type 1 where
  pub Carrier : Type 0
  pub empty : Carrier
  pub entries : Carrier → List (List ℕ × V)
  pub find : List ℕ → Carrier → Option V
  pub relocate : List ℕ → Carrier → Carrier
  pub insert : List ℕ → V → Carrier → Carrier × Bool
  pub erase : List ℕ → Carrier → Carrier × Bool
  pub erase_begin : Carrier → Carrier
  pub size : Carrier → ℕ
  pub entries-empty : entries empty ≡ []
  pub find_law : (k : List ℕ) (b : Carrier) → find k b ≡ assoc k (entries b)
  pub relocate_law :
      (k : List ℕ) (v : V) (b : Carrier)
      → find k b ≡ some v
      → entries (relocate k b) ≡ remove k (entries b) ++ ((k, v) ∷ [])
  pub insert_present :
      (k : List ℕ) (v : V) (b : Carrier) → has k (entries b) ≡ true → insert k v b ≡ (b, false)
  pub insert_absent :
      (k : List ℕ) (v : V) (b : Carrier)
      → has k (entries b) ≡ false
      → (entries (insert k v b).0 ≡ entries b ++ ((k, v) ∷ [])) × ((insert k v b).1 ≡ true)
  pub erase_law : (k : List ℕ) (b : Carrier) → entries (erase k b).0 ≡ remove k (entries b)
  pub erased_law : (k : List ℕ) (b : Carrier) → (erase k b).1 ≡ has k (entries b)
  pub erase_begin_law : (b : Carrier) → entries (erase_begin b) ≡ drop 1 (entries b)
  pub size_law : (b : Carrier) → size b ≡ length (entries b)

module _ {V : Type 0} (bimap : Bimap V) where
  pub record Cache : Type 0 where
    pub pairs : bimap.Carrier
    pub capacity : ℕ

  -- The constructor; `none` is the logic_error that it throws.
  unfoldable pub new_cache : ℕ → Option Cache
  new_cache capacity =
      if capacity == 0 then none else some (record { pairs = bimap.empty; capacity = capacity })

  unfoldable pub find : List ℕ → Cache → Option V × Cache
  find k c = elim (bimap.find k c.pairs) [
    | none ↦ (none, c)
    | some v ↦ (some v, record c { pairs = bimap.relocate k c.pairs })
  ]

  -- The first statement, and the rest.
  unfoldable pub make_room : Cache → bimap.Carrier
  make_room c = if leb c.capacity (bimap.size c.pairs) then bimap.erase_begin c.pairs else c.pairs

  unfoldable pub insert_pair : List ℕ → V → bimap.Carrier → bimap.Carrier
  insert_pair k v b =
      let (b', inserted) = bimap.insert k v b in
      if inserted then b' else (bimap.insert k v (bimap.erase k b').0).0

  unfoldable pub insert : List ℕ → V → Cache → Cache
  insert k v c = record c { pairs = insert_pair k v (make_room c) }

  unfoldable pub erase : List ℕ → Cache → Cache × Bool
  erase k c = let (b, erased) = bimap.erase k c.pairs in (record c { pairs = b }, erased)

  unfoldable pub keys : Cache → List (List ℕ)
  keys c = map (λ e. e.0) (bimap.entries c.pairs)
