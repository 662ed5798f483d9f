-- ===== src/Runs/Caches.antt =====
-- A bimap as a list of pairs, and caches over it.
use alba.Base.{
  ℕ, ◌<◌, ◌≤◌, ◌≡◌, refl, List, [], ◌∷◌, ◌++◌, Bool, true, false, none, some, if◌then◌else◌, length,
  drop, string_eq, arith,
}
use alba.Manifest.{ManifestWithNamespaceId}
use alba.Cache.{assoc, has, remove, Bimap, Cache, find, insert}
use alba.Cache.Recency.{
  pairs_of, found_at, evict, entries-insert, find_lem, find-insert, insert_bounded, insert_replaces,
}
use alba.Cache.Manifests.{make_key, ManifestCache, add, find_manifest, invalidate_namespace}
use alba.Cache.Keys.{
  IsValid, make_key_injective, find_manifest-add, find_manifest-invalidate_namespace,
}
use alba.Runs.Slices.{object}

module _ (V : Type 0) where
  abbrev pub pairs_insert : List ℕ → V → List (List ℕ × V) → List (List ℕ × V) × Bool
  pairs_insert k v es = if has k es then (es, false) else (es ++ ((k, v) ∷ []), true)

  pub pairs_relocate :
      (k : List ℕ) (v : V) (es : List (List ℕ × V))
      → assoc k es ≡ some v
      → found_at k (assoc k es) es ≡ remove k es ++ ((k, v) ∷ [])
  pairs_relocate k v es h = rw h refl

  abbrev pub pairs : Bimap V
  pairs = record {
    Carrier = List (List ℕ × V);
    empty = [];
    entries = λ es. es;
    find = assoc;
    relocate = λ k es. found_at k (assoc k es) es;
    insert = pairs_insert;
    erase = λ k es. (remove k es, has k es);
    erase_begin = drop 1;
    size = length;
    entries-empty = refl;
    find_law = λ k es. refl;
    relocate_law = pairs_relocate;
    insert_present = λ k v es h. rw h refl;
    insert_absent = λ k v es h. rw h (refl, refl);
    erase_law = λ k es. refl;
    erased_law = λ k es. refl;
    erase_begin_law = λ es. refl;
    size_law = λ es. refl;
  }

abbrev numbers : Bimap ℕ
numbers = pairs ℕ

abbrev full : Cache (pairs ℕ)
full = record { pairs = ((1 ∷ []), 10) ∷ ((2 ∷ []), 20) ∷ []; capacity = 2 }

entries-insert_example :
    pairs_of numbers (insert numbers (2 ∷ []) 30 full)
    ≡ remove (2 ∷ []) (evict numbers 2 (pairs_of numbers full)) ++ (((2 ∷ []), 30) ∷ [])
entries-insert_example = entries-insert numbers (2 ∷ []) 30 full

find_lem_example :
    ((find numbers (1 ∷ []) full).0 ≡ assoc (1 ∷ []) (pairs_of numbers full))
    × (pairs_of numbers (find numbers (1 ∷ []) full).1
        ≡ found_at (1 ∷ []) (assoc (1 ∷ []) (pairs_of numbers full)) (pairs_of numbers full))
find_lem_example = find_lem numbers (1 ∷ []) full

insert_bounded_example :
    length (pairs_of numbers (insert numbers (3 ∷ []) 30 full))
    ≤ (insert numbers (3 ∷ []) 30 full).capacity
insert_bounded_example = insert_bounded numbers (3 ∷ []) 30 full (omega arith) (omega arith)

find-insert_example : (find numbers (3 ∷ []) (insert numbers (3 ∷ []) 30 full)).0 ≡ some 30
find-insert_example = find-insert numbers (3 ∷ []) 30 full

abbrev roomy : Cache numbers
roomy = record { pairs = ((1 ∷ []), 10) ∷ []; capacity = 2 }

insert_replaces_example :
    ((find numbers (1 ∷ []) (insert numbers (2 ∷ []) 30 full)).0 ≡ none)
    × (length (pairs_of numbers (insert numbers (2 ∷ []) 30 full)) < length (pairs_of numbers full))
unfolding string_eq
insert_replaces_example =
    insert_replaces numbers (2 ∷ []) (1 ∷ []) 30 10 (((2 ∷ []), 20) ∷ []) full refl refl refl refl
      refl

abbrev alba_a : List ℕ
alba_a = 97 ∷ []

abbrev name_a : List ℕ
name_a = 1 ∷ 2 ∷ []

make_key_injective_example : (alba_a ≡ alba_a) × (name_a ≡ name_a)
make_key_injective_example = make_key_injective alba_a alba_a name_a name_a refl refl

abbrev pub manifests : Bimap ManifestWithNamespaceId
manifests = pairs ManifestWithNamespaceId

abbrev cache : ManifestCache manifests
cache = record { capacity = 2; level1 = ((115 ∷ []), record { pairs = []; capacity = 2 }) ∷ [] }

-- The key of alba id 97 and name 110 is that of the empty alba id and name 97, 110.
find_manifest-add_example :
    (s' : ManifestCache manifests) × ((add manifests (115 ∷ []) (97 ∷ []) object cache ≡ some s')
      × (IsValid manifests s'
          × ((find_manifest manifests (115 ∷ []) [] (97 ∷ 110 ∷ []) s').0 ≡ some object)))
unfolding make_key
find_manifest-add_example =
    find_manifest-add manifests (115 ∷ []) (97 ∷ []) [] (97 ∷ 110 ∷ []) object cache (omega arith)
      ((omega arith, omega arith), tt) refl

find_manifest-invalidate_namespace_example :
    ((find_manifest manifests
        (115 ∷ [])
        (97 ∷ [])
        (110 ∷ [])
        (invalidate_namespace manifests (115 ∷ []) cache)).0
      ≡ none)
    × ((find_manifest manifests
          (116 ∷ [])
          (97 ∷ [])
          (110 ∷ [])
          (invalidate_namespace manifests (115 ∷ []) cache)).0
        ≡ (find_manifest manifests (116 ∷ []) (97 ∷ []) (110 ∷ []) cache).0)
unfolding string_eq
find_manifest-invalidate_namespace_example =
    find_manifest-invalidate_namespace manifests (115 ∷ []) (116 ∷ []) (97 ∷ []) (110 ∷ []) cache
      refl
