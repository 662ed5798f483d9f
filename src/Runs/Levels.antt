-- ===== src/Runs/Levels.antt =====
-- Two slices of an object whose manifest is in the cache.
use alba.Base.{ℕ, ◌≡◌, refl, List, [], ◌∷◌, some, string_eq, arith}
use alba.Cache.{find}
use alba.Cache.Manifests.{ManifestCache, make_key, find_manifest}
use alba.Rora.Slices.{Location}
use alba.Rora.Levels.{TargetSlice, resolve_one_level, CoversAll, resolve_one_level-CoversAll}
use alba.Runs.Slices.{object, object-IsLaidOut}
use alba.Runs.Caches.{manifests}

abbrev slices : List TargetSlice
slices =
    record { target = 0; offset = 3; size = 9 } ∷ record { target = 9; offset = 0; size = 2 } ∷ []

-- Alba id 97, name 110.
abbrev pub filled : ManifestCache manifests
filled = record {
  capacity = 2;
  level1 = ((115 ∷ []), record { pairs = ((97 ∷ 110 ∷ []), object) ∷ []; capacity = 2 }) ∷ [];
}

resolve_one_level-CoversAll_example :
    (results : List (ℕ × Location)) × ((resolve_one_level manifests
          (97 ∷ [])
          (115 ∷ [])
          (110 ∷ [])
          slices
          filled
        ≡ some (some results, (find_manifest manifests (115 ∷ []) (97 ∷ []) (110 ∷ []) filled).1))
      × CoversAll object slices results)
unfolding find_manifest find make_key string_eq
resolve_one_level-CoversAll_example =
    resolve_one_level-CoversAll object object-IsLaidOut manifests (97 ∷ []) (115 ∷ []) (110 ∷ [])
      slices filled refl ((omega arith, omega arith), ((omega arith, omega arith), tt))
