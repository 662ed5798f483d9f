-- ===== src/Cache/Manifests.antt =====
-- `ManifestCache` of cpp/src/lib/manifest_cache.h and cpp/src/lib/manifest_cache.cc: for each namespace
-- a cache of manifests. The map is a list of pairs. Each operation stands for a whole call: what other
-- threads do between the two locks of one call is not modelled.
use alba.Base.{ℕ, List, [], ◌∷◌, ◌++◌, Option, none, some}
use alba.Base.Options.{◌>>=◌}
use alba.Manifest.{ManifestWithNamespaceId}
use alba.Cache.{assoc, remove, Bimap, Cache, new_cache, find, insert}

unfoldable pub make_key : List ℕ → List ℕ → List ℕ
make_key alba_id object_name = alba_id ++ object_name

abbrev pub default_capacity : ℕ
default_capacity = 10000

module _ (bimap : Bimap ManifestWithNamespaceId) where
  pub record ManifestCache : Type 0 where
    pub capacity : ℕ
    pub level1 : List (List ℕ × Cache bimap)

  abbrev pub initial : ManifestCache
  initial = record { capacity = default_capacity; level1 = [] }

  unfoldable pub set_capacity : ℕ → ManifestCache → ManifestCache
  set_capacity capacity s = record s { capacity = capacity }

  abbrev pub put : List ℕ → Cache bimap → ManifestCache → ManifestCache
  put namespace_ c s = record s { level1 = (namespace_, c) ∷ remove namespace_ s.level1 }

  -- The cache of the namespace, or a new one.
  unfoldable pub cache_of : List ℕ → ManifestCache → Option (Cache bimap)
  cache_of namespace_ s = elim (assoc namespace_ s.level1) [
    | none ↦ new_cache bimap s.capacity
    | some c ↦ some c
  ]

  -- `none` is the logic_error of the constructor of a new cache.
  unfoldable pub add :
      List ℕ → List ℕ → ManifestWithNamespaceId → ManifestCache → Option ManifestCache
  add namespace_ alba_id mf s = do
    c ← cache_of namespace_ s
    some (put namespace_ (insert bimap (make_key alba_id mf.name) mf c) s)

  unfoldable pub find_manifest :
      List ℕ → List ℕ → List ℕ → ManifestCache → Option ManifestWithNamespaceId × ManifestCache
  find_manifest namespace_ alba_id object_name s = elim (assoc namespace_ s.level1) [
    | none ↦ (none, s)
    | some c ↦
        let (found, c') = find bimap (make_key alba_id object_name) c in
        (found, put namespace_ c' s)
  ]

  unfoldable pub invalidate_namespace : List ℕ → ManifestCache → ManifestCache
  invalidate_namespace namespace_ s = record s { level1 = remove namespace_ s.level1 }
