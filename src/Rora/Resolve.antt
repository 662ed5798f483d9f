-- ===== src/Rora/Resolve.antt =====
-- `_resolve_one_many_levels` of cpp/src/lib/rora_proxy_client.cc: the fragments of an alba whose
-- fragment cache is another alba are objects of that one.
use alba.Base.{ℕ, List, [], ◌∷◌, ◌++◌, Option, none, some}
use alba.Exec.{Exec, returns, raises, pure, raise, process_down, defined, ◌>>=◌}
use alba.Manifest.{ManifestWithNamespaceId}
use alba.Cache.{Bimap}
use alba.Cache.Manifests.{ManifestCache}
use alba.Rora.Key.{fragment_cache_object_name}
use alba.Rora.Slices.{Location}
use alba.Rora.Levels.{TargetSlice, resolve_one_level}

abbrev pub Located : Type 0
Located = Option (List (ℕ × Location))

-- The one slice that stands for a part of a fragment.
abbrev pub part_of : ℕ × Location → List TargetSlice
part_of (target, l) = record { target = target; offset = l.offset; size = l.length } ∷ []

module _ (bimap : Bimap ManifestWithNamespaceId) where
  abbrev pub Resolving : Type 0 → Type 0
  Resolving A = Exec (ManifestCache bimap) A

  unfoldable pub one_level : List ℕ → List ℕ → List ℕ → List TargetSlice → Resolving Located
  one_level alba_id namespace_ object_name slices cache =
      elim (resolve_one_level bimap alba_id namespace_ object_name slices cache) [
        | none ↦ (raises process_down, cache)
        | some (locations, cache') ↦ (returns locations, cache')
      ]

  unfoldable pub append_located : List (ℕ × Location) → Located → Located
  append_located first none = none
  append_located first (some rest) = some (first ++ rest)

  unfoldable pub before : Located → Resolving Located → Resolving Located
  before none rest = pure none
  before (some first) rest = do located ← rest; pure (append_located first located)

  -- The loop over the locations, which ends where one is not found on the next level.
  unfoldable pub each_location :
      (ℕ × Location → Resolving Located) → List (ℕ × Location) → Resolving Located
  each_location next [] = pure (some [])
  each_location next (l ∷ locations) =
      let rest = each_location next locations in do found ← next l; before found rest

  unfoldable pub next_level : (ℕ × Location → Resolving Located) → Located → Resolving Located
  next_level next none = pure none
  next_level next (some locations) = each_location next locations

  -- The levels from `alba_level_num` on.
  unfoldable pub resolve_one_many_levels :
      List (List ℕ) → List ℕ → List ℕ → List TargetSlice → Resolving Located
  resolve_one_many_levels [] namespace_ object_name slices = raise process_down
  resolve_one_many_levels (alba_id ∷ []) namespace_ object_name slices =
      one_level alba_id namespace_ object_name slices
  resolve_one_many_levels (alba_id ∷ level ∷ levels) namespace_ object_name slices = do
    locations ← one_level alba_id namespace_ object_name slices
    next_level
        (λ l. do
          name ← defined (fragment_cache_object_name l.1.object_id l.1.chunk_id l.1.fragment_id)
          resolve_one_many_levels (level ∷ levels) namespace_ name (part_of l))
        locations
