-- ===== src/Rora/Levels.antt =====
-- `_resolve_one_level` of cpp/src/lib/rora_proxy_client.cc: the slices of one object, by the manifest
-- in the cache.
use alba.Base.{ℕ, ◌+◌, ◌≤◌, ◌<◌, ◌≡◌, refl, List, [], ◌∷◌, ◌++◌, All, Option, none, some, u32}
use alba.Base.Options.{◌>>=◌}
use alba.Manifest.{ManifestWithNamespaceId}
use alba.Cache.{Bimap}
use alba.Cache.Manifests.{ManifestCache, find_manifest}
use alba.Rora.Slices.{Location, resolve_slice_one_level}
use alba.Rora.Chunks.{sum}
use alba.Rora.Tiling.{IsLaidOut}
use alba.Rora.Covering.{Covers, resolve_slice_one_level-Covers}

-- `SliceDescriptor`; the target is an offset from the start of a buffer.
pub record TargetSlice : Type 0 where
  pub target : ℕ
  pub offset : ℕ
  pub size : ℕ

-- The loop over the slices, each with as much fuel as it has bytes.
unfoldable pub resolve_slices :
    ManifestWithNamespaceId → List TargetSlice → Option (List (ℕ × Location))
resolve_slices mf [] = some []
resolve_slices mf (slice ∷ slices) = do
  results ← resolve_slice_one_level slice.size mf slice.offset slice.size slice.target
  rest ← resolve_slices mf slices
  some (results ++ rest)

-- `boost::none` where the manifest is not in the cache.
unfoldable pub resolve_found :
    Option ManifestWithNamespaceId → List TargetSlice → Option (Option (List (ℕ × Location)))
resolve_found none slices = some none
resolve_found (some mf) slices = do results ← resolve_slices mf slices; some (some results)

module _ (bimap : Bimap ManifestWithNamespaceId) where
  unfoldable pub resolve_one_level :
      List ℕ
      → List ℕ
      → List ℕ
      → List TargetSlice
      → ManifestCache bimap
      → Option (Option (List (ℕ × Location)) × ManifestCache bimap)
  resolve_one_level alba_id namespace_ object_name slices cache =
      let (mf, cache') = find_manifest bimap namespace_ alba_id object_name cache in
      resolve_found mf slices >>= λ results. some (results, cache')

abbrev pub IsInside : ManifestWithNamespaceId → TargetSlice → Type 0
IsInside mf s = (s.size < u32) × (s.offset + s.size ≤ sum mf.chunk_sizes)

-- The results are those of the slices in their order, and those of each slice cover it.
abbrev pub CoversAll : ManifestWithNamespaceId → List TargetSlice → List (ℕ × Location) → Type 0
CoversAll mf [] results = results ≡ []
CoversAll mf (s ∷ slices) results =
    (first : List (ℕ × Location)) × ((rest : List (ℕ × Location)) × ((results ≡ first ++ rest)
        × (Covers mf s.offset s.size s.target first × CoversAll mf slices rest)))

module _ (mf : ManifestWithNamespaceId) (laid : IsLaidOut mf) where
  resolve_slices-CoversAll :
      (slices : List TargetSlice)
      → All (IsInside mf) slices
      → (results : List (ℕ × Location)) × ((resolve_slices mf slices ≡ some results)
          × CoversAll mf slices results)
  unfolding resolve_slices
  resolve_slices-CoversAll [] h = ([], (refl, refl))
  resolve_slices-CoversAll (s ∷ slices) (h, hs) =
      let (first, p) = resolve_slice_one_level-Covers mf laid s.offset s.size s.target h.0 h.1 in
      let (rest, q) = resolve_slices-CoversAll slices hs in
      (first ++ rest, (both s slices first rest p.0 q.0, (first, (rest, (refl, (p.1, q.1))))))
    where
      both :
          (s : TargetSlice) (slices : List TargetSlice) (first rest : List (ℕ × Location))
          → resolve_slice_one_level s.size mf s.offset s.size s.target ≡ some first
          → resolve_slices mf slices ≡ some rest
          → resolve_slices mf (s ∷ slices) ≡ some (first ++ rest)
      both s slices first rest e f = rw (e, f) refl

  -- Where the manifest of an object is in the cache and laid out, slices inside the object resolve, in
  -- their order, to locations that cover each of them.
  pub resolve_one_level-CoversAll :
      (bimap : Bimap ManifestWithNamespaceId) (alba_id namespace_ object_name : List ℕ)
      (slices : List TargetSlice) (cache : ManifestCache bimap)
      → (find_manifest bimap namespace_ alba_id object_name cache).0 ≡ some mf
      → All (IsInside mf) slices
      → (results : List (ℕ × Location)) × ((resolve_one_level bimap alba_id namespace_ object_name
              slices cache
            ≡ some (some results, (find_manifest bimap namespace_ alba_id object_name cache).1))
          × CoversAll mf slices results)
  unfolding resolve_one_level resolve_found
  resolve_one_level-CoversAll bimap alba_id namespace_ object_name slices cache found h =
      let (results, r) = resolve_slices-CoversAll slices h in
      (results, (rw (found, resolve_found, r.0) refl, r.1))
