-- ===== src/Rora/Reads.antt =====
-- `read_objects_slices` of cpp/src/lib/rora_proxy_client.cc: straight from the osds, or via the proxy.
-- `start` and `end` are what the clock says up to the reads from the osds, and after them.
use alba.Base.{
  ℕ, suc, ◌+◌, ◌-◌, ◌/◌, ◌%◌, List, [], ◌∷◌, ◌++◌, Bool, true, false, not, ◌&&◌, ◌||◌, Option, none,
  some, map, length, ltb, if◌then◌else◌, u64,
}
use alba.Exec.{Exec, other_exception, pure, raise, gets, modify, ◌>>=◌, ◌>>◌}
use alba.Encryption.{supports_partial_decrypt}
use alba.Manifest.Entries.{ObjectInfo}
use alba.Cache.Manifests.{ManifestCache, add}
use alba.Asd.Pool.{second}
use alba.Asd.Direct.{Rc, read, failed, disqualified}
use alba.Proxy.Requests.{ObjectSlices, SliceDescriptor}
use alba.Client.{RoraCounter}
use alba.Client.Calls.{read_objects_slices2}
use alba.Rora.Slices.{Location}
use alba.Rora.Levels.{TargetSlice}
use alba.Rora.Client.{World, RoraClient, delegated, on_manifests}
use alba.Rora.Access.{get_alba_levels}
use alba.Rora.Resolve.{Located, resolve_one_many_levels}
use alba.Rora.ShortPath.{short_path, decrypt_all}

-- `ObjectSlices`, with the targets of the slices.
pub record ObjectTargets : Type 0 where
  pub object_name : List ℕ
  pub slices : List TargetSlice

abbrev pub descriptor : TargetSlice → SliceDescriptor
descriptor s = record { offset = s.offset; size = s.size }

abbrev pub asked_for : ObjectTargets → ObjectSlices
asked_for o = record { object_name = o.object_name; slices = map descriptor o.slices }

-- What was read straight from the osds, and the objects that were read via the proxy with their data.
pub record Served : Type 0 where
  pub direct : List (ℕ × Location)
  pub via_proxy : List ObjectTargets
  pub data_ : List (List (List ℕ))

abbrev pub max_fast_path_failures : ℕ
max_fast_path_failures = 100

abbrev pub retry_after : ℕ
retry_after = 120

abbrev pub has_no_osd : Location → Bool
has_no_osd l = elim l.fragment_location.0 [ none ↦ true | some osd ↦ false ]

-- The predicate of `std::any_of`.
unfoldable pub is_excluded : ℕ × Location → Bool
is_excluded (target, l) =
    has_no_osd l || l.uses_compression || not (supports_partial_decrypt l.encrypt_info)

unfoldable pub any_excluded : List (ℕ × Location) → Bool
any_excluded [] = false
any_excluded (l ∷ locations) = is_excluded l || any_excluded locations

-- One round of the loop over the objects: the locations join the short path, or the object is read via
-- the proxy.
unfoldable pub route :
    ObjectTargets
    → Located
    → List (ℕ × Location) × List ObjectTargets
    → List (ℕ × Location) × List ObjectTargets
route o none (short, via_proxy) = (short, o ∷ via_proxy)
route o (some locations) (short, via_proxy) =
    if any_excluded locations then (short, o ∷ via_proxy) else (locations ++ short, via_proxy)

unfoldable pub count_fast : ℕ → RoraCounter → RoraCounter
count_fast n cntr = record cntr { fast_path = (cntr.fast_path + n) % u64 }

module _ (W : World) where
  -- Whether the slow path is used; a shut fast path is opened again after two minutes.
  unfoldable pub choose_path : ℕ → Bool → Exec (RoraClient W) Bool
  choose_path start consistent_read = do
    s ← gets (λ s. s)
    if ltb max_fast_path_failures s.fast_path_failures
        then (if ltb retry_after ((start - s.failure_time) / second)
            then (do
              modify (λ s. record s { fast_path_failures = 0 })
              pure (consistent_read && s.has_local_fragment_cache))
            else pure true)
        else pure (consistent_read && s.has_local_fragment_cache)

  -- `at(0)` throws where there is none.
  unfoldable pub first_level : List (List ℕ) → Exec (RoraClient W) (List ℕ)
  first_level [] = raise other_exception
  first_level (alba_id ∷ levels) = pure alba_id

  unfoldable pub alba_id_for : List ℕ → Exec (RoraClient W) (List ℕ)
  alba_id_for [] = do levels ← get_alba_levels W; first_level levels
  alba_id_for (byte ∷ bytes) = pure (byte ∷ bytes)

  -- A cache that cannot be made throws.
  unfoldable pub replace_manifests : Option (ManifestCache W.bimap) → Exec (RoraClient W) (Unit {0})
  replace_manifests none = raise other_exception
  replace_manifests (some manifests) = modify (λ s. record s { manifests = manifests })

  unfoldable pub process : List ℕ → List ObjectInfo → Exec (RoraClient W) (Unit {0})
  process namespace_ [] = pure tt
  process namespace_ (info ∷ infos) = do
    alba_id ← alba_id_for info.alba_id
    manifests ← gets (λ s. s.manifests)
    replace_manifests (add W.bimap namespace_ alba_id info.manifest manifests)
    process namespace_ infos

  unfoldable pub slow_path :
      List ℕ
      → List ObjectTargets
      → Bool
      → Exec (RoraClient W) (List (List (List ℕ)) × List ObjectInfo)
  slow_path namespace_ slices consistent_read = delegated W (
      read_objects_slices2 W.transport W.uncompress namespace_ (map asked_for slices)
        consistent_read)

  -- `_slow_path` and `_process`.
  unfoldable pub by_proxy :
      List ℕ → List ObjectTargets → Bool → List (ℕ × Location) → Exec (RoraClient W) Served
  by_proxy namespace_ slices consistent_read direct = do
    (data_, infos) ← slow_path namespace_ slices consistent_read
    process namespace_ infos
    pure (record { direct = direct; via_proxy = slices; data_ = data_ })

  unfoldable pub route_all :
      List (List ℕ)
      → List ℕ
      → List ObjectTargets
      → Exec (RoraClient W) (List (ℕ × Location) × List ObjectTargets)
  route_all levels namespace_ [] = pure ([], [])
  route_all levels namespace_ (o ∷ objects) = do
    located ←
        on_manifests W (resolve_one_many_levels W.bimap levels namespace_ o.object_name o.slices)
    routes ← route_all levels namespace_ objects
    pure (route o located routes)

  unfoldable pub decrypt_read : List (List ℕ) → List (ℕ × Location) → Rc → Exec (RoraClient W) Rc
  decrypt_read levels short read = decrypt_all W levels short
  decrypt_read levels short failed = pure failed
  decrypt_read levels short disqualified = pure disqualified

  -- Where the short path failed, everything is read via the proxy.
  unfoldable pub settle :
      ℕ
      → List ObjectTargets
      → List (ℕ × Location) × List ObjectTargets
      → Rc
      → Exec (RoraClient W) (List (ℕ × Location) × List ObjectTargets)
  settle end slices (short, via_proxy) read = do
    modify (λ s. record s {
      fast_path_failures = 0;
      delegate = record s.delegate { counter = count_fast (length short) s.delegate.counter };
    })
    pure (short, via_proxy)
  settle end slices (short, via_proxy) failed = do
    modify (λ s. record s { failure_time = end; fast_path_failures = suc s.fast_path_failures })
    pure ([], slices)
  settle end slices (short, via_proxy) disqualified = do
    modify (λ s. record s { failure_time = end })
    pure ([], slices)

  unfoldable pub remaining :
      List ℕ → Bool → List (ℕ × Location) × List ObjectTargets → Exec (RoraClient W) Served
  remaining namespace_ consistent_read (direct, []) =
      pure (record { direct = direct; via_proxy = []; data_ = [] })
  remaining namespace_ consistent_read (direct, o ∷ via_proxy) =
      by_proxy namespace_ (o ∷ via_proxy) consistent_read direct

  unfoldable pub fast_path : ℕ → ℕ → List ℕ → List ObjectTargets → Bool → Exec (RoraClient W) Served
  fast_path start end namespace_ slices consistent_read = do
    levels ← get_alba_levels W
    routes ← route_all levels namespace_ slices
    rc ← short_path W start routes.0
    rc' ← decrypt_read levels routes.0 rc
    settled ← settle end slices routes rc'
    remaining namespace_ consistent_read settled

  unfoldable pub read_objects_slices :
      ℕ → ℕ → List ℕ → List ObjectTargets → Bool → Exec (RoraClient W) Served
  read_objects_slices start end namespace_ slices consistent_read = do
    use_slow_path ← choose_path start consistent_read
    if use_slow_path
        then by_proxy namespace_ slices consistent_read []
        else fast_path start end namespace_ slices consistent_read
