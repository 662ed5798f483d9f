-- ===== src/Rora/Routes.antt =====
-- Where each object of a read comes from.
use alba.Base.{ℕ, ◌≡◌, List, [], ◌∷◌, ◌++◌, some, Bool, true, false, ◌⊎◌, All, map}
use alba.Exec.{returns}
use alba.Encryption.{supports_partial_decrypt}
use alba.Manifest.Entries.{ObjectInfo}
use alba.Cache.Manifests.{ManifestCache}
use alba.Asd.Direct.{Rc, read}
use alba.Client.{Client}
use alba.Client.Calls.{read_objects_slices2}
use alba.Rora.Slices.{Location}
use alba.Rora.ShortPath.{short_path, decrypt_all}
use alba.Rora.Client.{World, RoraClient}
use alba.Rora.Resolve.{resolve_one_many_levels}
use alba.Rora.Reads.{ObjectTargets, asked_for, Served}

-- A part of a fragment that is on an osd, not compressed, and encrypted not at all or in a way that
-- allows to decrypt a part.
pub record IsDirect (l : Location) : Type 0 where
  pub osd : (osd : ℕ) × (l.fragment_location.0 ≡ some osd)
  pub plain : l.uses_compression ≡ false
  pub decryptable : supports_partial_decrypt l.encrypt_info ≡ true

module _ (W : World) (levels : List (List ℕ)) (namespace_ : List ℕ) where
  -- The object resolved to these locations, with some cache of manifests.
  abbrev pub Resolved : ObjectTargets → List (ℕ × Location) → Type 0
  Resolved o locations =
      (m : ManifestCache W.bimap) × ((m' : ManifestCache W.bimap) × (resolve_one_many_levels W.bimap
            levels namespace_ o.object_name o.slices m
          ≡ (returns (some locations), m')))

  -- Each object, in order, is either read via the proxy, or direct from the osds at the locations that it
  -- resolved to.
  abbrev pub Routes : List ObjectTargets → List (ℕ × Location) → List ObjectTargets → Type 0
  Routes [] direct via_proxy = (direct ≡ []) × (via_proxy ≡ [])
  Routes (o ∷ objects) direct via_proxy =
      ((rest : List ObjectTargets) × ((via_proxy ≡ o ∷ rest) × Routes objects direct rest))
      ⊎ ((first : List (ℕ × Location)) × ((rest : List (ℕ × Location)) × ((direct ≡ first ++ rest)
              × (Resolved o first
                  × (All (λ l. IsDirect l.1) first × Routes objects rest via_proxy)))))

module _ (W : World) (start : ℕ) (namespace_ : List ℕ) (consistent_read : Bool) where
  -- The proxy was asked for these objects, and answered with this data.
  abbrev pub Fetched : List ObjectTargets → List (List (List ℕ)) → Type 0
  Fetched slices data_ =
      (c : Client W.transport) × ((c' : Client W.transport) × ((infos : List ObjectInfo)
          × (read_objects_slices2 W.transport W.uncompress namespace_ (map asked_for slices)
                consistent_read c
              ≡ (returns (data_, infos), c'))))

  -- The short path over these locations succeeded, and then the decryption of what it read.
  abbrev pub ReadDirect : List (List ℕ) → List (ℕ × Location) → Type 0
  ReadDirect levels direct =
      (s : RoraClient W) × ((s' : RoraClient W) × ((s'' : RoraClient W) × ((short_path W start
                direct s
              ≡ (returns read, s'))
            × (decrypt_all W levels direct s' ≡ (returns read, s'')))))

  -- The proxy was asked for the objects that go via it, if there are any. These are all of them, or each
  -- object went by its route and the reads from the osds succeeded.
  abbrev pub IsServed : List ObjectTargets → Served → Type 0
  IsServed slices served =
      (Fetched served.via_proxy served.data_ ⊎ (served.via_proxy ≡ []))
      × (((served.direct ≡ []) × (served.via_proxy ≡ slices))
          ⊎ ((levels : List (List ℕ)) × (Routes W levels namespace_ slices served.direct
                  served.via_proxy
                × ReadDirect levels served.direct)))

  abbrev Sent : List (ℕ × Location) → List ObjectTargets → Served → Type 0
  Sent direct slices served =
      (Fetched served.via_proxy served.data_ ⊎ (served.via_proxy ≡ []))
      × ((served.direct ≡ direct) × (served.via_proxy ≡ slices))

  -- What becomes of the routes.
  abbrev Settled :
      List ObjectTargets
      → List (ℕ × Location) × List ObjectTargets
      → Rc
      → List (ℕ × Location) × List ObjectTargets
      → Type 0
  Settled slices routes rc settled = (settled ≡ ([], slices)) ⊎ ((settled ≡ routes) × (rc ≡ read))
