-- ===== src/Rora/ShortPath.antt =====
-- `_short_path` of cpp/src/lib/rora_proxy_client.cc, and the loop of `read_objects_slices` that decrypts
-- what it read.
use alba.Base.{
  true, false, ℕ, List, [], ◌∷◌, ◌++◌, Bool, Option, none, some, ◌==◌, ltb, if◌then◌else◌,
}
use alba.Base.Options.{◌>>=◌ as ◌>>=?◌}
use alba.Exec.{
  Fault, process_down, thrown_int, Exec, pure, raise, gets, defined, modify, ◌>>=◌, ◌>>◌, catch,
}
use alba.Encryption.{EncryptInfo, Encrypted, no_encryption, encrypted}
use alba.Encryption.Decrypt.{partial_decrypt}
use alba.Osd.{OsdInfo}
use alba.Asd.Direct.{OsdMap, find_osd, last, Rc, read, failed, read_osds_slices}
use alba.Rora.Slices.{Location}
use alba.Rora.Key.{fragment_key}
use alba.Rora.Client.{World, AsdSlice, RoraClient}
use alba.Rora.Access.{maybe_update_osd_infos}
use alba.Rora.Keys.{get_encryption_key}

abbrev pub PerOsd : Type 0
PerOsd = List (ℕ × List AsdSlice)

-- A slice goes behind those of its osd, in the order of the osds.
unfoldable pub push_slice : ℕ → AsdSlice → PerOsd → PerOsd
push_slice osd slice [] = (osd, slice ∷ []) ∷ []
push_slice osd slice ((i, slices) ∷ per_osd) =
    let rest = push_slice osd slice per_osd in
    if osd == i
    then (i, slices ++ (slice ∷ [])) ∷ per_osd
    else if ltb osd i
    then (osd, slice ∷ []) ∷ (i, slices) ∷ per_osd
    else (i, slices) ∷ rest

-- `_find_osd` for each osd.
unfoldable pub found_osds :
    List (List ℕ × OsdMap) → PerOsd → Option (List (Option OsdInfo × List AsdSlice))
found_osds maps [] = some []
found_osds maps ((osd, slices) ∷ per_osd) =
    find_osd osd maps >>=? λ info. found_osds maps per_osd >>=? λ rest. some ((info, slices) ∷ rest)

-- What is no exception.
unfoldable pub is_down : Fault → Bool
is_down process_down = true
is_down f = false

module _ (W : World) where
  unfoldable pub key_of : Location → Exec (RoraClient W) (List ℕ)
  key_of l = do
    fkb ← gets (λ s. s.fkb)
    (key, fkb') ←
        defined (
          fragment_key l.namespace_id l.object_id l.fragment_location.1 l.chunk_id l.fragment_id
            fkb)
    modify (λ s. record s { fkb = fkb' })
    pure key

  -- `*l.fragment_location.first` of no osd is undefined.
  unfoldable pub per_osd_loop : List (ℕ × Location) → PerOsd → Exec (RoraClient W) PerOsd
  per_osd_loop [] per_osd = pure per_osd
  per_osd_loop ((target, l) ∷ locations) per_osd = do
    osd ← defined l.fragment_location.0
    key ← key_of l
    per_osd_loop locations (
        push_slice osd (record { key = key; offset = l.offset; len = l.length; target = target })
          per_osd)

  unfoldable pub direct_read : ℕ → PerOsd → Exec (RoraClient W) Rc
  direct_read now per_osd = do
    access ← gets (λ s. s.access)
    osds ← defined (found_osds access.osd_maps per_osd)
    let (rc, pools) =
        read_osds_slices W.connect W.partial_get now access.connection_pool_size osds access.pools
    modify (λ s. record s { access = record s.access { pools = pools } })
    pure rc

  unfoldable pub short_path : ℕ → List (ℕ × Location) → Exec (RoraClient W) Rc
  short_path now locations = do
    per_osd ← per_osd_loop locations []
    maybe_update_osd_infos W per_osd
    null_io ← gets (λ s. s.use_null_io)
    if null_io then pure read else direct_read now per_osd

  -- The assert of `partial_decrypt` ends the process; where it does not succeed, `throw 0`.
  unfoldable pub check_decrypted : Bool × List ℕ → Exec (RoraClient W) (Unit {0})
  check_decrypted (decrypted, buf) = if decrypted then pure tt else raise thrown_int

  unfoldable pub decrypt_with :
      List (List ℕ) → ℕ → Location → Encrypted → Option (List ℕ) → Exec (RoraClient W) (Unit {0})
  decrypt_with levels target l e none = raise thrown_int
  decrypt_with levels target l e (some ctr) = do
    alba_id ← defined (last levels)
    enc_key ← get_encryption_key W alba_id l.namespace_id e.key_identification
    r ← defined (partial_decrypt W.cipher e (W.memory target l.length) enc_key ctr l.offset)
    check_decrypted r

  unfoldable pub decrypt_as :
      List (List ℕ) → ℕ → Location → EncryptInfo → Exec (RoraClient W) (Unit {0})
  decrypt_as levels target l no_encryption = pure tt
  decrypt_as levels target l (encrypted e) = decrypt_with levels target l e l.ctr

  unfoldable pub decrypt_loop : List (List ℕ) → List (ℕ × Location) → Exec (RoraClient W) (Unit {0})
  decrypt_loop levels [] = pure tt
  decrypt_loop levels ((target, l) ∷ locations) = do
    decrypt_as levels target l l.encrypt_info
    decrypt_loop levels locations

  -- Both handlers of the try block: all that is thrown is a failure of the read.
  unfoldable pub failed_decrypt : Fault → Exec (RoraClient W) Rc
  failed_decrypt f = if is_down f then raise process_down else pure failed

  unfoldable pub decrypt_all : List (List ℕ) → List (ℕ × Location) → Exec (RoraClient W) Rc
  decrypt_all levels locations = catch (do decrypt_loop levels locations; pure read) failed_decrypt
