-- ===== src/Proxy/Responses.antt =====
-- The responses of cpp/src/lib/proxy_protocol.cc, and the status that each of them starts with. What a
-- response stores through references is returned beside the status.
use alba.Base.{ℕ, zero, suc, List, [], ◌∷◌, Bool, Option, none, some, ◌==◌, if◌then◌else◌}
use alba.Llio.Reader.{Reader, pure, ◌>>=◌, ◌>>◌, reading, current, skips, get_nested_message}
use alba.Llio.From.{
  from_u32, from_i32, from_u64, from_double, from_bool, from_string, from_elements, from_vector,
  from_option, from_pair,
}
use alba.Common.{from_x_uint64}
use alba.Checksum.{Checksum, from_checksum}
use alba.Manifest.{ManifestWithNamespaceId}
use alba.Manifest.Versions.{from2}
use alba.Manifest.Entries.{ObjectInfo, read_object_infos}
use alba.Osd.{OsdInfo, OsdCapabilities, from_osd_info, from_osd_capabilities}
use alba.Proxy.Requests.{SliceDescriptor, ObjectSlices}

-- `Status`; the text is set only where the code is not zero.
pub record Status : Type 0 where
  pub return_code : ℕ
  pub what : Option (List ℕ)

unfoldable pub status_of : ℕ → Reader Status
status_of rc =
    if rc == 0
    then pure (record { return_code = rc; what = none })
    else (do what ← from_string; pure (record { return_code = rc; what = some what }))

unfoldable pub read_status : Reader Status
read_status = do rc ← from_u32; status_of rc

unfoldable pub is_ok : Status → Bool
is_ok s = s.return_code == 0

-- A status, and behind one that is ok what the response carries.
unfoldable pub read_response {ℓ} : {A : Type ℓ} → Reader A → Reader (Status × Option A)
read_response body = do
  status ← read_status
  if is_ok status then (do a ← body; pure (status, some a)) else pure (status, none)

unfoldable pub read_list_response : Reader (Status × Option (List (List ℕ) × Bool))
read_list_response =
    read_response (do names ← from_vector [] from_string; more ← from_bool; pure (names, more))

unfoldable pub read_flag_response : Reader (Status × Option Bool)
read_flag_response = read_response from_bool

unfoldable pub read_empty_response : Reader Status
read_empty_response = read_status

unfoldable pub read_get_object_info_response : Reader (Status × Option (ℕ × Checksum))
read_get_object_info_response =
    read_response (do size ← from_u64; checksum ← from_checksum; pure (size, checksum))

unfoldable pub read_update_session_response : Reader (Status × Option (List (List ℕ × List ℕ)))
read_update_session_response =
    read_response (from_vector ([], []) (from_pair from_string from_string))

unfoldable pub read_version : Reader (ℕ × ℕ × ℕ × List ℕ)
read_version = do
  major ← from_i32
  minor ← from_i32
  patch ← from_i32
  hash ← from_string
  pure (major, minor, patch, hash)

unfoldable pub read_get_proxy_version_response : Reader (Status × Option (ℕ × ℕ × ℕ × List ℕ))
read_get_proxy_version_response = read_response read_version

unfoldable pub read_ping_response : Reader (Status × Option ℕ)
read_ping_response = read_response from_double

unfoldable pub read_get_fragment_encryption_key_response :
    Reader (Status × Option (Option (List ℕ)))
read_get_fragment_encryption_key_response = read_response (from_option from_string)

-- The two loops: what is copied to each slice.
unfoldable pub read_slice : SliceDescriptor → Reader (List ℕ)
read_slice slice = do data_ ← current slice.size; skips slice.size; pure data_

unfoldable pub read_slices : List SliceDescriptor → Reader (List (List ℕ))
read_slices [] = pure []
read_slices (slice ∷ slices) = do
  data_ ← read_slice slice
  rest ← read_slices slices
  pure (data_ ∷ rest)

unfoldable pub read_objects : List ObjectSlices → Reader (List (List (List ℕ)))
read_objects [] = pure []
read_objects (object_slices ∷ objects) = do
  data_ ← read_slices object_slices.slices
  rest ← read_objects objects
  pure (data_ ∷ rest)

-- The size in front is read and not used.
unfoldable pub read_data : List ObjectSlices → Reader (List (List (List ℕ)))
read_data objects = do _ ← from_u32; read_objects objects

unfoldable pub read_read_objects_slices_response :
    List ObjectSlices → Reader (Status × Option (List (List (List ℕ))))
read_read_objects_slices_response objects = read_response (read_data objects)

module _ (uncompress : List ℕ → List ℕ) where
  -- `from(m, mfid)`: whether one could go on is not kept.
  unfoldable pub from_manifest_with_namespace_id : Reader ManifestWithNamespaceId
  from_manifest_with_namespace_id m = let (result, dont_care) = from2 uncompress m in result

  unfoldable pub read_write_object_fs2_response : Reader (Status × Option ManifestWithNamespaceId)
  read_write_object_fs2_response = read_response from_manifest_with_namespace_id

  unfoldable pub read_data_and_infos :
      List ObjectSlices → Reader (List (List (List ℕ)) × List ObjectInfo)
  read_data_and_infos objects = do
    data_ ← read_data objects
    infos ← read_object_infos uncompress
    pure (data_, infos)

  unfoldable pub read_read_objects_slices2_response :
      List ObjectSlices → Reader (Status × Option (List (List (List ℕ)) × List ObjectInfo))
  read_read_objects_slices2_response objects = read_response (read_data_and_infos objects)

  unfoldable pub read_apply_sequence_response : Reader (Status × Option (List ObjectInfo))
  read_apply_sequence_response = read_response (read_object_infos uncompress)

-- `_read_osd_infos`: the entries in the order in which they come; a later one replaces an earlier one
-- of its osd in the map.
unfoldable pub read_osd_entry : Reader (ℕ × OsdInfo × OsdCapabilities)
read_osd_entry = do
  osd_id ← from_x_uint64
  info_s_size ← from_u32
  m2 ← get_nested_message info_s_size
  skips info_s_size
  info ← reading m2 from_osd_info
  caps ← from_osd_capabilities
  pure (osd_id, info, caps)

unfoldable pub osd_infos_loop : ℕ → Reader (List (ℕ × OsdInfo × OsdCapabilities))
osd_infos_loop zero = pure []
osd_infos_loop (suc n) = do entry ← read_osd_entry; rest ← osd_infos_loop n; pure (entry ∷ rest)

unfoldable pub read_osd_infos : Reader (List (ℕ × OsdInfo × OsdCapabilities))
read_osd_infos = do n ← from_u32; osd_infos_loop n

unfoldable pub read_osd_info_response :
    Reader (Status × Option (List (ℕ × OsdInfo × OsdCapabilities)))
read_osd_info_response = read_response read_osd_infos

-- The vector has one pair for each alba, filled from its end; `from_elements` is that loop.
unfoldable pub read_osd_info2_response :
    Reader (Status × Option (List (List ℕ × List (ℕ × OsdInfo × OsdCapabilities))))
read_osd_info2_response = read_response (
    from_elements ([], [])
      (do alba_id ← from_string; infos ← read_osd_infos; pure (alba_id, infos)))
