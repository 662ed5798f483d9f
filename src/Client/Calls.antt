-- ===== src/Client/Calls.antt =====
-- The methods of `GenericProxy_client` of cpp/src/lib/generic_proxy_client.cc. What a method returns
-- through references comes back as its value.
use alba.Base.{ℕ, ◌+◌, ◌%◌, List, [], ◌∷◌, Bool, Option, length, u64}
use alba.Exec.{Exec, pure, modify, defined, ◌>>=◌, ◌>>◌}
use alba.Checksum.{Checksum}
use alba.Osd.{OsdInfo, OsdCapabilities}
use alba.Manifest.{ManifestWithNamespaceId}
use alba.Manifest.Entries.{ObjectInfo}
use alba.Proxy.Sequences.{Assert, Update}
use alba.Proxy.Requests.{
  write_list_namespaces_request, write_namespace_exists_request, write_create_namespace_request,
  write_delete_namespace_request, write_list_objects_request, write_read_object_fs_request,
  write_write_object_fs_request, write_write_object_fs2_request, write_delete_object_request,
  write_get_object_info_request, ObjectSlices, write_read_objects_slices_request,
  write_read_objects_slices2_request, write_update_session_request, write_apply_sequence_request,
  write_invalidate_cache_request, write_drop_cache_request, write_get_proxy_version_request,
  write_ping_request, write_osd_info_request, write_osd_info2_request,
  write_has_local_fragment_cache_request, write_get_fragment_encryption_key_request,
}
use alba.Proxy.Responses.{
  Status, read_list_response, read_flag_response, read_get_object_info_response,
  read_update_session_response, read_get_proxy_version_response, read_ping_response,
  read_get_fragment_encryption_key_response, read_read_objects_slices_response,
  read_write_object_fs2_response, read_read_objects_slices2_response, read_apply_sequence_response,
  read_osd_info_response, read_osd_info2_response,
}
use alba.Client.{Transport, RoraCounter, Client, exchange, call, command, check_status}

-- `cntr.slow_path += slices.size()`.
unfoldable pub count_slow : ℕ → RoraCounter → RoraCounter
count_slow n cntr = record cntr { slow_path = (cntr.slow_path + n) % u64 }

module _ (T : Transport) where
  unfoldable pub namespace_exists : List ℕ → Exec (Client T) Bool
  namespace_exists name = call T (write_namespace_exists_request name) read_flag_response

  unfoldable pub create_namespace : List ℕ → Option (List ℕ) → Exec (Client T) (Unit {0})
  create_namespace name preset_name = command T (write_create_namespace_request name preset_name)

  unfoldable pub delete_namespace : List ℕ → Exec (Client T) (Unit {0})
  delete_namespace name = command T (write_delete_namespace_request name)

  unfoldable pub list_namespaces :
      List ℕ → Bool → Option (List ℕ) → Bool → ℕ → Bool → Exec (Client T) (List (List ℕ) × Bool)
  list_namespaces first finc last linc max reverse =
      call T (write_list_namespaces_request first finc last linc max reverse) read_list_response

  unfoldable pub write_object_fs :
      List ℕ → List ℕ → List ℕ → Bool → Option Checksum → Exec (Client T) (Unit {0})
  write_object_fs namespace_ object_name input_file allow_overwrite checksum =
      command T
        (write_write_object_fs_request namespace_ object_name input_file allow_overwrite checksum)

  unfoldable pub read_object_fs :
      List ℕ → List ℕ → List ℕ → Bool → Bool → Exec (Client T) (Unit {0})
  read_object_fs namespace_ object_name dest_file consistent_read should_cache =
      command T
        (write_read_object_fs_request namespace_ object_name dest_file consistent_read should_cache)

  unfoldable pub delete_object : List ℕ → List ℕ → Bool → Exec (Client T) (Unit {0})
  delete_object namespace_ object_name may_not_exist =
      command T (write_delete_object_request namespace_ object_name may_not_exist)

  unfoldable pub list_objects :
      List ℕ
      → List ℕ
      → Bool
      → Option (List ℕ)
      → Bool
      → ℕ
      → Bool
      → Exec (Client T) (List (List ℕ) × Bool)
  list_objects namespace_ first finc last linc max reverse =
      call T (write_list_objects_request namespace_ first finc last linc max reverse)
        read_list_response

  -- What both reads of slices do with the response: the slices are counted before its status is
  -- checked.
  unfoldable pub counted_call {ℓ} :
      {A : Type ℓ} → ℕ → Exec (Client T) (Status × Option A) → Exec (Client T) A
  counted_call n exchanged = do
    (status, value) ← exchanged
    modify (λ c. record c { counter = count_slow n c.counter })
    check_status T status
    defined value

  -- The data of the slices; nothing is asked where there is nothing to read.
  unfoldable pub read_objects_slices :
      List ℕ → List ObjectSlices → Bool → Exec (Client T) (List (List (List ℕ)))
  read_objects_slices namespace_ [] consistent_read = pure []
  read_objects_slices namespace_ (object ∷ objects) consistent_read =
      let slices = object ∷ objects in
      counted_call (length slices) (
        exchange T (write_read_objects_slices_request namespace_ slices consistent_read)
          (read_read_objects_slices_response slices))

  unfoldable pub update_session :
      List (List ℕ × Option (List ℕ)) → Exec (Client T) (List (List ℕ × List ℕ))
  update_session args = call T (write_update_session_request args) read_update_session_response

  unfoldable pub get_object_info : List ℕ → List ℕ → Bool → Bool → Exec (Client T) (ℕ × Checksum)
  get_object_info namespace_ object_name consistent_read should_cache =
      call T (write_get_object_info_request namespace_ object_name consistent_read should_cache)
        read_get_object_info_response

  unfoldable pub invalidate_cache : List ℕ → Exec (Client T) (Unit {0})
  invalidate_cache namespace_ = command T (write_invalidate_cache_request namespace_)

  unfoldable pub drop_cache : List ℕ → Exec (Client T) (Unit {0})
  drop_cache namespace_ = command T (write_drop_cache_request namespace_)

  unfoldable pub get_proxy_version : Exec (Client T) (ℕ × ℕ × ℕ × List ℕ)
  get_proxy_version = call T write_get_proxy_version_request read_get_proxy_version_response

  unfoldable pub ping : ℕ → Exec (Client T) ℕ
  ping delay = call T (write_ping_request delay) read_ping_response

  -- The status is not checked: after a refusal the result stays as it was, and the timeout set.
  unfoldable pub osd_info : Exec (Client T) (Option (List (ℕ × OsdInfo × OsdCapabilities)))
  osd_info = do (_, infos) ← exchange T write_osd_info_request read_osd_info_response; pure infos

  unfoldable pub osd_info2 :
      Exec (Client T) (Option (List (List ℕ × List (ℕ × OsdInfo × OsdCapabilities))))
  osd_info2 = do (_, infos) ← exchange T write_osd_info2_request read_osd_info2_response; pure infos

  unfoldable pub has_local_fragment_cache : Exec (Client T) Bool
  has_local_fragment_cache = call T write_has_local_fragment_cache_request read_flag_response

  unfoldable pub get_fragment_encryption_key : List ℕ → ℕ → Exec (Client T) (Option (List ℕ))
  get_fragment_encryption_key alba_id namespace_id =
      call T (write_get_fragment_encryption_key_request alba_id namespace_id)
        read_get_fragment_encryption_key_response

  module _ (uncompress : List ℕ → List ℕ) where
    unfoldable pub read_objects_slices2 :
        List ℕ → List ObjectSlices → Bool → Exec (Client T) (List (List (List ℕ)) × List ObjectInfo)
    read_objects_slices2 namespace_ [] consistent_read = pure ([], [])
    read_objects_slices2 namespace_ (object ∷ objects) consistent_read =
        let slices = object ∷ objects in
        counted_call (length slices) (
          exchange T (write_read_objects_slices2_request namespace_ slices consistent_read)
            (read_read_objects_slices2_response uncompress slices))

    unfoldable pub write_object_fs2 :
        List ℕ → List ℕ → List ℕ → Bool → Option Checksum → Exec (Client T) ManifestWithNamespaceId
    write_object_fs2 namespace_ object_name input_file allow_overwrite checksum =
        call T
          (write_write_object_fs2_request namespace_ object_name input_file allow_overwrite
            checksum)
          (read_write_object_fs2_response uncompress)

    -- `apply_sequence_`, which gives the infos of the objects, and `apply_sequence`, which drops them.
    unfoldable pub apply_sequence_ :
        List ℕ → Bool → List Assert → List Update → Exec (Client T) (List ObjectInfo)
    apply_sequence_ namespace_ write_barrier asserts updates =
        call T (write_apply_sequence_request namespace_ write_barrier asserts updates)
          (read_apply_sequence_response uncompress)

    unfoldable pub apply_sequence :
        List ℕ → Bool → List Assert → List Update → Exec (Client T) (Unit {0})
    apply_sequence namespace_ write_barrier asserts updates = do
      _ ← apply_sequence_ namespace_ write_barrier asserts updates
      pure tt
