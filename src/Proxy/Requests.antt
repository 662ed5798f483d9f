-- ===== src/Proxy/Requests.antt =====
-- The requests of cpp/src/lib/proxy_protocol.cc. A `max` of type int is given as the uint32_t that it
-- is converted to.
use alba.Base.{ℕ, List, Bool, Option, none, some}
use alba.Llio.Builder.{Writer, ◌>>◌}
use alba.Llio.To.{to_bool, to_u32, to_u64, to_double, to_string, to_vector, to_option, to_pair}
use alba.Checksum.{Checksum, to_checksum}
use alba.Proxy.Sequences.{Assert, Update, to_assert, to_update}

unfoldable pub write_tag : ℕ → Writer
write_tag tag = to_u32 tag

-- The key of the last element and whether it is included are one optional pair.
unfoldable pub last_pair : Option (List ℕ) → Bool → Option (List ℕ × Bool)
last_pair none linc = none
last_pair (some last) linc = some (last, linc)

unfoldable pub write_range_params : List ℕ → Bool → Option (List ℕ) → Bool → ℕ → Bool → Writer
write_range_params first finc last linc max reverse =
    to_string first
    >> (to_bool finc
        >> (to_option (to_pair to_string to_bool) (last_pair last linc)
            >> (to_u32 max >> to_bool reverse)))

unfoldable pub write_list_namespaces_request :
    List ℕ → Bool → Option (List ℕ) → Bool → ℕ → Bool → Writer
write_list_namespaces_request first finc last linc max reverse =
    write_tag 1 >> write_range_params first finc last linc max reverse

unfoldable pub write_namespace_exists_request : List ℕ → Writer
write_namespace_exists_request name = write_tag 2 >> to_string name

unfoldable pub write_create_namespace_request : List ℕ → Option (List ℕ) → Writer
write_create_namespace_request name preset_name =
    write_tag 3 >> (to_string name >> to_option to_string preset_name)

unfoldable pub write_delete_namespace_request : List ℕ → Writer
write_delete_namespace_request name = write_tag 4 >> to_string name

unfoldable pub write_list_objects_request :
    List ℕ → List ℕ → Bool → Option (List ℕ) → Bool → ℕ → Bool → Writer
write_list_objects_request namespace_ first finc last linc max reverse =
    write_tag 5 >> (to_string namespace_ >> write_range_params first finc last linc max reverse)

unfoldable pub write_read_object_fs_request : List ℕ → List ℕ → List ℕ → Bool → Bool → Writer
write_read_object_fs_request namespace_ object_name dest_file consistent_read should_cache =
    write_tag 10
    >> (to_string namespace_
        >> (to_string object_name
            >> (to_string dest_file >> (to_bool consistent_read >> to_bool should_cache))))

unfoldable pub write_write_object_fs_request_with :
    ℕ → List ℕ → List ℕ → List ℕ → Bool → Option Checksum → Writer
write_write_object_fs_request_with tag namespace_ object_name input_file allow_overwrite checksum =
    write_tag tag
    >> (to_string namespace_
        >> (to_string object_name
            >> (to_string input_file
                >> (to_bool allow_overwrite >> to_option to_checksum checksum))))

unfoldable pub write_write_object_fs_request :
    List ℕ → List ℕ → List ℕ → Bool → Option Checksum → Writer
write_write_object_fs_request = write_write_object_fs_request_with 11

unfoldable pub write_write_object_fs2_request :
    List ℕ → List ℕ → List ℕ → Bool → Option Checksum → Writer
write_write_object_fs2_request = write_write_object_fs_request_with 21

unfoldable pub write_delete_object_request : List ℕ → List ℕ → Bool → Writer
write_delete_object_request namespace_ object_name may_not_exist =
    write_tag 8 >> (to_string namespace_ >> (to_string object_name >> to_bool may_not_exist))

unfoldable pub write_get_object_info_request : List ℕ → List ℕ → Bool → Bool → Writer
write_get_object_info_request namespace_ object_name consistent_read should_cache =
    write_tag 9
    >> (to_string namespace_
        >> (to_string object_name >> (to_bool consistent_read >> to_bool should_cache)))

-- `SliceDescriptor`, as its offset and size, and `ObjectSlices`.
pub record SliceDescriptor : Type 0 where
  pub offset : ℕ
  pub size : ℕ

pub record ObjectSlices : Type 0 where
  pub object_name : List ℕ
  pub slices : List SliceDescriptor

unfoldable pub to_slice : SliceDescriptor → Writer
to_slice desc = to_u64 desc.offset >> to_u32 desc.size

unfoldable pub to_object_slices : ObjectSlices → Writer
to_object_slices s = to_string s.object_name >> to_vector to_slice s.slices

unfoldable pub write_read_objects_slices_request_with :
    ℕ → List ℕ → List ObjectSlices → Bool → Writer
write_read_objects_slices_request_with tag namespace_ slices consistent_read =
    write_tag tag
    >> (to_string namespace_ >> (to_vector to_object_slices slices >> to_bool consistent_read))

unfoldable pub write_read_objects_slices_request : List ℕ → List ObjectSlices → Bool → Writer
write_read_objects_slices_request = write_read_objects_slices_request_with 13

unfoldable pub write_read_objects_slices2_request : List ℕ → List ObjectSlices → Bool → Writer
write_read_objects_slices2_request = write_read_objects_slices_request_with 23

unfoldable pub write_update_session_request : List (List ℕ × Option (List ℕ)) → Writer
write_update_session_request args =
    write_tag 32 >> to_vector (to_pair to_string (to_option to_string)) args

unfoldable pub write_apply_sequence_request : List ℕ → Bool → List Assert → List Update → Writer
write_apply_sequence_request namespace_ write_barrier asserts updates =
    write_tag 24
    >> (to_string namespace_
        >> (to_bool write_barrier >> (to_vector to_assert asserts >> to_vector to_update updates)))

unfoldable pub write_invalidate_cache_request : List ℕ → Writer
write_invalidate_cache_request namespace_ = write_tag 14 >> to_string namespace_

unfoldable pub write_drop_cache_request : List ℕ → Writer
write_drop_cache_request namespace_ = write_tag 16 >> to_string namespace_

unfoldable pub write_get_proxy_version_request : Writer
write_get_proxy_version_request = write_tag 17

unfoldable pub write_ping_request : ℕ → Writer
write_ping_request delay = write_tag 20 >> to_double delay

unfoldable pub write_osd_info_request : Writer
write_osd_info_request = write_tag 22

unfoldable pub write_osd_info2_request : Writer
write_osd_info2_request = write_tag 28

unfoldable pub write_has_local_fragment_cache_request : Writer
write_has_local_fragment_cache_request = write_tag 31

unfoldable pub write_get_fragment_encryption_key_request : List ℕ → ℕ → Writer
write_get_fragment_encryption_key_request alba_id namespace_id =
    write_tag 33 >> (to_string alba_id >> to_u64 namespace_id)
