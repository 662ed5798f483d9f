-- ===== src/Proxy/Sequences.antt =====
-- cpp/include/proxy_sequences.h and cpp/src/lib/proxy_sequences.cc. The subclasses of Assert and of
-- Update are constructors.
use alba.Base.{
  ℕ, List, [], ◌∷◌, ◌++◌, Bool, true, false, Option, none, length, take, leb, if◌then◌else◌,
}
use alba.Llio.Builder.{Writer, ◌>>◌, add_raw, add_type}
use alba.Llio.To.{to_u32, to_string, to_option}
use alba.Checksum.{Checksum, to_checksum}

pub data Assert : Type 0 where
  object_exists : List ℕ → Assert
  object_does_not_exist : List ℕ → Assert
  object_has_id : List ℕ → List ℕ → Assert
  object_has_checksum : List ℕ → Checksum → Assert

pub data Update : Type 0 where
  upload_object_from_file : List ℕ → List ℕ → Option Checksum → Update
  upload_object : List ℕ → List ℕ → ℕ → Option Checksum → Update
  delete_object : List ℕ → Update

unfoldable pub to_assert : Assert → Writer
to_assert (object_exists name) = add_type 1 >> to_string name
to_assert (object_does_not_exist name) = add_type 2 >> to_string name
to_assert (object_has_id name object_id) = add_type 3 >> (to_string name >> to_string object_id)
to_assert (object_has_checksum name cs) = add_type 4 >> (to_string name >> to_checksum cs)

-- `add_raw((const char *)_data, _size)`: the data must have `_size` bytes.
unfoldable pub add_data : List ℕ → ℕ → Writer
add_data data_ size = if leb size (length data_) then add_raw (take size data_) else λ mb. none

unfoldable pub to_update : Update → Writer
to_update (upload_object_from_file name file_name cs_o) =
    add_type 1 >> (to_string name >> (to_string file_name >> to_option to_checksum cs_o))
to_update (upload_object name data_ size cs_o) =
    add_type 2
    >> (to_string name >> (to_u32 size >> (add_data data_ size >> to_option to_checksum cs_o)))
to_update (delete_object name) = add_type 3 >> to_string name

pub record Sequence : Type 0 where
  pub asserts : List Assert
  pub updates : List Update

abbrev pub empty_sequence : Sequence
empty_sequence = record { asserts = []; updates = [] }

unfoldable pub push_assert : Assert → Sequence → Sequence
push_assert a s = record s { asserts = s.asserts ++ (a ∷ []) }

unfoldable pub push_update : Update → Sequence → Sequence
push_update u s = record s { updates = s.updates ++ (u ∷ []) }

unfoldable pub add_assert : List ℕ → Bool → Sequence → Sequence
add_assert name true s = push_assert (object_exists name) s
add_assert name false s = push_assert (object_does_not_exist name) s

unfoldable pub add_assert_object_id : List ℕ → List ℕ → Sequence → Sequence
add_assert_object_id name object_id = push_assert (object_has_id name object_id)

unfoldable pub add_assert_checksum : List ℕ → Checksum → Sequence → Sequence
add_assert_checksum name cs = push_assert (object_has_checksum name cs)

unfoldable pub add_upload_fs : List ℕ → List ℕ → Option Checksum → Sequence → Sequence
add_upload_fs name path cs_o = push_update (upload_object_from_file name path cs_o)

unfoldable pub add_upload : List ℕ → List ℕ → ℕ → Option Checksum → Sequence → Sequence
add_upload name data_ size cs_o = push_update (upload_object name data_ size cs_o)

unfoldable pub add_delete : List ℕ → Sequence → Sequence
add_delete name = push_update (delete_object name)
