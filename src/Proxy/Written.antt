-- ===== src/Proxy/Written.antt =====
-- The bytes of the requests that carry lists: sequences, and slices of objects.
use alba.Base.{
  ℕ, ◌<◌, ◌≡◌, ◌++◌, List, [], ◌∷◌, Bool, Option, none, some, subst, length, take-length-append,
  append-nil, le→leb, u32, le_bytes, All, arith,
}
use mathlib.Core.Option.{some-injective, none-ne-some}
use alba.Llio.Builder.{add_type, Writes, Writes-add_raw, Writes-then}
use alba.Llio.To.{to_option}
use alba.Llio.Layout.{string_bytes, bool_bytes, option_bytes, vector_bytes}
use alba.Llio.Writing.{
  Writes-to_u32, Writes-to_u64, Writes-to_bool, Writes-to_string, Writes-to_vector,
  Writes-to_option,
}
use alba.Checksum.{Checksum, to_checksum, checksum_bytes, IsDigest, Writes-to_checksum}
use alba.Proxy.Sequences.{
  Assert, object_exists, object_does_not_exist, object_has_id, object_has_checksum, Update,
  upload_object_from_file, upload_object, delete_object, to_assert, add_data, to_update,
}
use alba.Proxy.Requests.{
  SliceDescriptor, ObjectSlices, to_slice, to_object_slices, write_tag,
  write_read_objects_slices_request_with, write_apply_sequence_request,
}

abbrev pub IsText : List ℕ → Type 0
IsText s = length s < u32

abbrev pub IsOptionalDigest : Option Checksum → Type 0
IsOptionalDigest none = Unit {0}
IsOptionalDigest (some c) = IsDigest c

abbrev pub IsAssert : Assert → Type 0
IsAssert (object_exists name) = IsText name
IsAssert (object_does_not_exist name) = IsText name
IsAssert (object_has_id name object_id) = IsText name × IsText object_id
IsAssert (object_has_checksum name cs) = IsText name × IsDigest cs

-- An uploaded object has as many bytes as its size says.
abbrev pub IsUpdate : Update → Type 0
IsUpdate (upload_object_from_file name file_name cs_o) =
    IsText name × (IsText file_name × IsOptionalDigest cs_o)
IsUpdate (upload_object name data_ size cs_o) =
    IsText name × ((length data_ ≡ size) × (IsText data_ × IsOptionalDigest cs_o))
IsUpdate (delete_object name) = IsText name

unfoldable pub assert_bytes : Assert → List ℕ
assert_bytes (object_exists name) = le_bytes 1 1 ++ string_bytes name
assert_bytes (object_does_not_exist name) = le_bytes 1 2 ++ string_bytes name
assert_bytes (object_has_id name object_id) =
    le_bytes 1 3 ++ (string_bytes name ++ string_bytes object_id)
assert_bytes (object_has_checksum name cs) =
    le_bytes 1 4 ++ (string_bytes name ++ checksum_bytes cs)

-- The data of an upload are laid out as a string is.
unfoldable pub update_bytes : Update → List ℕ
update_bytes (upload_object_from_file name file_name cs_o) =
    le_bytes 1 1
    ++ (string_bytes name ++ (string_bytes file_name ++ option_bytes checksum_bytes cs_o))
update_bytes (upload_object name data_ size cs_o) =
    le_bytes 1 2
    ++ (string_bytes name ++ (le_bytes 4 size ++ (data_ ++ option_bytes checksum_bytes cs_o)))
update_bytes (delete_object name) = le_bytes 1 3 ++ string_bytes name

Writes-optional_digest :
    (o : Option Checksum)
    → IsOptionalDigest o
    → Writes (to_option to_checksum o) (option_bytes checksum_bytes o)
Writes-optional_digest none h =
    Writes-to_option {P = IsDigest} Writes-to_checksum none (λ a e. absurd (none-ne-some a e))
Writes-optional_digest (some c) h =
    Writes-to_option {P = IsDigest} Writes-to_checksum (some c)
      (λ a e. subst IsDigest (some-injective c a e) h)

Writes-to_assert : (a : Assert) → IsAssert a → Writes (to_assert a) (assert_bytes a)
unfolding to_assert assert_bytes add_type
Writes-to_assert (object_exists name) h =
    Writes-then (Writes-add_raw (le_bytes 1 1)) (Writes-to_string name h)
Writes-to_assert (object_does_not_exist name) h =
    Writes-then (Writes-add_raw (le_bytes 1 2)) (Writes-to_string name h)
Writes-to_assert (object_has_id name object_id) (h, k) =
    Writes-then (Writes-add_raw (le_bytes 1 3))
      (Writes-then (Writes-to_string name h) (Writes-to_string object_id k))
Writes-to_assert (object_has_checksum name cs) (h, k) =
    Writes-then (Writes-add_raw (le_bytes 1 4))
      (Writes-then (Writes-to_string name h) (Writes-to_checksum cs k))

Writes-add_data : (s : List ℕ) (n : ℕ) → length s ≡ n → Writes (add_data s n) s
unfolding add_data
Writes-add_data s n e =
    rw
      (
        ← e,
        le→leb (length s) (length s) (omega arith),
        rw (append-nil s) at (take-length-append s []),
      )
      (Writes-add_raw s)

Writes-to_update : (u : Update) → IsUpdate u → Writes (to_update u) (update_bytes u)
unfolding to_update update_bytes add_type
Writes-to_update (upload_object_from_file name file_name cs_o) (h, (k, c)) =
    Writes-then (Writes-add_raw (le_bytes 1 1)) (
      Writes-then (Writes-to_string name h)
        (Writes-then (Writes-to_string file_name k) (Writes-optional_digest cs_o c)))
Writes-to_update (upload_object name data_ size cs_o) (h, (e, (k, c))) =
    Writes-then (Writes-add_raw (le_bytes 1 2)) (
      Writes-then (Writes-to_string name h) (
        Writes-then (Writes-to_u32 size)
          (Writes-then (Writes-add_data data_ size e) (Writes-optional_digest cs_o c))))
Writes-to_update (delete_object name) h =
    Writes-then (Writes-add_raw (le_bytes 1 3)) (Writes-to_string name h)

-- A sequence is written as its tag, the namespace, the barrier, and the asserts and the updates,
-- each behind their number and last first, for names and data of fewer than 2^32 bytes, digests of
-- their length, and uploads whose size is that of their data.
pub Writes-write_apply_sequence_request :
    (namespace_ : List ℕ) (write_barrier : Bool) (asserts : List Assert) (updates : List Update)
    → IsText namespace_
    → All IsAssert asserts
    → length asserts < u32
    → All IsUpdate updates
    → length updates < u32
    → Writes (write_apply_sequence_request namespace_ write_barrier asserts updates) (
        le_bytes 4 24
        ++ (string_bytes namespace_
            ++ (bool_bytes write_barrier
                ++ (vector_bytes assert_bytes asserts ++ vector_bytes update_bytes updates))))
unfolding write_apply_sequence_request write_tag
Writes-write_apply_sequence_request namespace_ write_barrier asserts updates hn ha na hu nu =
    Writes-then (Writes-to_u32 24) (
      Writes-then (Writes-to_string namespace_ hn) (
        Writes-then (Writes-to_bool write_barrier) (
          Writes-then (Writes-to_vector {P = IsAssert} Writes-to_assert asserts ha na)
            (Writes-to_vector {P = IsUpdate} Writes-to_update updates hu nu))))

unfoldable pub slice_bytes : SliceDescriptor → List ℕ
slice_bytes s = le_bytes 8 s.offset ++ le_bytes 4 s.size

unfoldable pub object_slices_bytes : ObjectSlices → List ℕ
object_slices_bytes s = string_bytes s.object_name ++ vector_bytes slice_bytes s.slices

abbrev pub AreObjectSlices : ObjectSlices → Type 0
AreObjectSlices s = IsText s.object_name × (length s.slices < u32)

Writes-to_slice : (s : SliceDescriptor) → Unit {0} → Writes (to_slice s) (slice_bytes s)
unfolding to_slice slice_bytes
Writes-to_slice s h = Writes-then (Writes-to_u64 s.offset) (Writes-to_u32 s.size)

All-Unit : (ss : List SliceDescriptor) → All (λ s. Unit {0}) ss
All-Unit [] = tt
All-Unit (s ∷ ss) = (tt, All-Unit ss)

Writes-to_object_slices :
    (s : ObjectSlices) → AreObjectSlices s → Writes (to_object_slices s) (object_slices_bytes s)
unfolding to_object_slices object_slices_bytes
Writes-to_object_slices s (h, n) =
    Writes-then (Writes-to_string s.object_name h)
      (Writes-to_vector {P = λ s. Unit {0}} Writes-to_slice s.slices (All-Unit s.slices) n)

-- A request for slices is written, under either of its tags, as the tag, the namespace, the objects
-- with their slices, each list behind its length and last first, and whether the read is consistent.
pub Writes-write_read_objects_slices_request :
    (tag : ℕ) (namespace_ : List ℕ) (slices : List ObjectSlices) (consistent_read : Bool)
    → IsText namespace_
    → All AreObjectSlices slices
    → length slices < u32
    → Writes (write_read_objects_slices_request_with tag namespace_ slices consistent_read) (
        le_bytes 4 tag
        ++ (string_bytes namespace_
            ++ (vector_bytes object_slices_bytes slices ++ bool_bytes consistent_read)))
unfolding write_read_objects_slices_request_with write_tag
Writes-write_read_objects_slices_request tag namespace_ slices consistent_read hn hs ns =
    Writes-then (Writes-to_u32 tag) (
      Writes-then (Writes-to_string namespace_ hn) (
        Writes-then (Writes-to_vector {P = AreObjectSlices} Writes-to_object_slices slices hs ns)
          (Writes-to_bool consistent_read)))
