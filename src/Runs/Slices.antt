-- ===== src/Runs/Slices.antt =====
-- An object of two chunks with two data fragments each, and the key of a fragment.
use alba.Base.{ℕ, ◌+◌, ◌^◌, ◌<◌, ◌≡◌, refl, List, [], ◌∷◌, none, some, length, le_bytes, arith}
use alba.Llio.Builder.{Builder, message_builder, message_builder-IsValid}
use alba.Llio.Layout.{string_bytes}
use alba.Common.{be_x_uint64_bytes}
use alba.Checksum.{no_checksum}
use alba.Encryption.{no_encryption}
use alba.Manifest.{ManifestWithNamespaceId, no_compression}
use alba.Manifest.Fragments.{Fragment}
use alba.Rora.Slices.{Location, resolve_slice_one_level}
use alba.Rora.Tiling.{IsLaidOut}
use alba.Rora.Covering.{Covers, resolve_slice_one_level-Covers}
use alba.Rora.Key.{fragment_key, key_bytes, IsReset, fragment_key-IsReset}

abbrev pub part : ℕ → Fragment
part osd = record { loc = (some osd, 0); crc = no_checksum; len = 4; ctr = none; fnr = none }

abbrev pub object : ManifestWithNamespaceId
object = record {
  manifest = record {
    name = 110 ∷ [];
    object_id = 111 ∷ [];
    chunk_sizes = 8 ∷ 6 ∷ [];
    encoding_scheme = record { k = 2; m = 1; w = 8 };
    compression = no_compression;
    encrypt_info = no_encryption;
    checksum = no_checksum;
    size = 14;
    fragments = (part 1 ∷ part 2 ∷ part 3 ∷ []) ∷ (part 4 ∷ part 5 ∷ part 6 ∷ []) ∷ [];
    version_id = none;
    max_disks_per_node = none;
    timestamp = none;
  };
  namespace_id = 5;
}

pub object-IsLaidOut : IsLaidOut object
object-IsLaidOut = (
  omega arith,
  (
    record {
      fragment_length = 4;
      divided = refl;
      positive = omega arith;
      small = omega arith;
      enough = omega arith;
    },
    (
      record {
        fragment_length = 3;
        divided = refl;
        positive = omega arith;
        small = omega arith;
        enough = omega arith;
      },
      tt,
    ),
  ),
)

resolve_slice_one_level-Covers_example :
    (ls : List (ℕ × Location)) × ((resolve_slice_one_level 9 object 3 9 0 ≡ some ls)
      × Covers object 3 9 0 ls)
resolve_slice_one_level-Covers_example =
    resolve_slice_one_level-Covers object object-IsLaidOut 3 9 0 (omega arith) (omega arith)

key_short : 4 + length (key_bytes 5 (111 ∷ []) 0 1 2) < 2 ^ 30
unfolding key_bytes be_x_uint64_bytes string_bytes le_bytes
key_short = omega arith

fragment_key-IsReset_example :
    (fkb' : Builder) × ((fragment_key 5 (111 ∷ []) 0 1 2 message_builder
        ≡ some (key_bytes 5 (111 ∷ []) 0 1 2, fkb'))
      × IsReset fkb')
unfolding message_builder
fragment_key-IsReset_example =
    fragment_key-IsReset 5 (111 ∷ []) 0 1 2 message_builder (omega arith) key_short
      (record { valid = message_builder-IsValid; bare = refl })
