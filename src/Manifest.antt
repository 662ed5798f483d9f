-- ===== src/Manifest.antt =====
-- cpp/include/manifest.h and the readers of cpp/src/lib/manifest.cc. A member that the reader leaves
-- unset is `none`.
pub mod Fragments
pub mod Versions
pub mod Format
pub mod FragmentRoundTrip
pub mod RoundTrip
pub mod TablesRoundTrip
pub mod Safety
pub mod Entries
pub mod Enclosed
pub mod Resilience
use alba.Base.{ℕ, List, [], ◌∷◌, Option, none, some, ◌==◌, if◌then◌else◌}
use alba.Llio.Reader.{Reader, deserialisation_exception, throw, halt, bad_index, pure, ◌>>=◌}
use alba.Llio.From.{
  from_u8, from_u32, from_u64, from_double, from_string, from_elements, from_vector,
}
use alba.Common.{from_x_uint64}
use alba.Checksum.{Checksum, no_checksum, from_checksum}
use alba.Encryption.{EncryptInfo, from_encrypt_info}
use Fragments.{expect_one, Location, from_location, Fragment, null_fragment, from_fragment}

pub record EncodingScheme : Type 0 where
  pub k : ℕ
  pub m : ℕ
  pub w : ℕ

pub data Compressor : Type 0 where
  no_compression snappy bzip2 test : Compressor

pub record Manifest : Type 0 where
  pub name : List ℕ
  pub object_id : List ℕ
  pub chunk_sizes : List ℕ
  pub encoding_scheme : EncodingScheme
  pub compression : Compressor
  pub encrypt_info : EncryptInfo
  pub checksum : Checksum
  pub size : ℕ
  pub fragments : List (List Fragment)
  pub version_id : Option ℕ
  pub max_disks_per_node : Option ℕ
  pub timestamp : Option ℕ

pub record ManifestWithNamespaceId : Type 0 where
  pub manifest : Manifest
  pub open manifest use *
  pub namespace_id : ℕ

unfoldable pub from_encoding_scheme : Reader EncodingScheme
from_encoding_scheme = do
  _ ← expect_one
  k ← from_u32
  m ← from_u32
  w ← from_u8
  pure (record { k = k; m = m; w = w })

unfoldable pub compressor_of : ℕ → Reader Compressor
compressor_of type =
    if type == 1
    then pure no_compression
    else if type == 2
    then pure snappy
    else if type == 3
    then pure bzip2
    else if type == 4
    then pure test
    else throw deserialisation_exception

unfoldable pub from_compression : Reader Compressor
from_compression = do type ← from_u8; compressor_of type

-- The members that both versions begin with.
pub record Head : Type 0 where
  pub name : List ℕ
  pub object_id : List ℕ
  pub chunk_sizes : List ℕ
  pub encoding_scheme : EncodingScheme
  pub compression : Compressor
  pub encrypt_info : EncryptInfo
  pub checksum : Checksum
  pub size : ℕ

unfoldable pub from_head : Reader Head
from_head = do
  name ← from_string
  object_id ← from_string
  chunk_sizes ← from_vector 0 from_u32
  _ ← expect_one
  encoding_scheme ← from_encoding_scheme
  compression ← from_compression
  encrypt_info ← from_encrypt_info
  checksum ← from_checksum
  size ← from_u64
  pure (record {
    name = name;
    object_id = object_id;
    chunk_sizes = chunk_sizes;
    encoding_scheme = encoding_scheme;
    compression = compression;
    encrypt_info = encrypt_info;
    checksum = checksum;
    size = size;
  })

unfoldable pub manifest_of : Head → List (List Fragment) → Option ℕ → Option ℕ → Option ℕ → Manifest
manifest_of h fragments version_id max_disks_per_node timestamp = record {
  name = h.name;
  object_id = h.object_id;
  chunk_sizes = h.chunk_sizes;
  encoding_scheme = h.encoding_scheme;
  compression = h.compression;
  encrypt_info = h.encrypt_info;
  checksum = h.checksum;
  size = h.size;
  fragments = fragments;
  version_id = version_id;
  max_disks_per_node = max_disks_per_node;
  timestamp = timestamp;
}

-- `_from_version2` behind the decompression. The reader stops behind the fragments.
unfoldable pub from_version2_body : Reader Manifest
from_version2_body = do
  head ← from_head
  _ ← expect_one
  fragments ← from_elements [] (from_elements null_fragment from_fragment)
  pure (manifest_of head fragments none none none)

-- The inner loop that builds a chunk of `mf.fragments`: `[f]` past the end of a vector is undefined.
unfoldable pub zip_chunk : List Location → List Checksum → List ℕ → Reader (List Fragment)
zip_chunk [] crcs sizes = pure []
zip_chunk (loc ∷ locs) (crc ∷ crcs) (len ∷ sizes) = do
  rest ← zip_chunk locs crcs sizes
  pure (record { loc = loc; crc = crc; len = len; ctr = none; fnr = none } ∷ rest)
zip_chunk (loc ∷ locs) _ _ = halt bad_index

-- The outer loop, over the chunks of the checksums.
unfoldable pub zip_chunks :
    List (List Checksum) → List (List Location) → List (List ℕ) → Reader (List (List Fragment))
zip_chunks [] locations sizes = pure []
zip_chunks (crcs ∷ checksums) ([] ∷ locations) sizes = do
  rest ← zip_chunks checksums locations (Fragments.tail sizes)
  pure ([] ∷ rest)
zip_chunks (crcs ∷ checksums) ((l ∷ ls) ∷ locations) (lens ∷ sizes) = do
  chunk ← zip_chunk (l ∷ ls) crcs lens
  rest ← zip_chunks checksums locations sizes
  pure (chunk ∷ rest)
zip_chunks (crcs ∷ checksums) _ _ = halt bad_index

-- `_from_version1` behind the decompression.
unfoldable pub from_version1_body : Reader Manifest
from_version1_body = do
  head ← from_head
  _ ← expect_one
  locations ← from_vector [] (from_vector (none, 0) from_location)
  _ ← expect_one
  checksums ← from_elements [] (from_elements no_checksum from_checksum)
  _ ← expect_one
  sizes ← from_vector [] (from_vector 0 from_u32)
  fragments ← zip_chunks checksums locations sizes
  version_id ← from_u32
  max_disks_per_node ← from_u32
  timestamp ← from_double
  pure (manifest_of head fragments (some version_id) (some max_disks_per_node) (some timestamp))
