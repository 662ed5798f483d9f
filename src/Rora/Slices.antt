-- ===== src/Rora/Slices.antt =====
-- `get_location` and `_resolve_slice_one_level` of cpp/src/lib/rora_proxy_client.cc. `none` is an
-- access behind the end of a vector or a division by zero, both of which are undefined there.
use alba.Base.{
  ℕ, zero, suc, ◌+◌, ◌-◌, ◌*◌, ◌/◌, ◌%◌, min, List, [], ◌∷◌, Bool, true, false, Option, none, some,
  leb, ◌==◌, if◌then◌else◌, get_elem?, u32, u64,
}
use alba.Base.Options.{◌>>=◌}
use alba.Encryption.{EncryptInfo}
use alba.Manifest.{Compressor, no_compression, snappy, bzip2, test, ManifestWithNamespaceId}
use alba.Manifest.Fragments.{Fragment, Location as FragmentLocation}

-- `Location` of cpp/src/lib/rora_proxy_client.h.
pub record Location : Type 0 where
  pub namespace_id : ℕ
  pub object_id : List ℕ
  pub chunk_id : ℕ
  pub fragment_id : ℕ
  pub offset : ℕ
  pub length : ℕ
  pub fragment_location : FragmentLocation
  pub uses_compression : Bool
  pub encrypt_info : EncryptInfo
  pub ctr : Option (List ℕ)

abbrev pub uses : Compressor → Bool
uses no_compression = false
uses snappy = true
uses bzip2 = true
uses test = true

-- The loop over the chunk sizes: the total that it ends with, and how many times it went round.
unfoldable pub find_chunk : ℕ → List ℕ → ℕ → ℕ → Option (ℕ × ℕ)
find_chunk pos [] total rounds = if leb total pos then none else some (total, rounds)
find_chunk pos (chunk_size ∷ sizes) total rounds =
    let found = find_chunk pos sizes ((total + chunk_size) % u64) (suc rounds) in
    if leb total pos then found else some (total, rounds)

unfoldable pub divide : ℕ → ℕ → Option ℕ
divide n d = if d == 0 then none else some (n / d)

unfoldable pub minus : ℕ → ℕ → ℕ → ℕ
minus w a b = (a + (w - b)) % w

-- The members of `l`.
abbrev pub location_of : ManifestWithNamespaceId → Fragment → ℕ → ℕ → ℕ → ℕ → Location
location_of mf fragment chunk_index fragment_index offset length = record {
  namespace_id = mf.namespace_id;
  object_id = mf.object_id;
  chunk_id = chunk_index;
  fragment_id = fragment_index;
  offset = offset;
  length = length;
  fragment_location = fragment.loc;
  uses_compression = uses mf.compression;
  encrypt_info = mf.encrypt_info;
  ctr = fragment.ctr;
}

unfoldable pub get_location : ManifestWithNamespaceId → ℕ → ℕ → Option Location
get_location mf pos len = do
  (end, rounds) ← find_chunk pos mf.chunk_sizes 0 0
  let chunk_index = rounds - 1
  chunk_fragments ← get_elem? mf.fragments chunk_index
  chunk_size ← get_elem? mf.chunk_sizes chunk_index
  let start = minus u64 end chunk_size
  fragment_length ← divide chunk_size mf.encoding_scheme.k
  let pos_in_chunk = minus u64 pos start % u32
  fragment_index ← divide pos_in_chunk fragment_length
  fragment ← get_elem? chunk_fragments fragment_index
  let total = (start + fragment_length * fragment_index % u32) % u64
  let pos_in_fragment = minus u64 pos total % u32
  some (
      location_of mf fragment chunk_index fragment_index pos_in_fragment
        (min len (minus u32 fragment_length pos_in_fragment)))

-- The loop while length > 0, on fuel; a target is an offset from the start of the buffer.
unfoldable pub resolve_slice_one_level :
    ℕ → ManifestWithNamespaceId → ℕ → ℕ → ℕ → Option (List (ℕ × Location))
resolve_slice_one_level fuel mf offset zero target = some []
resolve_slice_one_level zero mf offset (suc l) target = none
resolve_slice_one_level (suc fuel) mf offset (suc l) target = do
  location ← get_location mf offset (suc l)
  let len = location.length
  rest ←
      resolve_slice_one_level fuel mf ((offset + len) % u64) (minus u32 (suc l) len) (target + len)
  some ((target, location) ∷ rest)
