-- ===== src/Manifest/RoundTrip.antt =====
-- The body of a version 2 manifest is read back up to the end of its fragments.
use alba.Base.{◌^◌, ◌≤◌, ◌<◌, List, [], none, length, u32, le_bytes, All, arith}
use alba.Llio.Reads.{Reads, Reads-pure, Reads-bind, Reads-bind_nil, Reads-last}
use alba.Llio.RoundTrip.{
  Reads-from_u8, Reads-from_u32, Reads-from_u64, Reads-from_string, Reads-from_vector,
  Reads-from_elements,
}
use alba.Checksum.{Reads-from_checksum}
use alba.Encryption.RoundTrip.{Reads-from_encrypt_info}
use alba.Manifest.{
  EncodingScheme, Compressor, no_compression, snappy, bzip2, test, Head, from_encoding_scheme,
  compressor_of, from_compression, from_head, manifest_of, from_version2_body,
}
use alba.Manifest.Fragments.{Fragment, null_fragment}
use alba.Manifest.Format.{
  Era, compressor_byte, encoding_scheme_bytes, head_bytes, IsHead, version2_bytes, IsFragment,
  IsChunk,
}
use alba.Manifest.FragmentRoundTrip.{Reads-expect_one, Reads-from_fragment}

Reads-from_encoding_scheme :
    (e : EncodingScheme)
    → e.k < u32
    → e.m < u32
    → e.w < 256
    → Reads from_encoding_scheme (encoding_scheme_bytes e) e
unfolding from_encoding_scheme encoding_scheme_bytes
Reads-from_encoding_scheme e hk hm hw = Reads-bind _ Reads-expect_one (
    Reads-bind _ (Reads-from_u32 e.k hk) (
      Reads-bind _ (Reads-from_u32 e.m hm)
        (Reads-bind_nil _ e (Reads-from_u8 e.w hw) (Reads-pure e))))

Reads-from_compression :
    (c : Compressor) → Reads from_compression (le_bytes 1 (compressor_byte c)) c
unfolding from_compression compressor_of
Reads-from_compression no_compression =
    Reads-bind_nil _ no_compression (Reads-from_u8 1 (omega arith)) (Reads-pure no_compression)
Reads-from_compression snappy =
    Reads-bind_nil _ snappy (Reads-from_u8 2 (omega arith)) (Reads-pure snappy)
Reads-from_compression bzip2 =
    Reads-bind_nil _ bzip2 (Reads-from_u8 3 (omega arith)) (Reads-pure bzip2)
Reads-from_compression test =
    Reads-bind_nil _ test (Reads-from_u8 4 (omega arith)) (Reads-pure test)

pub Reads-from_head : (h : Head) → IsHead h → Reads from_head (head_bytes h) h
unfolding from_head head_bytes
Reads-from_head h v = Reads-bind _ (Reads-from_string h.name v.name) (
    Reads-bind _ (Reads-from_string h.object_id v.object_id) (
      Reads-bind _
        (Reads-from_vector {P = λ n. n < u32} Reads-from_u32 0 h.chunk_sizes v.chunk_sizes
          v.chunk_count)
        (Reads-bind _ Reads-expect_one (
          Reads-bind _ (Reads-from_encoding_scheme h.encoding_scheme v.k v.m v.w) (
            Reads-bind _ (Reads-from_compression h.compression) (
              Reads-bind _ (Reads-from_encrypt_info h.encrypt_info v.encrypt_info) (
                Reads-bind _ (Reads-from_checksum h.checksum v.checksum)
                  (Reads-bind_nil _ h (Reads-from_u64 h.size v.size) (Reads-pure h)))))))))

-- A version 2 body is read back up to the end of its fragments, for a head whose members fit, at most
-- 2^31 chunks, and fragments of any era: the reader leaves the members behind the fragments unset.
pub from_version2_body-version2_bytes :
    (era : Era) (h : Head) (fragments : List (List Fragment))
    → IsHead h
    → All (IsChunk era) fragments
    → length fragments ≤ 2 ^ 31
    → Reads from_version2_body
        (version2_bytes era h fragments)
        (manifest_of h fragments none none none)
unfolding from_version2_body version2_bytes
from_version2_body-version2_bytes era h fragments v all n = Reads-bind _ (Reads-from_head h v) (
    Reads-bind _ Reads-expect_one (
      Reads-last (λ fs. manifest_of h fs none none none)
        (Reads-from_elements {P = IsChunk era}
          (λ fs chunk.
            Reads-from_elements {P = IsFragment era} (Reads-from_fragment era) null_fragment fs
              chunk.0 chunk.1)
          [] fragments all n)))
