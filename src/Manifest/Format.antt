-- ===== src/Manifest/Format.antt =====
-- The bytes of a manifest and of its parts: an account of the format that the readers are held to.
use alba.Base.{
  ℕ, ◌≡◌, ◌≤◌, ◌<◌, ◌^◌, List, [], ◌++◌, Option, none, some, length, u32, u64, le_bytes, All,
}
use alba.Llio.Layout.{string_bytes, varint_bytes, vector_bytes, option_bytes}
use alba.Common.{x_uint64_bytes}
use alba.Checksum.{checksum_bytes, IsDigest}
use alba.Encryption.RoundTrip.{encrypt_info_bytes, IsIdentified}
use alba.Manifest.{EncodingScheme, Compressor, no_compression, snappy, bzip2, test, Head}
use alba.Manifest.Fragments.{Location, Fragment}

unfoldable pub location_bytes : Location → List ℕ
location_bytes (osd, version) = option_bytes x_uint64_bytes osd ++ le_bytes 4 version

unfoldable pub small_bytes : List ℕ → List ℕ
small_bytes s = varint_bytes (length s) ++ s

-- The members that a writer knows of: none behind the length, the counter, the counter and the name.
pub data Era : Type 0 where
  plain with_ctr with_fnr : Era

unfoldable pub trailing_bytes : Era → Fragment → List ℕ
trailing_bytes plain f = []
trailing_bytes with_ctr f = option_bytes small_bytes f.ctr
trailing_bytes with_fnr f = option_bytes small_bytes f.ctr ++ option_bytes small_bytes f.fnr

unfoldable pub fragment_body_bytes : Era → Fragment → List ℕ
fragment_body_bytes era f =
    le_bytes 1 1
    ++ (location_bytes f.loc
        ++ (checksum_bytes f.crc ++ (le_bytes 4 f.len ++ trailing_bytes era f)))

unfoldable pub fragment_bytes : Era → Fragment → List ℕ
fragment_bytes era f =
    varint_bytes (length (fragment_body_bytes era f)) ++ fragment_body_bytes era f

-- What the members of a fragment can be: an unknown member is absent, and lengths and numbers fit.
abbrev pub InOption : {A : Type 0} → (A → Type 0) → Option A → Type 0
InOption P none = Unit {0}
InOption P (some a) = P a

abbrev pub Fits : Era → Fragment → Type 0
Fits plain f = (f.ctr ≡ none) × (f.fnr ≡ none)
Fits with_ctr f = f.fnr ≡ none
Fits with_fnr f = Unit {0}

abbrev pub IsSmall : List ℕ → Type 0
IsSmall s = length s < 2 ^ 31

pub record IsFragment (era : Era) (f : Fragment) : Type 0 where
  pub osd : InOption (λ i. i < u64) f.loc.0
  pub version : f.loc.1 < u32
  pub crc : IsDigest f.crc
  pub len : f.len < u32
  pub ctr : InOption IsSmall f.ctr
  pub fnr : InOption IsSmall f.fnr
  pub known : Fits era f
  pub body : length (fragment_body_bytes era f) < 2 ^ 31

abbrev pub compressor_byte : Compressor → ℕ
compressor_byte no_compression = 1
compressor_byte snappy = 2
compressor_byte bzip2 = 3
compressor_byte test = 4

unfoldable pub encoding_scheme_bytes : EncodingScheme → List ℕ
encoding_scheme_bytes e = le_bytes 1 1 ++ (le_bytes 4 e.k ++ (le_bytes 4 e.m ++ le_bytes 1 e.w))

unfoldable pub head_bytes : Head → List ℕ
head_bytes h =
    string_bytes h.name
    ++ (string_bytes h.object_id
        ++ (vector_bytes (le_bytes 4) h.chunk_sizes
            ++ (le_bytes 1 1
                ++ (encoding_scheme_bytes h.encoding_scheme
                    ++ (le_bytes 1 (compressor_byte h.compression)
                        ++ (encrypt_info_bytes h.encrypt_info
                            ++ (checksum_bytes h.checksum ++ le_bytes 8 h.size)))))))

pub record IsHead (h : Head) : Type 0 where
  pub name : length h.name < u32
  pub object_id : length h.object_id < u32
  pub chunk_count : length h.chunk_sizes ≤ 2 ^ 31
  pub chunk_sizes : All (λ n. n < u32) h.chunk_sizes
  pub k : h.encoding_scheme.k < u32
  pub m : h.encoding_scheme.m < u32
  pub w : h.encoding_scheme.w < 256
  pub encrypt_info : IsIdentified h.encrypt_info
  pub checksum : IsDigest h.checksum
  pub size : h.size < u64

-- Version 2 up to the end of the fragments.
unfoldable pub version2_bytes : Era → Head → List (List Fragment) → List ℕ
version2_bytes era h fragments =
    head_bytes h ++ (le_bytes 1 1 ++ vector_bytes (vector_bytes (fragment_bytes era)) fragments)

abbrev pub IsChunk : Era → List Fragment → Type 0
IsChunk era fs = All (IsFragment era) fs × (length fs ≤ 2 ^ 31)
