-- ===== src/Runs/Manifests.antt =====
-- A manifest of two chunks, and a list in which one manifest does not decode.
use alba.Base.{
  All, ℕ, ◌<◌, ◌^◌, refl, List, [], ◌∷◌, none, some, replicate, length, le_bytes, subst, sym,
  append-nil, le_value, arith,
}
use alba.Llio.Layout.{
  concat_bytes, option_bytes, bool_bytes, string_bytes, varint_bytes, varint_groups, vector_bytes,
}
use alba.Llio.Message.{Ahead, message, message-Ahead, is_outside}
use alba.Llio.Reader.{current, ◌>>=◌}
use alba.Llio.From.{from_string, from_u32}
use alba.Llio.Reads.{Reads}
use alba.Common.{x_uint64_bytes}
use alba.Checksum.{crc32c, checksum_bytes}
use alba.Encryption.{EncryptInfo, no_encryption, encrypted, ChainingMode, KeyLength, Algo}
use alba.Encryption.RoundTrip.{encrypt_info_bytes}
use alba.Manifest.{Head, no_compression, from_head, from_version2_body, manifest_of}
use alba.Manifest.Fragments.{Fragment, from_fragment}
use alba.Manifest.Format.{
  fragment_body_bytes, location_bytes, trailing_bytes, small_bytes, encoding_scheme_bytes, with_ctr,
  fragment_bytes, version2_bytes, head_bytes, IsFragment, IsHead,
}
use alba.Manifest.FragmentRoundTrip.{Reads-from_fragment}
use alba.Manifest.Enclosed.{version2, inner}
use alba.Manifest.Resilience.{Entry, Decodes, Outcomes, IsListed}
use alba.Manifest.RoundTrip.{from_version2_body-version2_bytes}

abbrev aes_ctr : EncryptInfo
aes_ctr = encrypted (record {
  algo = Algo.aes;
  mode = ChainingMode.ctr;
  key_length = KeyLength.l256;
  key_identification = replicate 32 7;
})

abbrev pub fragment : Fragment
fragment = record { loc = (some 3, 1); crc = crc32c 9; len = 4; ctr = none; fnr = none }

fragment-IsFragment : IsFragment with_ctr fragment
unfolding fragment_body_bytes location_bytes trailing_bytes option_bytes bool_bytes small_bytes
    checksum_bytes x_uint64_bytes le_bytes
fragment-IsFragment = record {
  osd = omega arith;
  version = omega arith;
  crc = omega arith;
  len = omega arith;
  ctr = tt;
  fnr = tt;
  known = refl;
  body = omega arith;
}

Reads-from_fragment_example : Reads from_fragment (fragment_bytes with_ctr fragment) fragment
Reads-from_fragment_example = Reads-from_fragment with_ctr fragment fragment-IsFragment

abbrev pub head : Head
head = record {
  name = 110 ∷ [];
  object_id = 111 ∷ [];
  chunk_sizes = 8 ∷ [];
  encoding_scheme = record { k = 2; m = 0; w = 8 };
  compression = no_compression;
  encrypt_info = no_encryption;
  checksum = crc32c 9;
  size = 8;
}

head-IsHead : IsHead head
head-IsHead = record {
  name = omega arith;
  object_id = omega arith;
  chunk_count = omega arith;
  chunk_sizes = (omega arith, tt);
  k = omega arith;
  m = omega arith;
  w = omega arith;
  encrypt_info = tt;
  checksum = omega arith;
  size = omega arith;
}

from_version2_body-version2_bytes_example :
    Reads from_version2_body
      (version2_bytes with_ctr head ((fragment ∷ fragment ∷ []) ∷ []))
      (manifest_of head ((fragment ∷ fragment ∷ []) ∷ []) none none none)
from_version2_body-version2_bytes_example =
    from_version2_body-version2_bytes with_ctr head ((fragment ∷ fragment ∷ []) ∷ []) head-IsHead
      (((fragment-IsFragment, (fragment-IsFragment, tt)), omega arith), tt) (omega arith)

-- What a compressed string stands for: nothing where it is empty, and else the manifest.
abbrev pub uncompress : List ℕ → List ℕ
uncompress [] = []
uncompress (c ∷ cs) = version2_bytes with_ctr head ((fragment ∷ fragment ∷ []) ∷ [])

abbrev pub good : Entry
good = record {
  name = 110 ∷ [];
  alba_id = 97 ∷ [];
  version = version2;
  compressed = 1 ∷ [];
  namespace_id = 5;
}

abbrev pub bad : Entry
bad = record {
  name = 98 ∷ [];
  alba_id = 97 ∷ [];
  version = version2;
  compressed = [];
  namespace_id = 6;
}

bad-Decodes : Decodes uncompress bad none
unfolding from_version2_body from_head from_string from_u32 current is_outside ◌>>=◌ message
    le_value
bad-Decodes = (inner uncompress [], refl)

short : length (uncompress (1 ∷ [])) < 2 ^ 31
unfolding version2_bytes head_bytes string_bytes vector_bytes concat_bytes encoding_scheme_bytes
    encrypt_info_bytes checksum_bytes fragment_bytes varint_bytes varint_groups fragment_body_bytes
    location_bytes trailing_bytes option_bytes bool_bytes small_bytes x_uint64_bytes le_bytes
short = omega arith

good-Decodes :
    Decodes uncompress good
      (some (manifest_of head ((fragment ∷ fragment ∷ []) ∷ []) none none none))
unfolding manifest_of
good-Decodes = (
  (
    _,
    from_version2_body-version2_bytes_example.at (inner uncompress (1 ∷ [])) []
        (subst (Ahead (inner uncompress (1 ∷ []))) (sym (append-nil _)) (message-Ahead _ short)),
  ),
  refl,
)

abbrev pub listed : Outcomes
listed =
    (bad, none)
    ∷ (good, some (manifest_of head ((fragment ∷ fragment ∷ []) ∷ []) none none none))
    ∷ []

pub listed-IsListed : All (IsListed uncompress) listed
listed-IsListed = (
  (
    record {
      name = omega arith;
      alba_id = omega arith;
      compressed = omega arith;
      namespace_id = omega arith;
    },
    bad-Decodes,
  ),
  (
    (
      record {
        name = omega arith;
        alba_id = omega arith;
        compressed = omega arith;
        namespace_id = omega arith;
      },
      good-Decodes,
    ),
    tt,
  ),
)
