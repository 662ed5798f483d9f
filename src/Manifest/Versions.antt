-- ===== src/Manifest/Versions.antt =====
-- `from2` of cpp/src/lib/manifest.cc. `ok_to_continue` comes back beside the outcome, also where an
-- exception is thrown. `uncompress` is what snappy::Uncompress leaves in `real`.
use alba.Base.{ℕ, List, Bool, true, false, ◌==◌, if◌then◌else◌}
use alba.Llio.Message.{Message, message, from_string as buffer_of}
use alba.Llio.Reader.{
  Reader, Outcome, ok, throws, halts, Exception, deserialisation_exception, length_error, thrown,
  throw, ◌>>=◌, ◌>>◌, reading, current, skips, get_nested_message,
}
use alba.Llio.From.{from_u8, from_u32, from_string}
use alba.Common.{from_x_uint64}
use alba.Manifest.{Manifest, ManifestWithNamespaceId, from_version1_body, from_version2_body}

abbrev pub Flagged : Type 0 → Type 0
Flagged A = Outcome A × Bool

-- `ok_to_continue` is set between the two parts.
unfoldable pub flag_between : {A B : Type 0} → Reader A → (A → Reader B) → Message → Flagged B
flag_between first second m = elim (first m) [
  | ok a m' ↦ (second a m', true)
  | throws e m' ↦ (throws e m', false)
  | halts h ↦ (halts h, false)
]

-- The compressed string of version 1, and of version 2, which is not copied.
unfoldable pub compressed1 : Reader (List ℕ)
compressed1 = from_string

unfoldable pub compressed2 : Reader (List ℕ)
compressed2 = do
  compressed_size ← from_u32
  m_compressed ← get_nested_message compressed_size
  skips compressed_size
  reading m_compressed (current compressed_size)

module _ (uncompress : List ℕ → List ℕ) where
  abbrev payload : Reader Manifest → List ℕ → Reader Manifest
  payload body compressed = reading (message (buffer_of (uncompress compressed))) body

  unfoldable pub from_version1 : Message → Flagged Manifest
  from_version1 = flag_between compressed1 (payload from_version1_body)

  unfoldable pub from_version2 : Message → Flagged Manifest
  from_version2 = flag_between compressed2 (payload from_version2_body)

  unfoldable pub from_version : ℕ → Message → Flagged Manifest
  from_version version m =
      if version == 1
      then from_version1 m
      else if version == 2
      then from_version2 m
      else (throws deserialisation_exception m, false)

  unfoldable pub from2_manifest : Message → Flagged Manifest
  from2_manifest m = elim (from_u8 m) [
    | ok version m' ↦ from_version version m'
    | throws e m' ↦ (throws e m', false)
    | halts h ↦ (halts h, false)
  ]

  -- The handler: after a deserialisation_exception the namespace id is read, if that can be done,
  -- and the exception is thrown on.
  unfoldable pub rethrow : Exception → Bool → Message → Outcome ManifestWithNamespaceId
  rethrow deserialisation_exception true m =
      (do _ ← from_x_uint64; throw deserialisation_exception) m
  rethrow deserialisation_exception false m = throws deserialisation_exception m
  rethrow length_error flag m = throws length_error m
  rethrow thrown flag m = throws thrown m

  -- The try block behind the manifest.
  unfoldable pub with_namespace_id : Manifest → Bool → Message → Outcome ManifestWithNamespaceId
  with_namespace_id mf flag m = elim (from_x_uint64 m) [
    | ok id m' ↦ ok (record { manifest = mf; namespace_id = id }) m'
    | throws e m' ↦ rethrow e flag m'
    | halts h ↦ halts h
  ]

  unfoldable pub after_manifest : Outcome Manifest → Bool → Outcome ManifestWithNamespaceId
  after_manifest (ok mf m) flag = with_namespace_id mf flag m
  after_manifest (throws e m) flag = rethrow e flag m
  after_manifest (halts h) flag = halts h

  unfoldable pub from2 : Message → Flagged ManifestWithNamespaceId
  from2 m = let (r, flag) = from2_manifest m in (after_manifest r flag, flag)
