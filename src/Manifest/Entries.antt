-- ===== src/Manifest/Entries.antt =====
-- `_read_object_infos` of cpp/src/lib/proxy_protocol.cc: a list of manifests, in which one that cannot
-- be decoded is passed over.
use alba.Base.{
  ℕ, zero, suc, ◌^◌, List, [], ◌∷◌, Bool, true, false, Option, none, some, leb, if◌then◌else◌,
  string_eq,
}
use alba.Llio.Reader.{
  Reader, Outcome, ok, throws, halts, deserialisation_exception, length_error, thrown, aborted,
  pure, ◌>>=◌,
}
use alba.Llio.From.{from_u32, from_string}
use alba.Manifest.{ManifestWithNamespaceId}
use alba.Manifest.Versions.{from2}

-- `object_info`: the name, the alba id and the manifest.
pub record ObjectInfo : Type 0 where
  pub name : List ℕ
  pub alba_id : List ℕ
  pub manifest : ManifestWithNamespaceId

-- The outcome of the try block and its handler; `none` is an entry that is passed over.
unfoldable pub settle :
    List ℕ → List ℕ → Outcome ManifestWithNamespaceId → Bool → Outcome (Option ObjectInfo)
settle name future (ok mf m) flag =
    if string_eq name mf.name
    then ok (some (record { name = name; alba_id = future; manifest = mf })) m
    else halts aborted
settle name future (throws deserialisation_exception m) true = ok none m
settle name future (throws deserialisation_exception m) false = throws deserialisation_exception m
settle name future (throws length_error m) flag = throws length_error m
settle name future (throws thrown m) flag = throws thrown m
settle name future (halts h) flag = halts h

abbrev pub push {ℓ} : {A : Type ℓ} → Option A → List A → List A
push none rest = rest
push (some a) rest = a ∷ rest

module _ (uncompress : List ℕ → List ℕ) where
  unfoldable pub try_manifest : List ℕ → List ℕ → Reader (Option ObjectInfo)
  try_manifest name future m = let (r, flag) = from2 uncompress m in settle name future r flag

  unfoldable pub read_object_info : Reader (Option ObjectInfo)
  read_object_info = do name ← from_string; future ← from_string; try_manifest name future

  unfoldable pub object_infos_loop : ℕ → Reader (List ObjectInfo)
  object_infos_loop zero = pure []
  object_infos_loop (suc n) = do
    info ← read_object_info
    rest ← object_infos_loop n
    pure (push info rest)

  -- The counter is an int32_t that starts at size - 1.
  unfoldable pub read_object_infos : Reader (List ObjectInfo)
  read_object_infos = do
    size ← from_u32
    if leb size (2 ^ 31) then object_infos_loop size else pure []
