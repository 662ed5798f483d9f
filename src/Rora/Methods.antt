-- ===== src/Rora/Methods.antt =====
-- The constructor and the other methods of `RoraProxy_client` of cpp/src/lib/rora_proxy_client.cc, and
-- `make_proxy_client` of cpp/src/lib/proxy_client.cc.
use alba.Base.{
  ℕ, List, [], ◌∷◌, Bool, true, false, Option, none, some, ◌==◌, string_eq, if◌then◌else◌,
}
use alba.Exec.{Fault, process_down, proxy_exception, Exec, pure, raise, modify, ◌>>=◌, ◌>>◌, catch}
use alba.Llio.Builder.{message_builder}
use alba.Checksum.{Checksum}
use alba.Osd.{OsdInfo, OsdCapabilities}
use alba.Cache.Manifests.{ManifestCache, set_capacity, invalidate_namespace}
use alba.Proxy.Sequences.{Assert, object_does_not_exist, Update, upload_object_from_file}
use alba.Client.{Client}
use alba.Client.Calls as Calls
use alba.Rora.Client.{World, OsdAccess, RoraConfig, RoraClient, delegated}
use alba.Rora.Reads.{process}

-- UNKNOWN_OPERATION.
abbrev pub unknown_operation : ℕ
unknown_operation = 13

unfoldable pub is_unknown_operation : Fault → Bool
is_unknown_operation (proxy_exception rc what) = rc == unknown_operation
is_unknown_operation f = false

-- "manifest_ser".
abbrev pub manifest_ser : List ℕ
manifest_ser = 109 ∷ 97 ∷ 110 ∷ 105 ∷ 102 ∷ 101 ∷ 115 ∷ 116 ∷ 95 ∷ 115 ∷ 101 ∷ 114 ∷ []

-- The first byte of a string, behind which there is a NUL.
abbrev pub first_byte : List ℕ → ℕ
first_byte [] = 0
first_byte (b ∷ bs) = b

-- The loop over the processed pairs: the last one with that key.
unfoldable pub negotiated : Option ℕ → List (List ℕ × List ℕ) → Option ℕ
negotiated version [] = version
negotiated version ((key, v) ∷ kvs) =
    negotiated (if string_eq key manifest_ser then some (first_byte v) else version) kvs

unfoldable pub asserts_for : Bool → List ℕ → List Assert
asserts_for overwrite object_name = if overwrite then [] else object_does_not_exist object_name ∷ []

module _ (W : World) where
  -- The members before the body of the constructor.
  unfoldable pub fresh :
      Client W.transport
      → RoraConfig
      → ManifestCache W.bimap
      → OsdAccess W.Connection
      → RoraClient W
  fresh delegate config manifests access = record {
    delegate = delegate;
    use_null_io = config.use_null_io;
    has_local_fragment_cache = false;
    fast_path_failures = 0;
    failure_time = 0;
    ser_version = none;
    enc_keys = [];
    fkb = message_builder;
    manifests = manifests;
    access = access;
  }

  unfoldable pub or_if_unknown {ℓ} :
      {A : Type ℓ} → A → Exec (RoraClient W) A → Exec (RoraClient W) A
  or_if_unknown a m = catch m (λ f. if is_unknown_operation f then pure a else raise f)

  unfoldable pub ask_version : Exec (RoraClient W) (Option ℕ)
  ask_version = do
    kvs ← delegated W (Calls.update_session W.transport ((manifest_ser, some (2 ∷ [])) ∷ []))
    pure (negotiated none kvs)

  -- The body; `initialised` is what gcry_control says, without which the process is aborted.
  unfoldable pub construct : Bool → RoraConfig → Exec (RoraClient W) (Unit {0})
  construct false config = raise process_down
  construct true config = do
    modify
        (λ s. record s { manifests = set_capacity W.bimap config.manifest_cache_size s.manifests })
    has_cache ← or_if_unknown false (delegated W (Calls.has_local_fragment_cache W.transport))
    modify (λ s. record s { has_local_fragment_cache = has_cache })
    version ← or_if_unknown (some 1) ask_version
    modify (λ s. record s { ser_version = version })

  unfoldable pub namespace_exists : List ℕ → Exec (RoraClient W) Bool
  namespace_exists name = delegated W (Calls.namespace_exists W.transport name)

  unfoldable pub create_namespace : List ℕ → Option (List ℕ) → Exec (RoraClient W) (Unit {0})
  create_namespace name preset_name =
      delegated W (Calls.create_namespace W.transport name preset_name)

  unfoldable pub delete_namespace : List ℕ → Exec (RoraClient W) (Unit {0})
  delete_namespace name = delegated W (Calls.delete_namespace W.transport name)

  unfoldable pub list_namespaces :
      List ℕ → Bool → Option (List ℕ) → Bool → ℕ → Bool → Exec (RoraClient W) (List (List ℕ) × Bool)
  list_namespaces first include_first last include_last max reverse =
      delegated W
        (Calls.list_namespaces W.transport first include_first last include_last max reverse)

  unfoldable pub apply_sequence :
      List ℕ → Bool → List Assert → List Update → Exec (RoraClient W) (Unit {0})
  apply_sequence namespace_ write_barrier asserts updates = do
    infos ←
        delegated W
          (Calls.apply_sequence_ W.transport W.uncompress namespace_ write_barrier asserts updates)
    process W namespace_ infos

  unfoldable pub write_object_fs :
      List ℕ → List ℕ → List ℕ → Bool → Option Checksum → Exec (RoraClient W) (Unit {0})
  write_object_fs namespace_ object_name input_file overwrite checksum =
      apply_sequence namespace_ false (asserts_for overwrite object_name)
        (upload_object_from_file object_name input_file checksum ∷ [])

  unfoldable pub read_object_fs :
      List ℕ → List ℕ → List ℕ → Bool → Bool → Exec (RoraClient W) (Unit {0})
  read_object_fs namespace_ object_name dest_file consistent_read should_cache = delegated W (
      Calls.read_object_fs W.transport namespace_ object_name dest_file consistent_read
        should_cache)

  unfoldable pub delete_object : List ℕ → List ℕ → Bool → Exec (RoraClient W) (Unit {0})
  delete_object namespace_ object_name may_not_exist =
      delegated W (Calls.delete_object W.transport namespace_ object_name may_not_exist)

  unfoldable pub list_objects :
      List ℕ
      → List ℕ
      → Bool
      → Option (List ℕ)
      → Bool
      → ℕ
      → Bool
      → Exec (RoraClient W) (List (List ℕ) × Bool)
  list_objects namespace_ first include_first last include_last max reverse =
      delegated W (
        Calls.list_objects W.transport namespace_ first include_first last include_last max reverse)

  unfoldable pub get_object_info :
      List ℕ → List ℕ → Bool → Bool → Exec (RoraClient W) (ℕ × Checksum)
  get_object_info namespace_ object_name consistent_read should_cache =
      delegated W
        (Calls.get_object_info W.transport namespace_ object_name consistent_read should_cache)

  unfoldable pub invalidate_cache : List ℕ → Exec (RoraClient W) (Unit {0})
  invalidate_cache namespace_ = do
    modify (λ s. record s { manifests = invalidate_namespace W.bimap namespace_ s.manifests })
    delegated W (Calls.invalidate_cache W.transport namespace_)

  unfoldable pub drop_cache : List ℕ → Exec (RoraClient W) (Unit {0})
  drop_cache namespace_ = delegated W (Calls.drop_cache W.transport namespace_)

  unfoldable pub get_proxy_version : Exec (RoraClient W) (ℕ × ℕ × ℕ × List ℕ)
  get_proxy_version = delegated W (Calls.get_proxy_version W.transport)

  unfoldable pub ping : ℕ → Exec (RoraClient W) ℕ
  ping delay = delegated W (Calls.ping W.transport delay)

  unfoldable pub osd_info : Exec (RoraClient W) (Option (List (ℕ × OsdInfo × OsdCapabilities)))
  osd_info = delegated W (Calls.osd_info W.transport)

  unfoldable pub osd_info2 :
      Exec (RoraClient W) (Option (List (List ℕ × List (ℕ × OsdInfo × OsdCapabilities))))
  osd_info2 = delegated W (Calls.osd_info2 W.transport)

  unfoldable pub get_fragment_encryption_key : List ℕ → ℕ → Exec (RoraClient W) (Option (List ℕ))
  get_fragment_encryption_key alba_id namespace_id =
      delegated W (Calls.get_fragment_encryption_key W.transport alba_id namespace_id)
