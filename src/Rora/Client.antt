-- ===== src/Rora/Client.antt =====
-- The members of `RoraProxy_client` of cpp/src/lib/rora_proxy_client.h, with the two singletons that it
-- uses: the cache of manifests and the access to the osds of cpp/src/lib/osd_access.cc.
use alba.Base.{ℕ, List, Bool, Option}
use alba.Exec.{Exec, within}
use alba.Llio.Builder.{Builder}
use alba.Encryption.Decrypt.{Cipher}
use alba.Manifest.{ManifestWithNamespaceId}
use alba.Cache.{Bimap}
use alba.Cache.Manifests.{ManifestCache}
use alba.Asd.Pool.{Pool}
use alba.Asd.Direct.{OsdMap}
use alba.Client.{Transport, Client}

-- `asd_slice`; the target is an offset from the start of a buffer.
pub record AsdSlice : Type 0 where
  pub key : List ℕ
  pub offset : ℕ
  pub len : ℕ
  pub target : ℕ

-- What the client uses and is no code of it: the transport to the proxy, boost::bimap, snappy, the
-- connections to the asds and whether the reads over one succeed, what libgcrypt makes of bytes (a
-- digest, or an error), and the bytes that the asds leave at a target.
pub record World : Type 1 where
  pub transport : Transport
  pub bimap : Bimap ManifestWithNamespaceId
  pub uncompress : List ℕ → List ℕ
  pub Connection : Type 0
  pub connect : List ℕ → Option Connection
  pub partial_get : Connection → AsdSlice → Bool
  pub sha256 : List ℕ → Option (List ℕ)
  pub cipher : Cipher
  pub memory : ℕ → ℕ → List ℕ

-- `OsdAccess`, whose pools have the size that it was made with.
pub record OsdAccess (C : Type 0) : Type 0 where
  pub alba_levels : List (List ℕ)
  pub osd_maps : List (List ℕ × OsdMap)
  pub pools : List (List ℕ × Pool C)
  pub filling : Bool
  pub connection_pool_size : ℕ

pub record RoraConfig : Type 0 where
  pub manifest_cache_size : ℕ
  pub use_null_io : Bool

module _ (W : World) where
  pub record RoraClient : Type 0 where
    pub delegate : Client W.transport
    pub use_null_io : Bool
    pub has_local_fragment_cache : Bool
    pub fast_path_failures : ℕ
    pub failure_time : ℕ
    pub ser_version : Option ℕ
    pub enc_keys : List (List ℕ × List ℕ)
    pub fkb : Builder
    pub manifests : ManifestCache W.bimap
    pub access : OsdAccess W.Connection

  -- The methods that only call the delegate are this.
  abbrev pub delegated {ℓ} : {A : Type ℓ} → Exec (Client W.transport) A → Exec RoraClient A
  delegated = within (λ s. s.delegate) (λ d s. record s { delegate = d })

  abbrev pub on_manifests {ℓ} : {A : Type ℓ} → Exec (ManifestCache W.bimap) A → Exec RoraClient A
  on_manifests = within (λ s. s.manifests) (λ c s. record s { manifests = c })
