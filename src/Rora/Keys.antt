-- ===== src/Rora/Keys.antt =====
-- `get_encryption_key` of cpp/src/lib/rora_proxy_client.cc: keys by their digest.
use alba.Base.{ℕ, List, ◌∷◌, Option, none, some, string_eq, if◌then◌else◌}
use alba.Exec.{thrown_int, Exec, pure, raise, gets, defined, modify, ◌>>=◌, ◌>>◌}
use alba.Cache.{assoc}
use alba.Client.Calls.{get_fragment_encryption_key}
use alba.Rora.Client.{World, RoraClient, delegated}

abbrev pub Keys : Type 0
Keys = List (List ℕ × List ℕ)

-- `emplace`: a key that is there stays.
unfoldable pub emplace : List ℕ → List ℕ → Keys → Keys
emplace id key keys = elim (assoc id keys) [ none ↦ (id, key) ∷ keys | some other ↦ keys ]

module _ (W : World) where
  unfoldable pub keep_key : List ℕ → List ℕ → Exec (RoraClient W) (Unit {0})
  keep_key id key = modify (λ s. record s { enc_keys = emplace id key s.enc_keys })

  -- A key with another digest is kept under that, and `throw 0`.
  unfoldable pub check_key : List ℕ → List ℕ → List ℕ → Exec (RoraClient W) (List ℕ)
  check_key key_identification key id2 = do
    keep_key id2 key
    if string_eq key_identification id2 then pure key else raise thrown_int

  -- A digest that libgcrypt does not make is `throw 0`.
  unfoldable pub checked_digest : List ℕ → List ℕ → Option (List ℕ) → Exec (RoraClient W) (List ℕ)
  checked_digest key_identification key none = raise thrown_int
  checked_digest key_identification key (some id2) = check_key key_identification key id2

  -- `*get_fragment_encryption_key(...)` of no key is undefined.
  unfoldable pub fetch_key : List ℕ → ℕ → List ℕ → Exec (RoraClient W) (List ℕ)
  fetch_key alba_id namespace_id key_identification = do
    enc_key ← delegated W (get_fragment_encryption_key W.transport alba_id namespace_id)
    key ← defined enc_key
    checked_digest key_identification key (W.sha256 key)

  unfoldable pub found_or_fetched :
      Option (List ℕ) → List ℕ → ℕ → List ℕ → Exec (RoraClient W) (List ℕ)
  found_or_fetched (some key) alba_id namespace_id key_identification = pure key
  found_or_fetched none alba_id namespace_id key_identification =
      fetch_key alba_id namespace_id key_identification

  unfoldable pub get_encryption_key : List ℕ → ℕ → List ℕ → Exec (RoraClient W) (List ℕ)
  get_encryption_key alba_id namespace_id key_identification = do
    keys ← gets (λ s. s.enc_keys)
    found_or_fetched (assoc key_identification keys) alba_id namespace_id key_identification
