-- ===== src/Rora/Digests.antt =====
-- A key that is returned has the digest that was asked for.
use alba.Base.{
  ℕ, ◌≡◌, refl, List, [], ◌∷◌, Option, none, some, string_eq, string_eq_iff, Bool-cases, inl, inr,
  All,
}
use mathlib.Core.Option.{none-ne-some, some-injective}
use alba.Exec.Triples.{
  Triple, Ends, Triple-weaken, Keeps-defined, Triple-pure, Triple-raise, Triple-gets, Triple-if,
  Triple-bind,
}
use alba.Cache.{assoc}
use alba.Rora.Client.{World, RoraClient}
use alba.Rora.Keys.{
  Keys, check_key, checked_digest, fetch_key, found_or_fetched, get_encryption_key,
}
use alba.Rora.Upkeep.{Keeps-delegated, Keeps-emplaced}
use alba.Rora.Invariant.{IsWithin, IsWithin-IsStable}

module _ (W : World) (n : ℕ) where
  abbrev HasDigest : List ℕ → List ℕ → RoraClient W → Type 0
  HasDigest wanted key s = (W.sha256 key ≡ some wanted) × IsWithin W n s

  assoc-keyed :
      (wanted key : List ℕ) (keys : Keys)
      → All (λ p. W.sha256 p.1 ≡ some p.0) keys
      → assoc wanted keys ≡ some key
      → W.sha256 key ≡ some wanted
  assoc-keyed wanted key [] h e = absurd (none-ne-some key e)
  assoc-keyed wanted key ((id, k) ∷ keys) (h, hs) e = elim (Bool-cases (string_eq wanted id)) [
    | inl b ↦
        let kept : k ≡ key = some-injective k key (rw b at e) in
        rw (← kept, (string_eq_iff wanted id).0 b) h
    | inr b ↦ assoc-keyed wanted key keys hs (rw b at e)
  ]

  check_key-HasDigest :
      (wanted key id : List ℕ)
      → W.sha256 key ≡ some id
      → Triple (IsWithin W n) (check_key W wanted key id) (HasDigest wanted) (IsWithin W n)
  unfolding check_key
  check_key-HasDigest wanted key id e =
      Triple-bind (Keeps-emplaced W (IsWithin W n) (IsWithin-IsStable W n) id key e) λ u.
        Triple-if (string_eq wanted id)
          (λ b. Triple-pure key (λ s h. (rw ((string_eq_iff wanted id).0 b) e, h)))
          (λ b. Triple-raise _ (λ s h. h))

  checked_digest-HasDigest :
      (wanted key : List ℕ) (d : Option (List ℕ))
      → W.sha256 key ≡ d
      → Triple (IsWithin W n) (checked_digest W wanted key d) (HasDigest wanted) (IsWithin W n)
  unfolding checked_digest
  checked_digest-HasDigest wanted key none e = Triple-raise _ (λ s h. h)
  checked_digest-HasDigest wanted key (some id) e = check_key-HasDigest wanted key id e

  fetch_key-HasDigest :
      (alba_id : List ℕ) (namespace_id : ℕ) (wanted : List ℕ)
      → Triple
          (IsWithin W n)
          (fetch_key W alba_id namespace_id wanted)
          (HasDigest wanted)
          (IsWithin W n)
  unfolding fetch_key
  fetch_key-HasDigest alba_id namespace_id wanted =
      Triple-bind (Keeps-delegated W (IsWithin W n) (IsWithin-IsStable W n) _) λ enc_key.
        Triple-bind (Keeps-defined enc_key)
          λ key. checked_digest-HasDigest wanted key (W.sha256 key) refl

  found_or_fetched-HasDigest :
      (alba_id : List ℕ) (namespace_id : ℕ) (wanted : List ℕ) (found : Option (List ℕ))
      (keys : Keys)
      → assoc wanted keys ≡ found
      → Triple
          (λ s. (keys ≡ s.enc_keys) × IsWithin W n s)
          (found_or_fetched W found alba_id namespace_id wanted)
          (HasDigest wanted)
          (IsWithin W n)
  unfolding found_or_fetched
  found_or_fetched-HasDigest alba_id namespace_id wanted none keys e =
      Triple-weaken {P = IsWithin W n} (λ s h. h.1) (λ a s h. h) (λ s h. h)
        (fetch_key-HasDigest alba_id namespace_id wanted)
  found_or_fetched-HasDigest alba_id namespace_id wanted (some key) keys e =
      Triple-pure key λ s h. (assoc-keyed wanted key keys (rw h.0 h.1.keyed) e, h.1)

  get_encryption_key-triple :
      (alba_id : List ℕ) (namespace_id : ℕ) (wanted : List ℕ)
      → Triple
          (IsWithin W n)
          (get_encryption_key W alba_id namespace_id wanted)
          (HasDigest wanted)
          (IsWithin W n)
  unfolding get_encryption_key
  get_encryption_key-triple alba_id namespace_id wanted =
      Triple-bind {Q = λ keys s. (keys ≡ s.enc_keys) × IsWithin W n s}
        (Triple-gets _ (λ s h. (refl, h)))
        λ keys. found_or_fetched-HasDigest alba_id namespace_id wanted _ keys refl

  -- A lookup of a key by its digest, in a client with each key under its digest: the key that is
  -- returned, whether it was kept or comes from the proxy, has that digest, and whether a key is returned
  -- or not, each key is under its digest afterwards and no failure is counted.
  pub get_encryption_key-HasDigest :
      (alba_id : List ℕ) (namespace_id : ℕ) (wanted : List ℕ) (s : RoraClient W)
      → IsWithin W n s
      → Ends
          (λ key s'. (W.sha256 key ≡ some wanted) × IsWithin W n s')
          (IsWithin W n)
          (get_encryption_key W alba_id namespace_id wanted s)
  get_encryption_key-HasDigest alba_id namespace_id wanted =
      (get_encryption_key-triple alba_id namespace_id wanted).at
