-- ===== src/Encryption/Decrypt.antt =====
-- `Encrypted::partial_decrypt` of cpp/src/lib/encryption.cc, over an interface for the ciphers of
-- libgcrypt.
use alba.Base.{
  ℕ, ◌/◌, ◌%◌, List, Bool, true, false, Option, none, some, ◌==◌, if◌then◌else◌, length, replicate,
  sign_extend,
}
use alba.Base.Options.{◌>>=◌}
use alba.Encryption.{Encrypted, is_ctr}
use alba.Encryption.Counter.{with_offset}

-- `gcry_cipher_open` for AES in counter mode, `_setkey`, `_setctr`, and `_decrypt` in place: nothing
-- where the result is not 0.
pub record Cipher : Type 1 where
  pub Handle : Type 0
  pub open_ : Option Handle
  pub setkey : List ℕ → Handle → Option Handle
  pub setctr : List ℕ → Handle → Option Handle
  pub decrypt : List ℕ → Handle → Option (List ℕ × Handle)

abbrev pub block_len : ℕ
block_len = 16

module _ (C : Cipher) where
  -- The bytes that are burnt are those of an array that is not initialised; zeros stand for them.
  unfoldable pub burn : ℕ → C.Handle → Option C.Handle
  burn to_burn hd =
      if to_burn == 0
      then some hd
      else elim (C.decrypt (replicate to_burn 0) hd) [ none ↦ none | some r ↦ some r.1 ]

  unfoldable pub run_cipher : List ℕ → List ℕ → List ℕ → ℕ → Option (List ℕ)
  run_cipher buf enc_key ctr_with_offset to_burn = do
    hd ← C.open_
    keyed ← C.setkey enc_key hd
    counting ← C.setctr ctr_with_offset keyed
    burnt ← burn to_burn counting
    (plain, _) ← C.decrypt buf burnt
    some plain

  abbrev pub decrypted : List ℕ → Option (List ℕ) → Bool × List ℕ
  decrypted buf none = (false, buf)
  decrypted buf (some plain) = (true, plain)

  unfoldable pub run_with : List ℕ → List ℕ → ℕ → Option (List ℕ) → Option (Bool × List ℕ)
  run_with buf enc_key to_burn none = none
  run_with buf enc_key to_burn (some ctr_with_offset) =
      some (decrypted buf (run_cipher buf enc_key ctr_with_offset to_burn))

  -- Whether it succeeded, and the buffer; `none` where the process ends, as it does after a failed
  -- assert. The offset is an int that is given as the uint32_t that it comes from.
  unfoldable pub partial_decrypt : Encrypted → List ℕ → List ℕ → List ℕ → ℕ → Option (Bool × List ℕ)
  partial_decrypt e buf enc_key ctr offset =
      if is_ctr e.mode
      then (if length ctr == block_len
          then run_with buf enc_key (sign_extend offset % block_len)
              (with_offset ctr (sign_extend offset / block_len))
          else none)
      else some (false, buf)
