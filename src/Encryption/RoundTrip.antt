-- ===== src/Encryption/RoundTrip.antt =====
-- The bytes of an `EncryptInfo`, and that the reader reads them back.
use alba.Base.{ℕ, ◌≡◌, List, [], ◌++◌, length, le_bytes, arith}
use alba.Llio.Reads.{Reads, Reads-bind, Reads-bind_nil, Reads-silent, Reads-last, Reads-pure}
use alba.Llio.Layout.{string_bytes}
use alba.Llio.RoundTrip.{Reads-from_u8, Reads-from_string}
use alba.Encryption.{
  ChainingMode, cbc, ctr, KeyLength, l256, Algo, aes, Encrypted, EncryptInfo, no_encryption,
  encrypted, from_chaining_mode, from_key_length, from_algo, check_tag, check_key, from_encrypted,
  from_encrypt_info,
}

abbrev pub mode_byte : ChainingMode → ℕ
mode_byte cbc = 1
mode_byte ctr = 2

-- The format: algorithm, mode, key length, the tag of the identification and the identification.
unfoldable pub encrypt_info_bytes : EncryptInfo → List ℕ
encrypt_info_bytes no_encryption = le_bytes 1 1
encrypt_info_bytes (encrypted e) =
    le_bytes 1 2
    ++ (le_bytes 1 1
        ++ (le_bytes 1 (mode_byte e.mode)
            ++ (le_bytes 1 1 ++ (le_bytes 1 1 ++ string_bytes e.key_identification))))

-- The identification of a key is a SHA-256 digest.
abbrev pub IsIdentified : EncryptInfo → Type 0
IsIdentified no_encryption = Unit {0}
IsIdentified (encrypted e) = length e.key_identification ≡ 32

Reads-from_chaining_mode :
    (m : ChainingMode) → Reads from_chaining_mode (le_bytes 1 (mode_byte m)) m
unfolding from_chaining_mode
Reads-from_chaining_mode cbc = Reads-bind_nil _ cbc (Reads-from_u8 1 (omega arith)) (Reads-pure cbc)
Reads-from_chaining_mode ctr = Reads-bind_nil _ ctr (Reads-from_u8 2 (omega arith)) (Reads-pure ctr)

Reads-from_key_length : (kl : KeyLength) → Reads from_key_length (le_bytes 1 1) kl
unfolding from_key_length
Reads-from_key_length l256 = Reads-bind_nil _ l256 (Reads-from_u8 1 (omega arith)) (Reads-pure l256)

Reads-from_algo : (a : Algo) → Reads from_algo (le_bytes 1 1) a
unfolding from_algo
Reads-from_algo aes = Reads-bind_nil _ aes (Reads-from_u8 1 (omega arith)) (Reads-pure aes)

Reads-check_key : (key : List ℕ) → length key ≡ 32 → Reads (check_key key) [] tt
unfolding check_key
Reads-check_key key h = rw h (Reads-pure tt)

Reads-from_encrypted :
    (e : Encrypted)
    → length e.key_identification ≡ 32
    → Reads from_encrypted
        (le_bytes 1 1
          ++ (le_bytes 1 (mode_byte e.mode)
              ++ (le_bytes 1 1 ++ (le_bytes 1 1 ++ string_bytes e.key_identification))))
        e
unfolding from_encrypted check_tag
Reads-from_encrypted e h = Reads-bind _ (Reads-from_algo e.algo) (
    Reads-bind _ (Reads-from_chaining_mode e.mode) (
      Reads-bind _ (Reads-from_key_length e.key_length) (
        Reads-bind _ (Reads-from_u8 1 (omega arith)) (
          Reads-silent _ (Reads-pure tt) (
            Reads-bind_nil _ e (Reads-from_string e.key_identification (omega arith))
              (Reads-silent _ (Reads-check_key e.key_identification h) (Reads-pure e)))))))

-- Either kind of encryption is read back from its bytes, one with a key where the identification of
-- the key has 32 bytes.
pub Reads-from_encrypt_info :
    (i : EncryptInfo) → IsIdentified i → Reads from_encrypt_info (encrypt_info_bytes i) i
unfolding from_encrypt_info encrypt_info_bytes
Reads-from_encrypt_info no_encryption h =
    Reads-bind_nil _ no_encryption (Reads-from_u8 1 (omega arith)) (Reads-pure no_encryption)
Reads-from_encrypt_info (encrypted e) h =
    Reads-bind _ (Reads-from_u8 2 (omega arith)) (Reads-last encrypted (Reads-from_encrypted e h))
