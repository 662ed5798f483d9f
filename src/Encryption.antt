-- ===== src/Encryption.antt =====
-- `EncryptInfo` of cpp/include/encryption.h and its reading in cpp/src/lib/encryption.cc.
pub mod RoundTrip
pub mod Safety
pub mod Counter
pub mod Decrypt
pub mod Blocks
pub mod Streams
use alba.Base.{ℕ, List, Bool, true, false, ◌==◌, length, if◌then◌else◌}
use alba.Llio.Reader.{Reader, deserialisation_exception, aborted, throw, halt, pure, ◌>>=◌}
use alba.Llio.From.{from_u8, from_string}

pub data ChainingMode : Type 0 where
  cbc ctr : ChainingMode

pub data KeyLength : Type 0 where
  l256 : KeyLength

pub data Algo : Type 0 where
  aes : Algo

-- The class Encrypted.
pub record Encrypted : Type 0 where
  pub algo : Algo
  pub mode : ChainingMode
  pub key_length : KeyLength
  pub key_identification : List ℕ

-- The classes NoEncryption and Encrypted.
pub data EncryptInfo : Type 0 where
  no_encryption : EncryptInfo
  encrypted : Encrypted → EncryptInfo

unfoldable pub is_ctr : ChainingMode → Bool
is_ctr cbc = false
is_ctr ctr = true

unfoldable pub supports_partial_decrypt : EncryptInfo → Bool
unfolding is_ctr
supports_partial_decrypt no_encryption = true
supports_partial_decrypt (encrypted e) = is_ctr e.mode

unfoldable pub from_chaining_mode : Reader ChainingMode
from_chaining_mode = do
  type ← from_u8
  if type == 1 then pure cbc else if type == 2 then pure ctr else throw deserialisation_exception

unfoldable pub from_key_length : Reader KeyLength
from_key_length = do
  type ← from_u8
  if type == 1 then pure l256 else throw deserialisation_exception

unfoldable pub from_algo : Reader Algo
from_algo = do type ← from_u8; if type == 1 then pure aes else throw deserialisation_exception

-- The `assert` is on in the build.
unfoldable pub check_tag : ℕ → Reader (Unit {0})
check_tag tag = if tag == 1 then pure tt else halt aborted

unfoldable pub check_key : List ℕ → Reader (Unit {0})
check_key key = if length key == 32 then pure tt else throw deserialisation_exception

unfoldable pub from_encrypted : Reader Encrypted
from_encrypted = do
  algo ← from_algo
  mode ← from_chaining_mode
  key_length ← from_key_length
  tag ← from_u8
  _ ← check_tag tag
  key ← from_string
  _ ← check_key key
  pure (record { algo = algo; mode = mode; key_length = key_length; key_identification = key })

unfoldable pub from_encrypt_info : Reader EncryptInfo
from_encrypt_info = do
  type ← from_u8
  if type == 1
      then pure no_encryption
      else if type == 2
      then (do awk ← from_encrypted; pure (encrypted awk))
      else throw deserialisation_exception
