-- ===== src/Manifest/Fragments.antt =====
-- `fragment_location_t` and `Fragment` of cpp/include/manifest.h, and their readers in
-- cpp/src/lib/manifest.cc.
use alba.Base.{
  ℕ, ◌+◌, ◌-◌, ◌%◌, ◌^◌, List, [], ◌∷◌, Bool, Option, none, some, leb, ltb, ◌==◌, ◌&&◌,
  if◌then◌else◌, u32,
}
use alba.Llio.Reader.{
  Reader, deserialisation_exception, length_error, throw, pure, ◌>>=◌, ◌>>◌, reading, current,
  skips, tell, get_nested_message,
}
use alba.Llio.From.{from_u8, from_u32, from_bool, from_varint, from_option, from_pair}
use alba.Common.{from_x_uint64}
use alba.Checksum.{Checksum, no_checksum, from_checksum}

-- The osd, if there is one, and the version.
abbrev pub Location : Type 0
Location = Option ℕ × ℕ

unfoldable pub from_location : Reader Location
from_location = from_pair (from_option from_x_uint64) from_u32

pub record Fragment : Type 0 where
  pub loc : Location
  pub crc : Checksum
  pub len : ℕ
  pub ctr : Option (List ℕ)
  pub fnr : Option (List ℕ)

-- Stands for the null pointer that `resize` puts in a vector.
abbrev pub null_fragment : Fragment
null_fragment = record { loc = (none, 0); crc = no_checksum; len = 0; ctr = none; fnr = none }

-- `_small_string_from`: the size is converted to int, and `resize` of a negative one throws.
unfoldable pub small_string_from : Reader (List ℕ)
small_string_from = do
  v ← from_varint
  let size = v % u32
  if leb (2 ^ 31) size then throw length_error else (do ib ← current size; skips size; pure ib)

-- `int size_left = m.get_pos() - m2.get_pos()` and the test on it.
unfoldable pub is_left : ℕ → ℕ → Bool
is_left end pos =
    let size_left = (end + u32 - pos) % u32 in ltb 0 size_left && ltb size_left (2 ^ 31)

-- A trailing member that older writers leave out.
unfoldable pub from_trailing : ℕ → Reader (Option (List ℕ))
from_trailing end = do
  pos ← tell
  if is_left end pos
      then (do
        has ← from_bool
        if has then (do s ← small_string_from; pure (some s)) else pure none)
      else pure none

-- The guard on a version or tag byte that has to be 1.
unfoldable pub expect_one : Reader (Unit {0})
expect_one = do version ← from_u8; if version == 1 then pure tt else throw deserialisation_exception

-- What is read from the nested message `m2`; `end` is the position of `m`, behind it.
unfoldable pub from_fragment_body : ℕ → Reader Fragment
from_fragment_body end = do
  _ ← expect_one
  loc ← from_location
  crc ← from_checksum
  len ← from_u32
  ctr ← from_trailing end
  fnr ← from_trailing end
  pure (record { loc = loc; crc = crc; len = len; ctr = ctr; fnr = fnr })

-- The size is converted to uint32_t by `get_nested_message`, and to int by `skip`.
unfoldable pub from_fragment : Reader Fragment
from_fragment = do
  size ← from_varint
  m2 ← get_nested_message (size % u32)
  skips size
  end ← tell
  reading m2 (from_fragment_body end)

abbrev pub tail {ℓ} : {A : Type ℓ} → List A → List A
tail [] = []
tail (x ∷ xs) = xs
