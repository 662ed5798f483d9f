-- ===== src/Llio/To.antt =====
-- The `to` functions of cpp/src/lib/llio.cc and cpp/include/llio.h. Stores are of a little-endian
-- machine; a double is its bit pattern.
use alba.Base.{
  ℕ, zero, suc, ◌+◌, ◌*◌, ◌/◌, ◌%◌, ◌^◌, List, [], ◌∷◌, Bool, true, false, Option, none, some,
  length, take, ltb, if◌then◌else◌, reverse, u32, le_bytes,
}
use alba.Llio.Builder.{Writer, done, ◌>>◌, add_raw}

unfoldable pub to_bool : Bool → Writer
to_bool b = add_raw (le_bytes 1 (if b then 1 else 0))

unfoldable pub to_u32 : ℕ → Writer
to_u32 i = add_raw (le_bytes 4 i)

unfoldable pub to_u64 : ℕ → Writer
to_u64 i = add_raw (le_bytes 8 i)

unfoldable pub to_double : ℕ → Writer
to_double d = add_raw (le_bytes 8 d)

-- `res` of the two functions `to_be`: each `&` keeps one byte, and the terms of the `|` share no bit,
-- so they add up.
unfoldable pub swap_u32 : ℕ → ℕ
swap_u32 i =
    i / 2 ^ 24 % 256 + i / 2 ^ 16 % 256 * 2 ^ 8 + i / 2 ^ 8 % 256 * 2 ^ 16 + i % 256 * 2 ^ 24

unfoldable pub to_be_u32 : ℕ → Writer
to_be_u32 i = to_u32 (swap_u32 i)

unfoldable pub swap_u64 : ℕ → ℕ
swap_u64 i =
    i / 2 ^ 56 % 256
    + i / 2 ^ 48 % 256 * 2 ^ 8
    + i / 2 ^ 40 % 256 * 2 ^ 16
    + i / 2 ^ 32 % 256 * 2 ^ 24
    + i / 2 ^ 24 % 256 * 2 ^ 32
    + i / 2 ^ 16 % 256 * 2 ^ 40
    + i / 2 ^ 8 % 256 * 2 ^ 48
    + i % 256 * 2 ^ 56

unfoldable pub to_be_u64 : ℕ → Writer
to_be_u64 i = to_u64 (swap_u64 i)

-- The size is converted to uint32_t.
unfoldable pub to_string : List ℕ → Writer
to_string s = let size = length s % u32 in to_u32 size >> add_raw (take size s)

-- The `while` of `to(message_builder &, const varint_t &)`; a uint64 has at most ten groups, and
-- `none` stands for one more.
unfoldable pub to_varint_loop : ℕ → ℕ → Writer
to_varint_loop zero j = λ mb. none
to_varint_loop (suc fuel) j =
    let more : Writer = add_raw (le_bytes 1 (j % 128 + 128)) >> to_varint_loop fuel (j / 128) in
    if ltb j 128 then add_raw (le_bytes 1 (j % 128)) else more

unfoldable pub to_varint : ℕ → Writer
to_varint = to_varint_loop 10

module _ {ℓ} {A : Type ℓ} (elem : A → Writer) where
  -- The loop from `rbegin` to `rend`, over the elements last first.
  unfoldable pub to_elements : List A → Writer
  to_elements [] = done
  to_elements (t ∷ ts) = elem t >> to_elements ts

  unfoldable pub to_vector : List A → Writer
  to_vector ts = to_u32 (length ts % u32) >> to_elements (reverse ts)

  unfoldable pub to_option : Option A → Writer
  to_option none = to_bool false
  to_option (some x) = to_bool true >> elem x

unfoldable pub to_pair {ℓ κ} :
    {A : Type ℓ} {B : Type κ} → (A → Writer) → (B → Writer) → A × B → Writer
to_pair first second (x, y) = first x >> second y
