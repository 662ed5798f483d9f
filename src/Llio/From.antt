-- ===== src/Llio/From.antt =====
-- The `from` functions of cpp/src/lib/llio.cc. Loads are of a little-endian machine; an int32_t and a
-- double are their bit patterns.
use alba.Base.{
  ℕ, zero, suc, ◌+◌, ◌*◌, ◌%◌, ◌^◌, List, [], ◌∷◌, Bool, true, false, Option, none, some, replicate,
  leb, ltb, ◌==◌, if◌then◌else◌, u64, le_value,
}
use alba.Llio.Reader.{
  Reader, deserialisation_exception, bad_shift, out_of_fuel, pure, throw, halt, noexcept, ◌>>=◌,
  ◌>>◌, current, skips,
}

unfoldable pub from_u8 : Reader ℕ
from_u8 = do ib ← current 1; skips 1; pure (le_value ib)

unfoldable pub from_u32 : Reader ℕ
from_u32 = do ib ← current 4; skips 4; pure (le_value ib)

unfoldable pub from_i32 : Reader ℕ
from_i32 = do ib ← current 4; skips 4; pure (le_value ib)

unfoldable pub from_u64 : Reader ℕ
from_u64 = do ib ← current 8; skips 8; pure (le_value ib)

unfoldable pub from_double : Reader ℕ
from_double = do ib ← current 8; skips 8; pure (le_value ib)

-- The `switch (c)` of `from(message &, bool &)`.
unfoldable pub bool_of : ℕ → Reader Bool
bool_of c =
    if c == 1 then pure true else if c == 0 then pure false else throw deserialisation_exception

unfoldable pub from_bool : Reader Bool
from_bool = do ib ← current 1; b ← bool_of (le_value ib); skips 1; pure b

unfoldable pub from_string : Reader (List ℕ)
from_string = do size ← from_u32; ib ← current size; skips size; pure ib

-- The loop of `from(message &, varint_t &)`, with `b0`, `r` and `shift`. A shift by 64 or more is
-- undefined in C++: there the model stops, so eleven rounds are enough, and the code may go on.
unfoldable pub from_varint_loop : ℕ → ℕ → ℕ → ℕ → Reader ℕ
from_varint_loop zero b0 r shift = halt out_of_fuel
from_varint_loop (suc fuel) b0 r shift =
    let next : Reader ℕ = do
      b1 ← from_u8
      from_varint_loop fuel b1 ((r + b0 % 128 * 2 ^ shift) % u64) (shift + 7)
    in if leb 64 shift
      then halt bad_shift
      else if ltb b0 128
      then pure ((r + b0 * 2 ^ shift) % u64)
      else next

unfoldable pub from_varint : Reader ℕ
from_varint = do b0 ← from_u8; from_varint_loop 11 b0 0 0

module _ {ℓ} {A : Type ℓ} where
  -- `for (int32_t i = size - 1; i >= 0; --i)`: the elements come last first. `ts` holds those that
  -- were read.
  unfoldable pub from_elements_loop : ℕ → Reader A → List A → Reader (List A)
  from_elements_loop zero elem ts = pure ts
  from_elements_loop (suc n) elem ts = do t ← elem; from_elements_loop n elem (t ∷ ts)

  -- A size above 2 ^ 31 makes the counter negative: nothing is read, and the elements stay as
  -- `resize` made them.
  unfoldable pub from_elements : A → Reader A → Reader (List A)
  from_elements initial elem = do
    size ← from_u32
    if leb size (2 ^ 31) then from_elements_loop size elem [] else pure (replicate size initial)

  unfoldable pub from_vector : A → Reader A → Reader (List A)
  from_vector initial elem = noexcept (from_elements initial elem)

  unfoldable pub from_option : Reader A → Reader (Option A)
  from_option elem =
      noexcept (do d ← from_bool; if d then (do x ← elem; pure (some x)) else pure none)

module _ {ℓ κ} {A : Type ℓ} {B : Type κ} where
  unfoldable pub from_pair : Reader A → Reader B → Reader (A × B)
  from_pair first second = noexcept (do x ← first; y ← second; pure (x, y))
