-- ===== src/Common.antt =====
-- `x_uint64_t` of cpp/include/alba_common.h and cpp/src/lib/alba_common.cc, the number behind `osd_t`
-- and `namespace_t`: four bytes, or a mark and eight bytes.
use alba.Base.{
  ℕ, ◌<◌, List, ◌++◌, ltb, if◌then◌else◌, Bool-cases, inl, inr, u32, u64, le_bytes, arith, ltb→lt,
  reverse,
}
use alba.Llio.Reader.{Reader, pure, ◌>>=◌}
use alba.Llio.Reads.{Reads, Reads-bind, Reads-bind_nil, Reads-pure}
use alba.Llio.From.{from_u32, from_u64}
use alba.Llio.RoundTrip.{Reads-from_u32, Reads-from_u64}
use alba.Llio.Safety.{Sound, Sound-bind, Sound-pure}
use alba.Llio.SafeFrom.{Below, Sound-from_u32, Sound-from_u64}
use alba.Llio.Builder.{Writer, ◌>>◌, Writes, Writes-then}
use alba.Llio.To.{to_be_u32, to_be_u64}
use alba.Llio.Writing.{Writes-to_be_u32, Writes-to_be_u64}

abbrev pub max_int32 : ℕ
max_int32 = 2147483647

unfoldable pub from_x_uint64 : Reader ℕ
from_x_uint64 = do i32 ← from_u32; if ltb i32 max_int32 then pure i32 else from_u64

unfoldable pub to_be_x_uint64 : ℕ → Writer
to_be_x_uint64 i = if ltb i max_int32 then to_be_u32 i else to_be_u32 max_int32 >> to_be_u64 i

-- The format: four bytes below the mark, the mark and eight bytes from there on.
unfoldable pub x_uint64_bytes : ℕ → List ℕ
x_uint64_bytes i = if ltb i max_int32 then le_bytes 4 i else le_bytes 4 max_int32 ++ le_bytes 8 i

-- A number below 2^64 is read back from either of its forms, whatever follows.
pub Reads-from_x_uint64 : (i : ℕ) → i < u64 → Reads from_x_uint64 (x_uint64_bytes i) i
unfolding from_x_uint64 x_uint64_bytes
Reads-from_x_uint64 i h = elim (Bool-cases (ltb i max_int32)) [
  | inl short ↦ rw short (
      Reads-bind_nil _ i (Reads-from_u32 i (omega (arith, ltb→lt i max_int32 short)))
        (rw short (Reads-pure i)))
  | inr long ↦ rw long (Reads-bind _ (Reads-from_u32 max_int32 (omega arith)) (Reads-from_u64 i h))
]

pub Sound-from_x_uint64 : Sound (Below u64) from_x_uint64
unfolding from_x_uint64
Sound-from_x_uint64 = Sound-bind (Below u32) _ Sound-from_u32 λ i32 h.
    elim (Bool-cases (ltb i32 max_int32)) [
      | inl short ↦ rw short (Sound-pure i32 (omega arith))
      | inr long ↦ rw long Sound-from_u64
    ]

-- The big-endian form that keys are made of: it sorts as the number does.
unfoldable pub be_x_uint64_bytes : ℕ → List ℕ
be_x_uint64_bytes i =
    if ltb i max_int32
    then reverse (le_bytes 4 i)
    else reverse (le_bytes 4 max_int32) ++ reverse (le_bytes 8 i)

-- A number is written most significant byte first, in four bytes or behind a mark in eight.
pub Writes-to_be_x_uint64 : (i : ℕ) → Writes (to_be_x_uint64 i) (be_x_uint64_bytes i)
unfolding to_be_x_uint64 be_x_uint64_bytes
Writes-to_be_x_uint64 i = elim (Bool-cases (ltb i max_int32)) [
  | inl short ↦ rw short (Writes-to_be_u32 i)
  | inr long ↦ rw long (Writes-then (Writes-to_be_u32 max_int32) (Writes-to_be_u64 i))
]
