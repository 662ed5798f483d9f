-- ===== src/Encryption/Counter.antt =====
-- The counter of `Encrypted::partial_decrypt` of cpp/src/lib/encryption.cc: two big-endian words that
-- are moved on by a number of blocks.
use alba.Base.{ℕ, ◌+◌, ◌-◌, ◌%◌, List, Option, none, some, ltb, if◌then◌else◌, u64}
use alba.Llio.Message.{message, from_string}
use alba.Llio.Reader.{Reader, ok, throws, halts, pure, ◌>>=◌}
use alba.Llio.From.{from_u64}
use alba.Llio.To.{swap_u64, to_be_u64}
use alba.Llio.Builder.{message_builder, as_string_no_size, ◌>>◌}

-- The two calls of `from_be`.
unfoldable pub from_be : Reader ℕ
from_be = do i ← from_u64; pure (swap_u64 i)

unfoldable pub read_ctr : Reader (ℕ × ℕ)
read_ctr = do high ← from_be; low ← from_be; pure (high, low)

-- `high2` and `low2`.
unfoldable pub add_blocks : ℕ → ℕ × ℕ → ℕ × ℕ
add_blocks skip_blocks (high, low) =
    let low2 = (low + skip_blocks) % u64 in
    if ltb (u64 - 1 - low) skip_blocks then ((high + 1) % u64, low2) else (high, low2)

unfoldable pub write_ctr : ℕ × ℕ → Option (List ℕ)
write_ctr (high, low) = elim ((to_be_u64 high >> to_be_u64 low) message_builder) [
  | none ↦ none
  | some mb ↦ some (as_string_no_size mb)
]

-- `none` where the process ends.
unfoldable pub with_offset : List ℕ → ℕ → Option (List ℕ)
with_offset ctr skip_blocks = elim (read_ctr (message (from_string ctr))) [
  | ok words m ↦ write_ctr (add_blocks skip_blocks words)
  | throws e m ↦ none
  | halts h ↦ none
]
