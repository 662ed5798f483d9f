-- ===== src/Encryption/Blocks.antt =====
-- The counter of a block, as 16 bytes with the most significant byte first, moved on by some blocks.
use alba.Base.{
  ℕ, ◌+◌, ◌-◌, ◌/◌, ◌%◌, ◌^◌, ◌<◌, ◌≡◌, refl, ap, ◌∙◌, List, [], ◌++◌, some, reverse,
  reverse-reverse, length, length-append, length-reverse, length-le_bytes, append-nil, u64,
  le_bytes, le_value-le_bytes, le_value-lt, le_bytes-IsByte, All-reverse, IsByte, ltb, Bool-cases,
  inl, inr, ltb→lt, le_of_ltb-false, arith,
}
use alba.Llio.Message.{Message, message, message-Ahead, from_string}
use alba.Llio.Reader.{ok}
use alba.Llio.Reads.{Reads, Reads-bind, Reads-last}
use alba.Llio.RoundTrip.{Reads-from_u64}
use alba.Llio.To.{swap_u64, to_be_u64}
use alba.Llio.Builder.{
  Builder, ◌>>◌, message_builder, message_builder-IsValid, as_string_no_size, Writes-then,
}
use alba.Llio.Writing.{swap_u64-value, swap_u64-bytes, Writes-to_be_u64}
use alba.Encryption.Counter.{from_be, read_ctr, add_blocks, write_ctr, with_offset}

abbrev pub words : ℕ → ℕ × ℕ
words c = (c / 2 ^ 64, c % 2 ^ 64)

unfoldable pub words_bytes : ℕ × ℕ → List ℕ
words_bytes (high, low) = reverse (le_bytes 8 high) ++ reverse (le_bytes 8 low)

unfoldable pub counter_bytes : ℕ → List ℕ
counter_bytes c = words_bytes (words c)

swap_u64-lt : (i : ℕ) → swap_u64 i < u64
swap_u64-lt i =
    let h = le_value-lt (reverse (le_bytes 8 i)) (All-reverse IsByte _ (le_bytes-IsByte 8 i)) in
    let n : length (reverse (le_bytes 8 i)) ≡ 8 =
      length-reverse (le_bytes 8 i) ∙ length-le_bytes 8 i in
    rw (swap_u64-value i) (rw n at h)

swap_u64-swap : (i : ℕ) → i < u64 → swap_u64 (swap_u64 i) ≡ i
swap_u64-swap i h =
    rw (swap_u64-value (swap_u64 i), swap_u64-bytes i, reverse-reverse (le_bytes 8 i))
      (le_value-le_bytes 8 i (omega (arith, h)))

Reads-from_be : (i : ℕ) → i < u64 → Reads from_be (reverse (le_bytes 8 i)) i
unfolding from_be
Reads-from_be i h =
    rw (swap_u64-swap i h, swap_u64-bytes i) at
      (Reads-last swap_u64 (Reads-from_u64 (swap_u64 i) (swap_u64-lt i)))

Reads-read_ctr :
    (high low : ℕ) → high < u64 → low < u64 → Reads read_ctr (words_bytes (high, low)) (high, low)
unfolding read_ctr words_bytes
Reads-read_ctr high low h l =
    Reads-bind _ (Reads-from_be high h) (Reads-last (λ x. (high, x)) (Reads-from_be low l))

pub length-words : (w : ℕ × ℕ) → length (words_bytes w) ≡ 16
unfolding words_bytes
length-words (high, low) = omega (
  arith,
  length-append (reverse (le_bytes 8 high)) (reverse (le_bytes 8 low)),
  length-reverse (le_bytes 8 high),
  length-reverse (le_bytes 8 low),
  length-le_bytes 8 high,
  length-le_bytes 8 low,
)

written :
    (high low : ℕ) (mb : Builder)
    → (to_be_u64 high >> to_be_u64 low) message_builder ≡ some mb
    → mb.written ≡ message_builder.written ++ words_bytes (high, low)
    → write_ctr (high, low) ≡ some (words_bytes (high, low))
unfolding write_ctr message_builder as_string_no_size
written high low mb e wr = rw (e, write_ctr) (ap some (rw wr refl))

write_ctr_lem : (high low : ℕ) → write_ctr (high, low) ≡ some (words_bytes (high, low))
unfolding words_bytes message_builder
write_ctr_lem high low =
    let (mb, e, wr, v) =
      (Writes-then (Writes-to_be_u64 high) (Writes-to_be_u64 low)).at message_builder
        message_builder-IsValid (omega (arith, length-words (high, low))) in
    written high low mb e wr

add_blocks_lem :
    (c k : ℕ) → c < 2 ^ 128 → k < u64 → add_blocks k (words c) ≡ words ((c + k) % 2 ^ 128)
unfolding add_blocks
add_blocks_lem c k h n = elim (Bool-cases (ltb (u64 - 1 - c % 2 ^ 64) k)) [
  | inl over ↦
      let more = ltb→lt (u64 - 1 - c % 2 ^ 64) k over in
      let high : (c / 2 ^ 64 + 1) % u64 ≡ ((c + k) % 2 ^ 128) / 2 ^ 64 =
        omega (arith, more, h, n) in
      let low : (c % 2 ^ 64 + k) % u64 ≡ ((c + k) % 2 ^ 128) % 2 ^ 64 = omega (arith, more, h, n) in
      rw (over, high, low, add_blocks) refl
  | inr under ↦
      let less = le_of_ltb-false (u64 - 1 - c % 2 ^ 64) k under in
      let high : c / 2 ^ 64 ≡ ((c + k) % 2 ^ 128) / 2 ^ 64 = omega (arith, less, h, n) in
      let low : (c % 2 ^ 64 + k) % u64 ≡ ((c + k) % 2 ^ 128) % 2 ^ 64 = omega (arith, less, h, n) in
      rw (under, high, low, add_blocks) refl
]

read_ctr-words :
    (c : ℕ)
    → c < 2 ^ 128
    → (m : Message) × (read_ctr (message (from_string (counter_bytes c))) ≡ ok (words c) m)
unfolding counter_bytes
read_ctr-words c h =
    let n = length-words (words c) in
    let r = Reads-read_ctr (c / 2 ^ 64) (c % 2 ^ 64) (omega (arith, h)) (omega arith) in
    (
      _,
      r.at _ [] (
          rw (append-nil (words_bytes (words c)))
            (message-Ahead (words_bytes (words c)) (omega (arith, n)))),
    )

-- The bytes of a counter of 128 bits, moved on by fewer than 2^64 blocks, are those of the sum, which
-- wraps at 2^128.
pub with_offset-counter_bytes :
    (c k : ℕ)
    → c < 2 ^ 128
    → k < u64
    → with_offset (counter_bytes c) k ≡ some (counter_bytes ((c + k) % 2 ^ 128))
unfolding with_offset counter_bytes
with_offset-counter_bytes c k h n =
    let (m, e) = read_ctr-words c h in
    rw (e, add_blocks_lem c k h n, with_offset) (write_ctr_lem _ _)
