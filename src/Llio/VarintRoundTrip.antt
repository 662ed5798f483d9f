-- ===== src/Llio/VarintRoundTrip.antt =====
-- `from(message &, varint_t &)` reads back every uint64 from its groups of seven bits.
use alba.Base.{
  ℕ, zero, suc, ◌+◌, ◌*◌, ◌/◌, ◌%◌, ◌^◌, ◌≤◌, ◌<◌, ◌≡◌, ap, inl, inr, ltb, Bool-cases, ltb→lt,
  lt→ltb, ltb-false, leb-false, u64, le_bytes, arith,
}
use alba.Llio.Reader.{pure, ◌>>=◌}
use alba.Llio.Reads.{Reads, Reads-pure, Reads-bind, Reads-bind_nil}
use alba.Llio.From.{from_u8, from_varint_loop, from_varint}
use alba.Llio.Layout.{varint_groups, varint_bytes}
use alba.Llio.RoundTrip.{Reads-from_u8}
use native.Mathlib.Nat.{div-add-mod}
use native.Mathlib.Numerals.{towards_suc}

-- A shift by one group more, and what the two parts of a number add up to under their shifts.
next_shift : (shift : ℕ) → 128 * 2 ^ shift ≡ 2 ^ (shift + 7)
next_shift shift = simp towards_suc (omega arith)

split_group : (j shift : ℕ) → j / 128 * 2 ^ (shift + 7) + j % 128 * 2 ^ shift ≡ j * 2 ^ shift
split_group j shift =
    let parts = ap (λ n. n * 2 ^ shift) (div-add-mod j 128) in
    rw (← next_shift shift) (omega (arith, parts))

-- The last group, with the top bit clear.
last_group :
    (fuel j r shift : ℕ)
    → j < 128
    → shift ≤ 63
    → r + j * 2 ^ shift < u64
    → from_varint_loop (suc fuel) j r shift ≡ pure (r + j * 2 ^ shift)
unfolding from_varint_loop
last_group fuel j r shift hj hs fits =
    let wrapped : (r + j * 2 ^ shift) % u64 ≡ r + j * 2 ^ shift = omega arith in
    rw (leb-false 64 shift (omega arith), lt→ltb j 128 hj, wrapped)

-- A group with the top bit set: the loop goes on with what it added up.
inner_group :
    (fuel j r shift : ℕ)
    → shift ≤ 63
    → r + j % 128 * 2 ^ shift < u64
    → from_varint_loop (suc fuel) (j % 128 + 128) r shift
      ≡ (do b1 ← from_u8; from_varint_loop fuel b1 (r + j % 128 * 2 ^ shift) (shift + 7))
unfolding from_varint_loop
inner_group fuel j r shift hs fits =
    let low : (j % 128 + 128) % 128 ≡ j % 128 = omega arith in
    let wrapped : (r + j % 128 * 2 ^ shift) % u64 ≡ r + j % 128 * 2 ^ shift = omega arith in
    rw (leb-false 64 shift (omega arith), ltb-false (j % 128 + 128) 128 (omega arith), low, wrapped)

-- A number below 128, whatever the groups that are left.
Reads-last_group :
    (fuel j r shift : ℕ)
    → j < 128
    → shift ≤ 63
    → r + j * 2 ^ shift < u64
    → Reads
        (do b0 ← from_u8; from_varint_loop (suc fuel) b0 r shift)
        (le_bytes 1 j)
        (r + j * 2 ^ shift)
Reads-last_group fuel j r shift hj hs fits =
    Reads-bind_nil (λ b0. from_varint_loop (suc fuel) b0 r shift) (r + j * 2 ^ shift)
      (Reads-from_u8 j (omega arith))
      (rw (last_group fuel j r shift hj hs fits) (Reads-pure (r + j * 2 ^ shift)))

Reads-groups :
    (k fuel j r shift : ℕ)
    → j < 128 ^ suc k
    → k ≤ fuel
    → shift + 7 * k ≤ 63
    → r + j * 2 ^ shift < u64
    → Reads
        (do b0 ← from_u8; from_varint_loop (suc fuel) b0 r shift)
        (varint_groups k j)
        (r + j * 2 ^ shift)
unfolding varint_groups
Reads-groups zero fuel j r shift hj hk hs fits =
    Reads-last_group fuel j r shift (omega arith) (omega arith) fits
Reads-groups (suc k) zero j r shift hj hk hs fits = absurd (omega arith)
Reads-groups (suc k) (suc fuel) j r shift hj hk hs fits = elim (Bool-cases (ltb j 128)) [
  | inl small ↦
      rw small (Reads-last_group (suc fuel) j r shift (ltb→lt j 128 small) (omega arith) fits)
  | inr big ↦
      let whole : r + j * 2 ^ shift ≡ r + j % 128 * 2 ^ shift + j / 128 * 2 ^ (shift + 7) =
        omega (arith, split_group j shift) in
      rw (big, whole)
        (Reads-bind _ (Reads-from_u8 (j % 128 + 128) (omega arith)) (
          rw (inner_group (suc fuel) j r shift (omega arith) (omega (arith, split_group j shift))) (
            Reads-groups k fuel (j / 128) (r + j % 128 * 2 ^ shift) (shift + 7) (omega arith)
              (omega arith) (omega arith) (omega (arith, split_group j shift)))))
]

-- A number below 2^64 is read back from its groups of seven bits, whatever follows them.
pub Reads-from_varint : (j : ℕ) → j < u64 → Reads from_varint (varint_bytes j) j
unfolding from_varint varint_bytes
Reads-from_varint j h =
    let value : 0 + j * 2 ^ 0 ≡ j = omega arith in
    rw value at (Reads-groups 9 10 j 0 0 (omega arith) (omega arith) (omega arith) (omega arith))
