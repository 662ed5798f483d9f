-- ===== src/Llio/Groups.antt =====
-- About the groups of a varint as they come, whether or not a writer would have written them.
use alba.Base.{
  ℕ, zero, suc, ◌+◌, ◌*◌, ◌%◌, ◌^◌, ◌≤◌, ◌<◌, ◌≡◌, refl, List, [], ◌∷◌, ◌++◌, All, length, lt→ltb,
  ltb-false, leb-false, le→leb, u64, le_bytes, arith,
}
use alba.Llio.Message.{Message, Ahead, advance, advance-Ahead}
use alba.Llio.Reader.{halts, bad_shift, pure, halt, ◌>>=◌}
use alba.Llio.Reads.{Reads, Reads-pure, Reads-bind, Reads-bind_nil}
use alba.Llio.From.{from_u8, from_varint_loop, from_varint}
use alba.Llio.RoundTrip.{Reads-from_u8}
use native.Mathlib.Numerals.{towards_suc}

-- A group with the top bit set, behind which another one comes.
abbrev pub IsContinued : ℕ → Type 0
IsContinued c = (128 ≤ c) × (c < 256)

-- Seven bits of each group, lowest first.
abbrev pub groups_value : List ℕ → ℕ → ℕ
groups_value [] last = last
groups_value (c ∷ cs) last = c % 128 + 128 * groups_value cs last

Reads-byte : (b : ℕ) → b < 256 → Reads from_u8 (b ∷ []) b
unfolding le_bytes
Reads-byte b h = let same : b % 256 ≡ b = omega (arith, h) in rw same at (Reads-from_u8 b h)

shifted :
    (c v shift : ℕ) → (c % 128 + 128 * v) * 2 ^ shift ≡ c % 128 * 2 ^ shift + v * 2 ^ (shift + 7)
shifted c v shift =
    let next : 128 * 2 ^ shift ≡ 2 ^ (shift + 7) = simp towards_suc (omega arith) in
    rw (← next) (omega arith)

wrapped :
    (r c v shift : ℕ)
    → ((r + c % 128 * 2 ^ shift) % u64 + v * 2 ^ (shift + 7)) % u64
      ≡ (r + (c % 128 + 128 * v) * 2 ^ shift) % u64
wrapped r c v shift = omega (arith, shifted c v shift)

-- One round over a group that is continued.
continued :
    (fuel c r shift : ℕ)
    → IsContinued c
    → shift ≤ 63
    → from_varint_loop (suc fuel) c r shift
      ≡ (do b1 ← from_u8; from_varint_loop fuel b1 ((r + c % 128 * 2 ^ shift) % u64) (shift + 7))
unfolding from_varint_loop
continued fuel c r shift h l = rw (leb-false 64 shift (omega arith), ltb-false c 128 h.0)

last_round :
    (fuel b r shift : ℕ)
    → b < 128
    → shift ≤ 63
    → from_varint_loop (suc fuel) b r shift ≡ pure ((r + b * 2 ^ shift) % u64)
unfolding from_varint_loop
last_round fuel b r shift h l = rw (leb-false 64 shift (omega arith), lt→ltb b 128 h)

overdue : (fuel b r shift : ℕ) → 64 ≤ shift → from_varint_loop (suc fuel) b r shift ≡ halt bad_shift
unfolding from_varint_loop
overdue fuel b r shift h = rw (le→leb 64 shift h)

Reads-rounds :
    (cs : List ℕ) (last fuel r shift : ℕ)
    → All IsContinued cs
    → last < 128
    → length cs ≤ fuel
    → shift + 7 * length cs ≤ 63
    → Reads
        (do b0 ← from_u8; from_varint_loop (suc fuel) b0 r shift)
        (cs ++ (last ∷ []))
        ((r + groups_value cs last * 2 ^ shift) % u64)
Reads-rounds [] last fuel r shift h l f s =
    Reads-bind_nil (λ b0. from_varint_loop (suc fuel) b0 r shift) _ (Reads-byte last (omega arith))
      (rw (last_round fuel last r shift l (omega arith)) (Reads-pure _))
Reads-rounds (c ∷ cs) last zero r shift h l f s = absurd (omega arith)
Reads-rounds (c ∷ cs) last (suc fuel) r shift (hc, h) l f s =
    rw (← wrapped r c (groups_value cs last) shift) (
      Reads-bind (λ b0. from_varint_loop (suc (suc fuel)) b0 r shift) (Reads-byte c hc.1)
        (rw (continued (suc fuel) c r shift hc (omega arith)) (
          Reads-rounds cs last fuel ((r + c % 128 * 2 ^ shift) % u64) (shift + 7) h l (omega arith)
            (omega arith))))

-- At most ten groups, of which all but the last are continued, are read to their end as the number that
-- they add up to, modulo 2^64: also where a shorter form exists, and where the tenth has more than its
-- one bit.
pub Reads-from_varint_groups :
    (cs : List ℕ) (last : ℕ)
    → All IsContinued cs
    → last < 128
    → length cs ≤ 9
    → Reads from_varint (cs ++ (last ∷ [])) (groups_value cs last % u64)
unfolding from_varint
Reads-from_varint_groups cs last h l n =
    let value : 0 + groups_value cs last * 2 ^ 0 ≡ groups_value cs last = omega arith in
    rw value at (Reads-rounds cs last 10 0 0 h l (omega arith) (omega arith))

-- The round after ten groups that are continued.
halts-rounds :
    (cs : List ℕ) (b fuel r shift : ℕ) (m : Message) (ys : List ℕ)
    → All IsContinued cs
    → b < 256
    → length cs ≤ fuel
    → shift + 7 * length cs ≡ 70
    → Ahead m (cs ++ (b ∷ ys))
    → (do b0 ← from_u8; from_varint_loop (suc fuel) b0 r shift) m ≡ halts bad_shift
unfolding ◌>>=◌ halt
halts-rounds [] b fuel r shift m ys h l f s a =
    rw ((Reads-byte b l).at m ys a, overdue fuel b r shift (omega (arith, s))) refl
halts-rounds (c ∷ cs) b zero r shift m ys h l f s a = absurd (omega arith)
halts-rounds (c ∷ cs) b (suc fuel) r shift m ys (hc, h) l f s a =
    rw
      (
        (Reads-byte c hc.1).at m (cs ++ (b ∷ ys)) a,
        continued (suc fuel) c r shift hc (omega (arith, s)),
      )
      (halts-rounds cs b fuel ((r + c % 128 * 2 ^ shift) % u64) (shift + 7) (advance 1 m) ys h l
        (omega (arith, f)) (omega (arith, s)) (advance-Ahead (c ∷ []) (cs ++ (b ∷ ys)) a))

-- Ten groups that are all continued make the next round shift by 70, which is undefined.
pub halts-from_varint :
    (cs : List ℕ) (b : ℕ) (m : Message) (ys : List ℕ)
    → All IsContinued cs
    → length cs ≡ 10
    → b < 256
    → Ahead m (cs ++ (b ∷ ys))
    → from_varint m ≡ halts bad_shift
unfolding from_varint
halts-from_varint cs b m ys h n l a =
    halts-rounds cs b 10 0 0 m ys h l (omega (arith, n)) (omega (arith, n)) a
