-- ===== src/Base/Words.antt =====
-- Machine words as native numbers, and their bytes, least significant first.
use Prim.Native.Nat.{ℕ, zero, suc, ◌+◌, ◌-◌, ◌*◌, ◌/◌, ◌%◌, ◌^◌, ◌<◌}
use mathlib.Core.Path.{◌≡◌, refl, ap}
use mathlib.Core.List.{List, [], ◌∷◌}
use native.Mathlib.Omega.{arith}
use alba.Base.Tests.{ltb, if◌then◌else◌}
use alba.Base.Lists.{length, All}

abbrev pub u8 : ℕ
u8 = 2 ^ 8

abbrev pub u32 : ℕ
u32 = 2 ^ 32

abbrev pub u64 : ℕ
u64 = 2 ^ 64

abbrev pub IsByte : ℕ → Type 0
IsByte b = b < 256

-- The first `k` bytes of `n`, as a store of a `k`-byte word puts them in memory on x86.
unfoldable pub le_bytes : ℕ → ℕ → List ℕ
le_bytes zero n = []
le_bytes (suc k) n = (n % 256) ∷ le_bytes k (n / 256)

-- The number that a load of those bytes gives.
unfoldable pub le_value : List ℕ → ℕ
le_value [] = 0
le_value (b ∷ bs) = b + 256 * le_value bs

pub length-le_bytes : (k n : ℕ) → length (le_bytes k n) ≡ k
unfolding le_bytes
length-le_bytes zero n = refl
length-le_bytes (suc k) n = ap suc (length-le_bytes k (n / 256))

pub le_bytes-IsByte : (k n : ℕ) → All IsByte (le_bytes k n)
unfolding le_bytes
le_bytes-IsByte zero n = tt
le_bytes-IsByte (suc k) n = (omega arith, le_bytes-IsByte k (n / 256))

pub le_value-le_bytes : (k n : ℕ) → n < 256 ^ k → le_value (le_bytes k n) ≡ n
unfolding le_bytes le_value
le_value-le_bytes zero n h = omega arith
le_value-le_bytes (suc k) n h =
    let p : 256 ^ suc k ≡ 256 * 256 ^ k = omega arith in
    omega (arith, le_value-le_bytes k (n / 256) (omega arith))

pub le_bytes-le_value : (bs : List ℕ) → All IsByte bs → le_bytes (length bs) (le_value bs) ≡ bs
unfolding le_bytes le_value
le_bytes-le_value [] h = refl
le_bytes-le_value (b ∷ bs) (hb, h) =
    let low : (b + 256 * le_value bs) % 256 ≡ b = omega arith in
    let high : (b + 256 * le_value bs) / 256 ≡ le_value bs = omega arith in
    rw (low, high, le_bytes-le_value bs h)

pub le_value-lt : (bs : List ℕ) → All IsByte bs → le_value bs < 256 ^ length bs
unfolding le_value
le_value-lt [] h = omega arith
le_value-lt (b ∷ bs) (hb, h) =
    let p : 256 ^ suc (length bs) ≡ 256 * 256 ^ length bs = omega arith in
    rw p (omega (arith, le_value-lt bs h))

-- The int that a 32-bit pattern converts to, extended to 64 bits.
unfoldable pub sign_extend : ℕ → ℕ
sign_extend n = let w = n % u32 in if ltb w (2 ^ 31) then w else w + (u64 - u32)

pub sign_extend_small : (n : ℕ) → n < 2 ^ 31 → sign_extend n ≡ n
unfolding sign_extend
sign_extend_small n h = ground arith
