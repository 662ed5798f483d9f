-- ===== src/Runs/Crcs.antt =====
-- A processor with the instructions, and the CRC of "123456789".
use Prim.Native.Nat.{bit_xor}
use alba.Base.{
  ◌↔◌, ◌<◌, ℕ, zero, suc, ◌+◌, ◌*◌, ◌/◌, ◌%◌, ◌≡◌, refl, ap, List, [], ◌∷◌, true, false, some, none,
  length, All, IsByte, le_bytes, le_value, arith,
}
use alba.Crc.{Sse42, crc32c_sse42_byte, crc32c_soft, crc32c_generic, part_of, crc32c_string}
use alba.Crc.Agree.{divide, IsCrc32, crc32c_string-agrees}

abbrev byte_step : ℕ → ℕ → ℕ
byte_step crc b = bit_xor (divide 8 (bit_xor crc b % 256)) (crc / 256)

byte_steps : ℕ → List ℕ → ℕ
byte_steps crc [] = crc
byte_steps crc (b ∷ bs) = byte_steps (byte_step crc b) bs

abbrev xeon : Sse42
xeon = record { crc32b = byte_step; crc32q = λ crc w. byte_steps crc (le_bytes 8 w) }

le_bytes-le_value :
    (n : ℕ) (bytes : List ℕ)
    → length bytes ≡ n
    → All IsByte bytes
    → le_bytes n (le_value bytes) ≡ bytes
unfolding le_bytes le_value
le_bytes-le_value zero [] e h = refl
le_bytes-le_value zero (b ∷ bs) e h = absurd (omega (arith, e))
le_bytes-le_value (suc n) [] e h = absurd (omega (arith, e))
le_bytes-le_value (suc n) (b ∷ bs) e (hb, h) =
    let low : (b + 256 * le_value bs) % 256 ≡ b = omega (arith, hb) in
    let high : (b + 256 * le_value bs) / 256 ≡ le_value bs = omega (arith, hb) in
    rw (low, high) (ap (◌∷◌ b) (le_bytes-le_value n bs (omega (arith, e)) h))

byte_steps-sse42 : (crc : ℕ) (bs : List ℕ) → byte_steps crc bs ≡ crc32c_sse42_byte xeon crc bs
unfolding byte_steps crc32c_sse42_byte
byte_steps-sse42 crc [] = refl
byte_steps-sse42 crc (b ∷ bs) = byte_steps-sse42 (byte_step crc b) bs

xeon-IsCrc32 : IsCrc32 xeon
xeon-IsCrc32 = record {
  crc32b-divide = λ crc b. refl;
  crc32q-bytes = λ crc bytes e h. rw (le_bytes-le_value 8 bytes e h) (byte_steps-sse42 crc bytes);
}

abbrev digits : List ℕ
digits = 49 ∷ 50 ∷ 51 ∷ 52 ∷ 53 ∷ 54 ∷ 55 ∷ 56 ∷ 57 ∷ []

digits-IsByte : All IsByte digits
digits-IsByte = (
  omega arith,
  (
    omega arith,
    (
      omega arith,
      (omega arith, (omega arith, (omega arith, (omega arith, (omega arith, (omega arith, tt)))))),
    ),
  ),
)

known_crc : crc32c_string xeon false 0xFFFFFFFF digits 0 9 true ≡ some 0xE3069283
unfolding crc32c_string crc32c_soft crc32c_generic part_of
known_crc = refl

crc32c_string-agrees_example :
    (crc32c_string xeon true 0xFFFFFFFF digits 0 9 true
      ≡ crc32c_string xeon false 0xFFFFFFFF digits 0 9 true)
    × ((crc32c_string xeon true 0xFFFFFFFF digits 0 9 true ≡ none) ↔ ((0 < 9) × (9 < 9)))
crc32c_string-agrees_example =
    crc32c_string-agrees xeon xeon-IsCrc32 0xFFFFFFFF digits 0 9 true digits-IsByte
