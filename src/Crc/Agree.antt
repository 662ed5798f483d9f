-- ===== src/Crc/Agree.antt =====
-- About the two ways to a CRC, by the table and by the instructions.
use Prim.Native.Nat.{bit_xor}
use mathlib.Core.Option.{none-ne-some}
use alba.Base.{
  ◌+◌, leb, le_of_leb, lt_of_leb-false, ◌⊎◌, ◌↔◌, ℕ, zero, suc, ◌-◌, ◌*◌, ◌/◌, ◌%◌, ◌≤◌, ◌<◌, ◌≡◌,
  ◌≢◌, refl, sym, ap, ◌∙◌, List, [], ◌∷◌, ◌++◌, Bool, true, false, ◌&&◌, Bool-cases, Option, some,
  none, length, length-take, length-drop, get_elem?, take, drop, take-append-drop, All, All-take,
  All-drop, IsByte, le_value, ◌==◌, ==_iff, ==_false, take-length, inl, inr, if◌then◌else◌, arith,
}
use alba.Base.Options.{◌>>=◌}
use alba.Crc.{
  Sse42, crc32_table, crc32c_soft, crc32c_sse42_byte, crc32c_words, crc32c_sse42, crc32c_generic,
  part_of, crc32c_string, crc32c_bigarray,
}

-- The division by the polynomial, bit by bit, least significant first.
unfoldable pub divide : ℕ → ℕ → ℕ
divide zero x = x
divide (suc k) x = divide k (if x % 2 == 1 then bit_xor (x / 2) 0x82F63B78 else x / 2)

-- What the instructions are documented to do: a byte is divided by the polynomial, and eight bytes are
-- divided one behind the other.
pub record IsCrc32 (C : Sse42) : Type 0 where
  pub crc32b-divide :
      (crc b : ℕ) → C.crc32b crc b ≡ bit_xor (divide 8 (bit_xor crc b % 256)) (crc / 256)
  pub crc32q-bytes :
      (crc : ℕ) (bytes : List ℕ)
      → length bytes ≡ 8
      → All IsByte bytes
      → C.crc32q crc (le_value bytes) ≡ crc32c_sse42_byte C crc bytes

entry_matches : ℕ → Option ℕ → Bool
entry_matches i none = false
entry_matches i (some e) = e == divide 8 i

entries_match : ℕ → Bool
entries_match zero = true
entries_match (suc n) = entry_matches n (get_elem? crc32_table n) && entries_match n

every_entry : entries_match 256 ≡ true
unfolding entries_match entry_matches divide
every_entry = refl

both : (a b : Bool) → (a && b) ≡ true → (a ≡ true) × (b ≡ true)
both true b h = (refl, h)
both false b h = ground arith

entry : (i : ℕ) (o : Option ℕ) → entry_matches i o ≡ true → o ≡ some (divide 8 i)
unfolding entry_matches
entry i none h = ground arith
entry i (some e) h = ap some ((==_iff e (divide 8 i)).0 h)

less : (i n : ℕ) → i < suc n → (i == n) ≡ false → i < n
less i n l b = ground arith

get_elem?-divide :
    (n i : ℕ) → entries_match n ≡ true → i < n → get_elem? crc32_table i ≡ some (divide 8 i)
unfolding entries_match
get_elem?-divide zero i h l = absurd (omega (arith, l))
get_elem?-divide (suc n) i h l =
    let (e, r) = both (entry_matches n (get_elem? crc32_table n)) (entries_match n) h in
    elim (Bool-cases (i == n)) [
      | inl b ↦ rw ((==_iff i n).0 b) (entry n _ e)
      | inr b ↦ get_elem?-divide n i r (less i n l b)
    ]

-- Whether a part lies inside the string.
part_of-cases :
    (buf : List ℕ) (offset len : ℕ)
    → All IsByte buf
    → ((bytes : List ℕ) × ((part_of buf offset len ≡ some bytes)
          × (All IsByte bytes × (((0 < len) × (length buf < offset + len)) → ⊥))))
      ⊎ ((part_of buf offset len ≡ none) × ((0 < len) × (length buf < offset + len)))
unfolding part_of
part_of-cases buf offset zero h = inl ([], (refl, (tt, λ (z, o). omega (arith, z))))
part_of-cases buf offset (suc len) h = elim (Bool-cases (leb (offset + suc len) (length buf))) [
  | inl b ↦ inl (
    take (suc len) (drop offset buf),
    (
      rw b refl,
      (
        All-take IsByte (suc len) (drop offset buf) (All-drop IsByte offset buf h),
        λ (z, o). omega (arith, o, le_of_leb _ _ b),
      ),
    ),
  )
  | inr b ↦ inr (rw b refl, (omega arith, lt_of_leb-false _ _ b))
]

module _ (C : Sse42) (I : IsCrc32 C) where
  crc32c_soft-byte :
      (crc : ℕ) (bs : List ℕ) → crc32c_soft crc bs ≡ some (crc32c_sse42_byte C crc bs)
  unfolding crc32c_soft crc32c_sse42_byte
  crc32c_soft-byte crc [] = refl
  crc32c_soft-byte crc (b ∷ bs) =
      rw
        (
          get_elem?-divide 256 (bit_xor crc b % 256) every_entry (omega arith),
          I.crc32b-divide crc b,
        )
        (crc32c_soft-byte (bit_xor (divide 8 (bit_xor crc b % 256)) (crc / 256)) bs)

  sse42_byte-append :
      (crc : ℕ) (xs ys : List ℕ)
      → crc32c_sse42_byte C crc (xs ++ ys) ≡ crc32c_sse42_byte C (crc32c_sse42_byte C crc xs) ys
  unfolding crc32c_sse42_byte
  sse42_byte-append crc [] ys = refl
  sse42_byte-append crc (x ∷ xs) ys = sse42_byte-append (C.crc32b crc x) xs ys

  abbrev byte_by_byte : ℕ × List ℕ → ℕ
  byte_by_byte (crc, rest) = crc32c_sse42_byte C crc rest

  words-byte :
      (q crc : ℕ) (buf : List ℕ)
      → 8 * q ≤ length buf
      → All IsByte buf
      → (byte_by_byte (crc32c_words C q crc buf) ≡ crc32c_sse42_byte C crc buf)
        × (length (crc32c_words C q crc buf).1 ≡ length buf - 8 * q)
  unfolding crc32c_words
  words-byte zero crc buf l h = (refl, omega arith)
  words-byte (suc q) crc buf l h =
      let word : length (take 8 buf) ≡ 8 = omega (arith, length-take 8 buf, l) in
      let left = length-drop 8 buf in
      let (e, n) =
        words-byte q (C.crc32q crc (le_value (take 8 buf))) (drop 8 buf) (omega (arith, left, l))
          (All-drop IsByte 8 buf h) in
      (
        e
            ∙ ap (λ c. crc32c_sse42_byte C c (drop 8 buf))
                (I.crc32q-bytes crc (take 8 buf) word (All-take IsByte 8 buf h))
            ∙ sym (sse42_byte-append crc (take 8 buf) (drop 8 buf))
            ∙ ap (crc32c_sse42_byte C crc) (take-append-drop 8 buf),
        omega (arith, n, left, l),
      )

  rest-byte :
      (n : ℕ) (r : ℕ × List ℕ)
      → length r.1 ≡ n
      → (if n == 0 then r.0 else crc32c_sse42_byte C r.0 (take n r.1)) ≡ byte_by_byte r
  unfolding crc32c_sse42_byte
  rest-byte zero (crc, []) e = refl
  rest-byte zero (crc, b ∷ bs) e = absurd (omega (arith, e))
  rest-byte (suc n) (crc, rest) e =
      rw (==_false (suc n) 0 (λ z. omega (arith, z)), ← e, take-length rest) refl

  sse42-byte :
      (crc : ℕ) (buf : List ℕ)
      → All IsByte buf
      → crc32c_sse42 C crc buf ≡ crc32c_sse42_byte C crc buf
  unfolding crc32c_sse42
  sse42-byte crc buf h =
      let (e, n) = words-byte (length buf / 8) crc buf (omega arith) h in
      rest-byte (length buf % 8) (crc32c_words C (length buf / 8) crc buf) (omega (arith, n)) ∙ e

  generic-defined :
      (crc : ℕ) (bytes : List ℕ) (final : Bool)
      → (crc32c_generic C true crc bytes >>= λ r. some (if final then bit_xor r 0xFFFFFFFF else r))
        ≢ none
  unfolding crc32c_generic
  generic-defined crc bytes final e = none-ne-some _ (sym e)

  crc32c_generic-agrees :
      (crc : ℕ) (buf : List ℕ)
      → All IsByte buf
      → crc32c_generic C true crc buf ≡ crc32c_generic C false crc buf
  unfolding crc32c_generic
  crc32c_generic-agrees crc buf h = ap some (sse42-byte crc buf h) ∙ sym (crc32c_soft-byte crc buf)

  -- On bytes, the CRC of a part of a string is the same with the instructions and with the table, which
  -- has an entry for every byte; it is undefined exactly where the part reaches past the end.
  pub crc32c_string-agrees :
      (crc : ℕ) (buf : List ℕ) (offset len : ℕ) (final : Bool)
      → All IsByte buf
      → (crc32c_string C true crc buf offset len final
          ≡ crc32c_string C false crc buf offset len final)
        × ((crc32c_string C true crc buf offset len final ≡ none)
            ↔ ((0 < len) × (length buf < offset + len)))
  unfolding crc32c_string
  crc32c_string-agrees crc buf offset len final h = elim (part_of-cases buf offset len h) [
    | inl (bytes, (e, (part, inside))) ↦ rw e (
      ap (λ r. r >>= λ r. some (if final then bit_xor r 0xFFFFFFFF else r))
          (crc32c_generic-agrees crc bytes part),
      (λ z. absurd (generic-defined crc bytes final z), λ o. absurd (inside o)),
    )
    | inr (e, o) ↦ rw e (refl, (λ z. o, λ o. refl))
  ]

  bind_assoc :
      (o : Option (List ℕ)) (g : List ℕ → Option ℕ) (k : ℕ → Option ℕ)
      → ((o >>= g) >>= k) ≡ (o >>= λ x. g x >>= k)
  bind_assoc none g k = refl
  bind_assoc (some x) g k = refl

  generic-nil : (have_sse_4_2 : Bool) (crc : ℕ) → crc32c_generic C have_sse_4_2 crc [] ≡ some crc
  unfolding crc32c_generic crc32c_soft crc32c_sse42 crc32c_words
  generic-nil true crc = refl
  generic-nil false crc = refl

  part_of-zero : (buf : List ℕ) (offset : ℕ) → part_of buf offset 0 ≡ some []
  unfolding part_of
  part_of-zero buf offset = refl

  -- Both entry points give the same.
  crc32c_bigarray-string :
      (have_sse_4_2 : Bool) (crc : ℕ) (buf : List ℕ) (offset len : ℕ) (final : Bool)
      → crc32c_bigarray C have_sse_4_2 crc buf offset len final
        ≡ crc32c_string C have_sse_4_2 crc buf offset len final
  unfolding crc32c_bigarray crc32c_string
  crc32c_bigarray-string h crc buf offset zero final =
      rw (part_of-zero buf offset, generic-nil h crc) refl
  crc32c_bigarray-string h crc buf offset (suc len) final =
      rw (==_false (suc len) 0 (λ z. omega (arith, z)))
        (bind_assoc (part_of buf offset (suc len)) _ _)
