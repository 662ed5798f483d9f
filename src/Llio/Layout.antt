-- ===== src/Llio/Layout.antt =====
-- The bytes that stand for a value of a basic type: an account of the format that does not follow
-- the code.
use alba.Base.{
  ℕ, zero, suc, ◌+◌, ◌/◌, ◌%◌, List, [], ◌∷◌, ◌++◌, Bool, true, false, Option, none, some, length,
  ltb, reverse, if◌then◌else◌, le_bytes,
}

unfoldable pub bool_bytes : Bool → List ℕ
bool_bytes true = le_bytes 1 1
bool_bytes false = le_bytes 1 0

unfoldable pub string_bytes : List ℕ → List ℕ
string_bytes s = le_bytes 4 (length s) ++ s

-- Groups of seven bits, lowest first, for a number below 128 ^ (k + 1).
unfoldable pub varint_groups : ℕ → ℕ → List ℕ
varint_groups zero j = le_bytes 1 j
varint_groups (suc k) j =
    let rest = varint_groups k (j / 128) in
    if ltb j 128 then le_bytes 1 j else le_bytes 1 (j % 128 + 128) ++ rest

unfoldable pub varint_bytes : ℕ → List ℕ
varint_bytes = varint_groups 9

module _ {ℓ} {A : Type ℓ} (bytes : A → List ℕ) where
  unfoldable pub concat_bytes : List A → List ℕ
  concat_bytes [] = []
  concat_bytes (t ∷ ts) = bytes t ++ concat_bytes ts

  -- The elements come last first.
  unfoldable pub vector_bytes : List A → List ℕ
  vector_bytes ts = le_bytes 4 (length ts) ++ concat_bytes (reverse ts)

  unfoldable pub option_bytes : Option A → List ℕ
  option_bytes none = bool_bytes false
  option_bytes (some a) = bool_bytes true ++ bytes a
