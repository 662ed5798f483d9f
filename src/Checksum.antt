-- ===== src/Checksum.antt =====
-- cpp/include/checksum.h and cpp/src/lib/checksum.cc.
use alba.Base.{
  ℕ, ◌<◌, ◌≡◌, refl, sym, subst, ap, List, [], ◌++◌, Bool, true, false, none, ◌==◌, leb, le→leb,
  length, take, if◌then◌else◌, string_eq, string_eq_iff, ==_iff, u32, le_bytes, arith, inl, inr,
  Bool-cases, ◌↔◌, take-length-append, append-nil,
}
use alba.Llio.Reader.{Reader, thrown, throw, pure, ◌>>=◌}
use alba.Llio.Reads.{Reads, Reads-bind, Reads-bind_nil, Reads-last, Reads-pure}
use alba.Llio.From.{from_u8, from_u32, from_string}
use alba.Llio.Layout.{string_bytes}
use alba.Llio.RoundTrip.{Reads-from_u8, Reads-from_u32, Reads-from_string}
use alba.Llio.Safety.{Sound, Any, Sound-bind, Sound-pure, Sound-throw}
use alba.Llio.SafeFrom.{Below, Sound-from_u8, Sound-from_u32, Sound-from_string}
use alba.Llio.Builder
use alba.Llio.Builder.{Writer, add_raw, add_type, Writes, Writes-then, Writes-add_raw}
use alba.Llio.To.{to_u32}
use alba.Llio.Writing.{Writes-to_u32}

-- The classes NoChecksum, Sha1 and Crc32c.
pub data Checksum : Type 0 where
  no_checksum : Checksum
  sha1 : List ℕ → Checksum
  crc32c : ℕ → Checksum

pub data Algo : Type 0 where
  no_checksum_algo sha1_algo crc32c_algo : Algo

unfoldable pub get_algo : Checksum → Algo
get_algo no_checksum = no_checksum_algo
get_algo (sha1 _) = sha1_algo
get_algo (crc32c _) = crc32c_algo

abbrev pub sha_size : ℕ
sha_size = 20

-- `add_raw(s.data(), n)`: the string must have `n` bytes.
unfoldable pub add_prefix : List ℕ → ℕ → Writer
add_prefix s n = if leb n (length s) then add_raw (take n s) else λ mb. none

infixl 5 ◌>>◌
abbrev ◌>>◌ : Writer → Writer → Writer
v >> w = Builder.◌>>◌ v w

unfoldable pub to_checksum : Checksum → Writer
to_checksum no_checksum = add_type 1
to_checksum (sha1 digest) = add_type 2 >> (to_u32 sha_size >> add_prefix digest sha_size)
to_checksum (crc32c digest) = add_type 3 >> to_u32 digest

unfoldable pub checksum_of_type : ℕ → Reader Checksum
checksum_of_type type =
    if type == 1
    then pure no_checksum
    else if type == 2
    then (do digest ← from_string; pure (sha1 digest))
    else if type == 3
    then (do d ← from_u32; pure (crc32c d))
    else throw thrown

unfoldable pub from_checksum : Reader Checksum
from_checksum = do type ← from_u8; checksum_of_type type

unfoldable pub verify : Checksum → Checksum → Bool
verify no_checksum no_checksum = true
verify (sha1 d0) (sha1 d1) = string_eq d0 d1
verify (crc32c d0) (crc32c d1) = d0 == d1
verify _ _ = false

-- A digest of the length that its algorithm gives.
abbrev pub IsDigest : Checksum → Type 0
IsDigest no_checksum = Unit {0}
IsDigest (sha1 digest) = length digest ≡ sha_size
IsDigest (crc32c digest) = digest < u32

unfoldable pub checksum_bytes : Checksum → List ℕ
checksum_bytes no_checksum = le_bytes 1 1
checksum_bytes (sha1 digest) = le_bytes 1 2 ++ string_bytes digest
checksum_bytes (crc32c digest) = le_bytes 1 3 ++ le_bytes 4 digest

-- Two checksums verify exactly when they are equal: of one algorithm, and with equal digests.
pub verify_iff : (c0 c1 : Checksum) → (verify c0 c1 ≡ true) ↔ (c0 ≡ c1)
unfolding verify
verify_iff no_checksum no_checksum = (λ _. refl, λ _. refl)
verify_iff (sha1 d0) (sha1 d1) =
    (λ h. ap sha1 ((string_eq_iff d0 d1).0 h), λ e. (string_eq_iff d0 d1).1 (cc))
verify_iff (crc32c d0) (crc32c d1) =
    (λ h. ap crc32c ((==_iff d0 d1).0 h), λ e. (==_iff d0 d1).1 (cc))
verify_iff no_checksum (sha1 _) = (λ h. cc, λ e. cc)
verify_iff no_checksum (crc32c _) = (λ h. cc, λ e. cc)
verify_iff (sha1 _) no_checksum = (λ h. cc, λ e. cc)
verify_iff (sha1 _) (crc32c _) = (λ h. cc, λ e. cc)
verify_iff (crc32c _) no_checksum = (λ h. cc, λ e. cc)
verify_iff (crc32c _) (sha1 _) = (λ h. cc, λ e. cc)

-- A checksum whose digest has the size of its algorithm is read back from its bytes.
pub Reads-from_checksum : (c : Checksum) → IsDigest c → Reads from_checksum (checksum_bytes c) c
unfolding from_checksum checksum_of_type checksum_bytes
Reads-from_checksum no_checksum h =
    Reads-bind_nil _ no_checksum (Reads-from_u8 1 (omega arith)) (Reads-pure no_checksum)
Reads-from_checksum (sha1 digest) h =
    Reads-bind _ (Reads-from_u8 2 (omega arith))
      (Reads-last sha1 (Reads-from_string digest (omega arith)))
Reads-from_checksum (crc32c digest) h =
    Reads-bind _ (Reads-from_u8 3 (omega arith)) (Reads-last crc32c (Reads-from_u32 digest h))

pub Sound-from_checksum : Sound (Any {A = Checksum}) from_checksum
unfolding from_checksum checksum_of_type
Sound-from_checksum = Sound-bind (Below 256) _ Sound-from_u8 λ type _.
    elim (Bool-cases (type == 1)) [
      | inl one ↦ rw one (Sound-pure no_checksum tt)
      | inr n1 ↦ elim (Bool-cases (type == 2)) [
        | inl two ↦ rw (n1, two) (Sound-bind Any _ Sound-from_string λ d _. Sound-pure (sha1 d) tt)
        | inr n2 ↦ elim (Bool-cases (type == 3)) [
          | inl three ↦
              rw (n1, n2, three)
                (Sound-bind (Below u32) _ Sound-from_u32 λ d _. Sound-pure (crc32c d) tt)
          | inr n3 ↦ rw (n1, n2, n3) (Sound-throw thrown)
        ]
      ]
    ]

Writes-add_prefix : (s : List ℕ) (n : ℕ) → length s ≡ n → Writes (add_prefix s n) s
unfolding add_prefix
Writes-add_prefix s n e =
    rw
      (
        ← e,
        le→leb (length s) (length s) (omega arith),
        rw (append-nil s) at (take-length-append s []),
      )
      (Writes-add_raw s)

-- A checksum whose digest has the size of its algorithm is written as its bytes.
pub Writes-to_checksum : (c : Checksum) → IsDigest c → Writes (to_checksum c) (checksum_bytes c)
unfolding to_checksum checksum_bytes add_type string_bytes
Writes-to_checksum no_checksum h = Writes-add_raw (le_bytes 1 1)
Writes-to_checksum (sha1 digest) h = Writes-then (Writes-add_raw (le_bytes 1 2)) (
    Writes-then
      (subst (λ n. Writes (to_u32 sha_size) (le_bytes 4 n)) (sym h) (Writes-to_u32 sha_size))
      (Writes-add_prefix digest sha_size h))
Writes-to_checksum (crc32c digest) h =
    Writes-then (Writes-add_raw (le_bytes 1 3)) (Writes-to_u32 digest)
