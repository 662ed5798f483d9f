-- ===== src/Encryption/Safety.antt =====
-- Reading an `EncryptInfo` is memory safe.
use alba.Base.{ℕ, List, Bool-cases, inl, inr, ◌==◌, length, if◌then◌else◌}
use alba.Llio.Reader.{Reader, deserialisation_exception, aborted, throw, pure, ◌>>=◌}
use alba.Llio.From.{from_u8}
use alba.Llio.Safety.{Sound, Any, Sound-bind, Sound-pure, Sound-throw, Sound-halt}
use alba.Llio.SafeFrom.{Below, Sound-from_u8, Sound-from_string}
use alba.Encryption.{
  cbc, ctr, l256, aes, Encrypted, EncryptInfo, no_encryption, encrypted, from_chaining_mode,
  from_key_length, from_algo, check_tag, check_key, from_encrypted, from_encrypt_info,
}

module _ {A : Type 0} where
  -- A type byte with one or two known values.
  Sound-one :
      (a : A)
      → Sound
          (Any {A = A})
          (do type ← from_u8; if type == 1 then pure a else throw deserialisation_exception)
  Sound-one a = Sound-bind (Below 256) _ Sound-from_u8 λ type _. elim (Bool-cases (type == 1)) [
    | inl one ↦ rw one (Sound-pure a tt)
    | inr other ↦ rw other (Sound-throw deserialisation_exception)
  ]

  Sound-two :
      (p q : Reader A)
      → Sound (Any {A = A}) p
      → Sound (Any {A = A}) q
      → Sound (Any {A = A}) (do
        type ← from_u8
        if type == 1 then p else if type == 2 then q else throw deserialisation_exception)
  Sound-two p q sp sq = Sound-bind (Below 256) _ Sound-from_u8 λ type _.
      elim (Bool-cases (type == 1)) [
        | inl one ↦ rw one sp
        | inr n1 ↦ elim (Bool-cases (type == 2)) [
          | inl two ↦ rw (n1, two) sq
          | inr n2 ↦ rw (n1, n2) (Sound-throw deserialisation_exception)
        ]
      ]

Sound-check_tag : (tag : ℕ) → Sound (Any {A = Unit {0}}) (check_tag tag)
unfolding check_tag
Sound-check_tag tag = elim (Bool-cases (tag == 1)) [
  | inl one ↦ rw one (Sound-pure tt tt)
  | inr other ↦ rw other (Sound-halt aborted (λ q. cc) (λ q. cc))
]

Sound-check_key : (key : List ℕ) → Sound (Any {A = Unit {0}}) (check_key key)
unfolding check_key
Sound-check_key key = elim (Bool-cases (length key == 32)) [
  | inl fits ↦ rw fits (Sound-pure tt tt)
  | inr other ↦ rw other (Sound-throw deserialisation_exception)
]

Sound-from_encrypted : Sound (Any {A = Encrypted}) from_encrypted
unfolding from_encrypted from_algo from_chaining_mode from_key_length
Sound-from_encrypted = Sound-bind Any _ (Sound-one aes) λ algo _.
    Sound-bind Any _ (Sound-two (pure cbc) (pure ctr) (Sound-pure cbc tt) (Sound-pure ctr tt))
      λ mode _. Sound-bind Any _ (Sound-one l256) λ key_length _.
        Sound-bind (Below 256) _ Sound-from_u8 λ tag _.
          Sound-bind Any _ (Sound-check_tag tag) λ _ _.
            Sound-bind Any _ Sound-from_string
              λ key _. Sound-bind Any _ (Sound-check_key key) λ _ _. Sound-pure _ tt

pub Sound-from_encrypt_info : Sound (Any {A = EncryptInfo}) from_encrypt_info
unfolding from_encrypt_info
Sound-from_encrypt_info =
    Sound-two (pure no_encryption) (do awk ← from_encrypted; pure (encrypted awk))
      (Sound-pure no_encryption tt)
      (Sound-bind Any _ Sound-from_encrypted λ awk _. Sound-pure (encrypted awk) tt)
