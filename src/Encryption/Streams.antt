-- ===== src/Encryption/Streams.antt =====
-- `partial_decrypt` against a decryption of the whole: counter mode, in which each block of 16 bytes has a
-- counter of its own.
use alba.Base.{
  ℕ, suc, ◌+◌, ◌/◌, ◌%◌, ◌^◌, ◌<◌, ◌≡◌, refl, List, [], ◌∷◌, true, some, length, length-replicate,
  replicate, ◌==◌, ==_iff, sign_extend, sign_extend_small, Bool-cases, inl, inr, arith,
}
use alba.Encryption.{Encrypted, ctr, is_ctr}
use alba.Encryption.Counter.{with_offset}
use alba.Encryption.Decrypt.{Cipher, block_len, burn, run_cipher, run_with, partial_decrypt}
use alba.Encryption.Blocks.{counter_bytes, length-words, words, with_offset-counter_bytes}

-- The byte at an index of the key stream: that of the block of its counter.
unfoldable pub stream : (ℕ → ℕ → ℕ) → ℕ → ℕ → ℕ
stream block c i = block ((c + i / 16) % 2 ^ 128) (i % 16)

-- Bytes of a text from an index on, mixed with the key stream.
unfoldable pub mixed : (ℕ → ℕ → ℕ) → (ℕ → ℕ) → ℕ → List ℕ → List ℕ
mixed mix keys i [] = []
mixed mix keys i (x ∷ xs) = mix x (keys i) ∷ mixed mix keys (suc i) xs

-- What libgcrypt says of AES in counter mode: `block` gives the bytes of the blocks of a key, and `mix`
-- is exclusive or. A handle that was given a counter is at the start of the key stream; a decryption
-- goes on where the one before it ended.
pub record IsCounterMode (C : Cipher) (block : List ℕ → ℕ → ℕ → ℕ) (mix : ℕ → ℕ → ℕ) (key : List ℕ)
    : Type 1 where
  pub IsKeyed : C.Handle → Type 0
  pub IsAt : ℕ → ℕ → C.Handle → Type 0
  pub opened : C.Handle
  pub open_law : C.open_ ≡ some opened
  pub keyed : C.Handle
  pub setkey_law : C.setkey key opened ≡ some keyed
  pub keyed_law : IsKeyed keyed
  pub setctr_law :
      (c : ℕ) (hd : C.Handle)
      → c < 2 ^ 128
      → IsKeyed hd
      → (hd' : C.Handle) × ((C.setctr (counter_bytes c) hd ≡ some hd') × IsAt c 0 hd')
  pub decrypt_law :
      (c i : ℕ) (xs : List ℕ) (hd : C.Handle)
      → IsAt c i hd
      → (hd' : C.Handle) × ((C.decrypt xs hd ≡ some (mixed mix (stream (block key) c) i xs, hd'))
          × IsAt c (i + length xs) hd')

mixed-shift :
    (mix : ℕ → ℕ → ℕ) (keys keys' : ℕ → ℕ) (i i' : ℕ) (xs : List ℕ)
    → ((j : ℕ) → keys (i + j) ≡ keys' (i' + j))
    → mixed mix keys i xs ≡ mixed mix keys' i' xs
unfolding mixed
mixed-shift mix keys keys' i i' [] h = refl
mixed-shift mix keys keys' i i' (x ∷ xs) h =
    let here : keys i ≡ keys' i' =
      (let z : i + 0 ≡ i = omega arith in
        let z' : i' + 0 ≡ i' = omega arith in rw (z, z') at (h 0)) in
    let rest : mixed mix keys (suc i) xs ≡ mixed mix keys' (suc i') xs =
      mixed-shift mix keys keys' (suc i) (suc i') xs λ j.
        let e : suc i + j ≡ i + suc j = omega arith in
        let e' : suc i' + j ≡ i' + suc j = omega arith in rw (e, e') (h (suc j)) in
    rw (here, rest) refl

-- The stream of a counter that was moved on by the blocks in front of an index.
stream-moved :
    (block : ℕ → ℕ → ℕ) (c i j : ℕ)
    → stream block ((c + i / 16) % 2 ^ 128) (i % 16 + j) ≡ stream block c (i + j)
unfolding stream
stream-moved block c i j =
    let counter : ((c + i / 16) % 2 ^ 128 + (i % 16 + j) / 16) % 2 ^ 128
        ≡ (c + (i + j) / 16) % 2 ^ 128 =
      omega arith in
    let index : (i % 16 + j) % 16 ≡ (i + j) % 16 = omega arith in rw (counter, index) refl

module _ (C : Cipher) (block : List ℕ → ℕ → ℕ → ℕ) (mix : ℕ → ℕ → ℕ) (key : List ℕ)
    (law : IsCounterMode C block mix key) where
  burn_lem :
      (c n : ℕ) (hd : C.Handle)
      → law.IsAt c 0 hd
      → (hd' : C.Handle) × ((burn C n hd ≡ some hd') × law.IsAt c n hd')
  unfolding burn
  burn_lem c n hd at = elim (Bool-cases (n == 0)) [
    | inl e ↦ (hd, (rw (e, burn) refl, rw ((==_iff n 0).0 e) at))
    | inr e ↦
        let (hd', (d, at')) = law.decrypt_law c 0 (replicate n 0) hd at in
        let burnt : 0 + length (replicate {A = ℕ} n 0) ≡ n =
          omega (arith, length-replicate {A = ℕ} n 0) in
        (hd', (rw (e, d, burn) refl, rw burnt at at'))
  ]

  run_cipher_lem :
      (c n : ℕ) (buf : List ℕ)
      → c < 2 ^ 128
      → run_cipher C buf key (counter_bytes c) n ≡ some (mixed mix (stream (block key) c) n buf)
  unfolding run_cipher burn mixed
  run_cipher_lem c n buf h =
      let (counting, (e, at)) = law.setctr_law c law.keyed h law.keyed_law in
      let (burnt, (f, at')) = burn_lem c n counting at in
      let (rest, (g, at'')) = law.decrypt_law c n buf burnt at' in
      rw (law.open_law, law.setkey_law, e, f, g, run_cipher) refl

  -- For a counter of 128 bits and an offset below 2^31, the part of a text at the offset is decrypted as
  -- the whole text is at that place: with the bytes of the key stream from the offset on.
  pub partial_decrypt-mixed :
      (e : Encrypted) (buf : List ℕ) (c offset : ℕ)
      → e.mode ≡ ctr
      → c < 2 ^ 128
      → offset < 2 ^ 31
      → partial_decrypt C e buf key (counter_bytes c) offset
        ≡ some (true, mixed mix (stream (block key) c) offset buf)
  unfolding partial_decrypt run_with is_ctr counter_bytes
  partial_decrypt-mixed e buf c offset m h n =
      let plain : sign_extend offset ≡ offset = sign_extend_small offset n in
      let moved : with_offset (counter_bytes c) (offset / block_len)
          ≡ some (counter_bytes ((c + offset / 16) % 2 ^ 128)) =
        with_offset-counter_bytes c (offset / 16) h (omega (arith, n)) in
      let sixteen : length (counter_bytes c) ≡ 16 = length-words (words c) in
      let ran = run_cipher_lem ((c + offset / 16) % 2 ^ 128) (offset % 16) buf (omega arith) in
      let same =
        mixed-shift mix (stream (block key) ((c + offset / 16) % 2 ^ 128)) (stream (block key) c)
          (offset % 16) offset buf (stream-moved (block key) c offset) in
      rw (plain, m, sixteen, moved, run_with, plain, ran, same, partial_decrypt) refl
