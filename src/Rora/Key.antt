-- ===== src/Rora/Key.antt =====
-- `_fragment_key` of cpp/src/lib/rora_proxy_client.cc, and the builder `_fkb` that it uses again and
-- again.
use alba.Base.{
  ℕ, ◌+◌, ◌<◌, ◌≡◌, refl, ◌∙◌, List, [], ◌∷◌, ◌++◌, Option, some, length, length-take, take, drop,
  drop-length-append, u32, le_bytes, arith,
}
use alba.Base.Options.{◌>>=◌}
use alba.Llio.Builder.{
  Builder, Writer, ◌>>◌, add_raw, as_string, as_string_no_size, message_builder, reset, IsValid,
  max_message, Writes, Writes-add_raw, Writes-then,
}
use alba.Llio.To.{to_u32, to_string}
use alba.Llio.Layout.{string_bytes}
use alba.Llio.Writing.{Writes-to_u32, Writes-to_string}
use alba.Common.{to_be_x_uint64, be_x_uint64_bytes, Writes-to_be_x_uint64}

-- 'p', 'n' and 'o'.
abbrev char_p : ℕ
char_p = 112

abbrev char_n : ℕ
char_n = 110

abbrev char_o : ℕ
char_o = 111

unfoldable pub write_key : ℕ → List ℕ → ℕ → ℕ → ℕ → Writer
write_key namespace_id object_id version_id chunk_id fragment_id =
    add_raw (char_p ∷ [])
    >> (to_u32 0
        >> (add_raw (char_n ∷ [])
            >> (to_be_x_uint64 namespace_id
                >> (add_raw (char_o ∷ [])
                    >> (to_string object_id
                        >> (to_u32 chunk_id >> (to_u32 fragment_id >> to_u32 version_id)))))))

unfoldable pub fragment_key : ℕ → List ℕ → ℕ → ℕ → ℕ → Builder → Option (List ℕ × Builder)
fragment_key namespace_id object_id version_id chunk_id fragment_id fkb = do
  fkb' ← write_key namespace_id object_id version_id chunk_id fragment_id fkb
  some (as_string_no_size fkb', reset fkb')

-- The name of a fragment as an object of a fragment cache, in `_resolve_one_many_levels`.
unfoldable pub fragment_cache_object_name : List ℕ → ℕ → ℕ → Option (List ℕ)
fragment_cache_object_name object_id chunk_id fragment_id = do
  mb ← (to_string object_id >> (to_u32 chunk_id >> to_u32 fragment_id)) message_builder
  some (drop 4 (as_string mb))

-- The key: the prefix of the namespace, whose id is big-endian, so that the keys of a namespace stand
-- together, and then the object, the chunk, the fragment and the version.
unfoldable pub key_bytes : ℕ → List ℕ → ℕ → ℕ → ℕ → List ℕ
key_bytes namespace_id object_id version_id chunk_id fragment_id =
    (112 ∷ [])
    ++ (le_bytes 4 0
        ++ ((110 ∷ [])
            ++ (be_x_uint64_bytes namespace_id
                ++ ((111 ∷ [])
                    ++ (string_bytes object_id
                        ++ (le_bytes 4 chunk_id
                            ++ (le_bytes 4 fragment_id ++ le_bytes 4 version_id)))))))

Writes-write_key :
    (namespace_id : ℕ) (object_id : List ℕ) (version_id chunk_id fragment_id : ℕ)
    → length object_id < u32
    → Writes
        (write_key namespace_id object_id version_id chunk_id fragment_id)
        (key_bytes namespace_id object_id version_id chunk_id fragment_id)
unfolding write_key key_bytes
Writes-write_key namespace_id object_id version_id chunk_id fragment_id h =
    Writes-then (Writes-add_raw (char_p ∷ [])) (
      Writes-then (Writes-to_u32 0) (
        Writes-then (Writes-add_raw (char_n ∷ [])) (
          Writes-then (Writes-to_be_x_uint64 namespace_id) (
            Writes-then (Writes-add_raw (char_o ∷ [])) (
              Writes-then (Writes-to_string object_id h) (
                Writes-then (Writes-to_u32 chunk_id)
                  (Writes-then (Writes-to_u32 fragment_id) (Writes-to_u32 version_id))))))))

-- The builder between two calls: only the four bytes of the size.
pub record IsReset (fkb : Builder) : Type 0 where
  pub valid : IsValid fkb
  pub bare : length fkb.written ≡ 4

-- On a builder that was reset, and for a key that fits a message, the key is exactly its bytes,
-- nothing of an earlier key among them, and the builder is left reset for the next key.
pub fragment_key-IsReset :
    (namespace_id : ℕ) (object_id : List ℕ) (version_id chunk_id fragment_id : ℕ) (fkb : Builder)
    → length object_id < u32
    → 4 + length (key_bytes namespace_id object_id version_id chunk_id fragment_id) < max_message
    → IsReset fkb
    → (fkb' : Builder) × ((fragment_key namespace_id object_id version_id chunk_id fragment_id fkb
          ≡ some (key_bytes namespace_id object_id version_id chunk_id fragment_id, fkb'))
        × IsReset fkb')
unfolding fragment_key as_string_no_size reset
fragment_key-IsReset namespace_id object_id version_id chunk_id fragment_id fkb ho hk r =
    let (b, e, wr, v) =
      (Writes-write_key namespace_id object_id version_id chunk_id fragment_id ho).at fkb r.valid
        (omega (arith, hk, r.bare)) in
    let key : drop 4 b.written ≡ key_bytes namespace_id object_id version_id chunk_id fragment_id =
      rw (wr, ← r.bare) (drop-length-append fkb.written _) in
    let bare : length (take 4 b.written) ≡ 4 = length-take 4 b.written ∙ omega (arith, v.header) in
    (
      record b { written = take 4 b.written },
      (
        rw (e, fragment_key, key) refl,
        record {
          valid = record {
            header = omega (arith, bare);
            fits = omega (arith, bare, v.header, v.fits);
            bounded = v.bounded;
          };
          bare = bare;
        },
      ),
    )
