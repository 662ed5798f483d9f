-- ===== src/Asd/Requests.antt =====
-- The requests of cpp/src/lib/asd_protocol.cc.
use alba.Base.{
  ℕ, ◌<◌, ◌%◌, ◌≡◌, List, [], ◌∷◌, ◌++◌, true, false, Option, none, some, length, u32, le_bytes,
  arith,
}
use alba.Llio.Builder.{Writer, done, ◌>>◌, add_raw, Writes, Writes-done, Writes-then}
use alba.Llio.To.{to_bool, to_u32, to_double, to_string, to_option, to_pair}
use alba.Llio.Layout.{string_bytes, concat_bytes}
use alba.Llio.Writing.{Writes-to_u32, Writes-to_string}

-- "aLbA".
abbrev pub magic : List ℕ
magic = 97 ∷ 76 ∷ 98 ∷ 65 ∷ []

abbrev pub protocol_version : ℕ
protocol_version = 1

unfoldable pub make_prologue : Option (List ℕ) → Writer
make_prologue long_id = add_raw magic >> (to_u32 protocol_version >> to_option to_string long_id)

-- `slice`, without its target.
pub record Slice : Type 0 where
  pub offset : ℕ
  pub length : ℕ

unfoldable pub write_slices : List Slice → Writer
write_slices [] = done
write_slices (slice ∷ slices) = (to_u32 slice.offset >> to_u32 slice.length) >> write_slices slices

unfoldable pub write_partial_get_request : List ℕ → List Slice → Writer
write_partial_get_request key slices =
    to_u32 11
    >> (to_string key >> (to_u32 (length slices % u32) >> (write_slices slices >> to_u32 1)))

unfoldable pub write_set_slowness_request : Option (ℕ × ℕ) → Writer
write_set_slowness_request none = to_u32 14 >> to_bool false
write_set_slowness_request (some slowness) =
    to_u32 14 >> (to_bool true >> to_pair to_double to_double slowness)

unfoldable pub write_get_version_request : Writer
write_get_version_request = to_u32 7

unfoldable pub asd_slice_bytes : Slice → List ℕ
asd_slice_bytes s = le_bytes 4 s.offset ++ le_bytes 4 s.length

Writes-write_slices :
    (slices : List Slice) → Writes (write_slices slices) (concat_bytes asd_slice_bytes slices)
unfolding write_slices concat_bytes asd_slice_bytes
Writes-write_slices [] = Writes-done
Writes-write_slices (s ∷ slices) =
    Writes-then (Writes-then (Writes-to_u32 s.offset) (Writes-to_u32 s.length))
      (Writes-write_slices slices)

-- A request for parts of a value, with a key of fewer than 2^32 bytes and fewer than 2^32 slices, is
-- written as its tag, the key, the number of the slices, and the slices first to last.
pub Writes-write_partial_get_request :
    (key : List ℕ) (slices : List Slice)
    → length key < u32
    → length slices < u32
    → Writes (write_partial_get_request key slices) (
        le_bytes 4 11
        ++ (string_bytes key
            ++ (le_bytes 4 (length slices)
                ++ (concat_bytes asd_slice_bytes slices ++ le_bytes 4 1))))
unfolding write_partial_get_request
Writes-write_partial_get_request key slices hk hs =
    let size : length slices % u32 ≡ length slices = omega (arith, hs) in
    rw size (
      Writes-then (Writes-to_u32 11) (
        Writes-then (Writes-to_string key hk) (
          Writes-then (Writes-to_u32 (length slices))
            (Writes-then (Writes-write_slices slices) (Writes-to_u32 1)))))
