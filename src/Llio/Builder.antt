-- ===== src/Llio/Builder.antt =====
-- `message_builder` of cpp/include/llio.h. The first four bytes are kept for the size. `none` is a
-- write outside the allocated buffer.
use alba.Base.{
  ℕ, ◌+◌, ◌-◌, ◌%◌, ◌^◌, ◌≤◌, ◌<◌, ◌≡◌, refl, sym, ap, List, [], ◌++◌, Option, none, some, length,
  take, drop, replicate, ltb, leb, le→leb, max, if◌then◌else◌, u32, le_bytes, append-nil,
  append_assoc, length-append, arith,
}

-- `capacity` is the field `_size`; `written` is the first `_pos` bytes of `_buffer`.
pub record Builder : Type 0 where
  pub capacity : ℕ
  pub written : List ℕ

abbrev pub Writer : Type 0
Writer = Builder → Option Builder

unfoldable pub done : Writer
done mb = some mb

infixl 5 ◌>>◌
unfoldable pub ◌>>◌ : Writer → Writer → Writer
◌>>◌ v w mb = elim (v mb) [ none ↦ none | some mb' ↦ w mb' ]

abbrev pub initial_capacity : ℕ
initial_capacity = 32

-- The constructor; it clears the four bytes of the size.
unfoldable pub message_builder : Builder
message_builder = record { capacity = initial_capacity; written = replicate 4 0 }

-- The size of the buffer after the `if` of `add_raw`.
unfoldable pub grown : ℕ → ℕ → ℕ → ℕ
grown capacity pos len =
    if ltb ((capacity + u32 - pos) % u32) len then (capacity + max len capacity) % u32 else capacity

unfoldable pub add_raw : List ℕ → Writer
add_raw b mb =
    let capacity = grown mb.capacity (length mb.written) (length b) in
    if leb (length mb.written + length b) capacity
    then some (record { capacity = capacity; written = mb.written ++ b })
    else none

unfoldable pub add_type : ℕ → Writer
add_type i = add_raw (le_bytes 1 i)

unfoldable pub as_string : Builder → List ℕ
as_string mb = mb.written

unfoldable pub as_string_no_size : Builder → List ℕ
as_string_no_size mb = drop 4 mb.written

unfoldable pub reset : Builder → Builder
reset mb = record mb { written = take 4 mb.written }

-- What `output_using` hands to the writer: the size is filled in first.
unfoldable pub output_using : Builder → List ℕ
output_using mb =
    let size = (length mb.written + u32 - 4) % u32 in le_bytes 4 size ++ drop 4 mb.written

pub record IsValid (mb : Builder) : Type 0 where
  pub header : 4 ≤ length mb.written
  pub fits : length mb.written ≤ mb.capacity
  pub bounded : mb.capacity < 2 ^ 31

-- A message of fewer than 2 ^ 30 bytes.
abbrev pub max_message : ℕ
max_message = 2 ^ 30

-- The writer appends exactly the bytes `bs`, and stays inside the buffer.
pub record Writes (w : Writer) (bs : List ℕ) : Type 0 where
  pub at :
      (mb : Builder)
      → IsValid mb
      → length mb.written + length bs < max_message
      → (mb' : Builder) × (w mb ≡ some mb') × (mb'.written ≡ mb.written ++ bs) × IsValid mb'

pub message_builder-IsValid : IsValid message_builder
unfolding message_builder
message_builder-IsValid = omega arith

-- There is room after the growth, and the size stays below 2 ^ 31.
pub grown-room :
    (capacity pos len : ℕ)
    → pos ≤ capacity
    → capacity < 2 ^ 31
    → pos + len < max_message
    → (pos + len ≤ grown capacity pos len) × (grown capacity pos len < 2 ^ 31)
unfolding grown
grown-room capacity pos len h hc hl = ground arith

-- On a builder that is valid, and while the message stays below 2^30 bytes, `add_raw` appends exactly
-- its bytes: the buffer is grown far enough, and the builder stays valid.
pub Writes-add_raw : (bs : List ℕ) → Writes (add_raw bs) bs
unfolding add_raw
Writes-add_raw bs = record {
  at = λ mb v n.
      let (room, below) =
        grown-room mb.capacity (length mb.written) (length bs) v.fits v.bounded n in
      (
        record {
          capacity = grown mb.capacity (length mb.written) (length bs);
          written = mb.written ++ bs;
        },
        rw (le→leb _ _ room),
        refl,
        record {
          header = omega (arith, length-append mb.written bs, v.header);
          fits = omega (arith, length-append mb.written bs, room);
          bounded = below;
        },
      );
}

pub Writes-done : Writes done []
unfolding done
Writes-done = record { at = λ mb v n. (mb, refl, sym (append-nil mb.written), v) }

pub Writes-then :
    {v w : Writer} {xs ys : List ℕ} → Writes v xs → Writes w ys → Writes (v >> w) (xs ++ ys)
unfolding ◌>>◌
Writes-then {v} {w} {xs} {ys} p q = record {
  at = λ mb h n.
      let (mb', e, wr, h') = p.at mb h (omega (arith, length-append xs ys)) in
      let (mb'', e', wr', h'') =
        q.at mb' h'
          (omega (arith, length-append xs ys, length-append mb.written xs, ap length wr)) in
      (mb'', rw (e, ◌>>◌) e', rw (wr', wr, append_assoc mb.written xs ys), h'');
}
