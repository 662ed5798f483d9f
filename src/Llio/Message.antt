-- ===== src/Llio/Message.antt =====
-- `message_buffer` and `message` of cpp/include/llio.h. A buffer is the bytes that were allocated
-- and filled; a message is a view on it. Sizes and positions are size_t, so sums wrap at 2 ^ 64.
use alba.Base.{
  ℕ, ◌+◌, ◌%◌, ◌^◌, ◌≤◌, ◌<◌, ◌≡◌, refl, List, ◌++◌, length, drop, ltb, u32, u64, sign_extend,
  sign_extend_small, ap, length-append, drop-length-append, append_assoc, append-nil, All, IsByte,
  false, ltb-false, Bool, [], sym, ◌∙◌, arith,
}

pub record Buffer : Type 0 where
  pub bytes : List ℕ
  pub start : ℕ

-- `from_string`, and what `from_reader` and `from_istream` make of the bytes behind the size.
abbrev pub from_string : List ℕ → Buffer
from_string bytes = record { bytes = bytes; start = 0 }

pub record Message : Type 0 where
  pub buffer : Buffer
  pub pos : ℕ
  pub initial_offset : ℕ
  pub size : ℕ

-- The constructor `message(mb)`: a view on the whole buffer.
unfoldable pub message : Buffer → Message
message mb = record { buffer = mb; pos = 0; initial_offset = 0; size = length mb.bytes }

-- The guard that `current` and `get_nested_message` share.
unfoldable pub is_outside : Message → ℕ → Bool
is_outside m len = ltb ((m.initial_offset + m.size) % u64) ((m.pos + len) % u64)

-- `skip(int x)`: the argument is converted to int, and added to an unsigned position.
unfoldable pub skip : ℕ → Message → Message
skip x m = record m { pos = (m.pos + sign_extend x) % u64 }

-- `get_pos` returns the low 32 bits.
unfoldable pub get_pos : Message → ℕ
get_pos m = m.pos % u32

-- `message(_mb, _pos, len)`, what `get_nested_message` returns.
unfoldable pub nested_at : Message → ℕ → Message
nested_at m len = record { buffer = m.buffer; pos = m.pos; initial_offset = m.pos; size = len }

-- A view that lies in its buffer, with the position in the view, on fewer than 2 ^ 31 bytes.
pub record IsSafe (m : Message) : Type 0 where
  pub plain : m.buffer.start ≡ 0
  pub within : m.pos ≤ m.initial_offset + m.size
  pub inside : m.initial_offset + m.size ≤ length m.buffer.bytes
  pub octets : All IsByte m.buffer.bytes
  pub small : length m.buffer.bytes < 2 ^ 31

-- The bytes `bs` are what is left of the view.
pub record Ahead (m : Message) (bs : List ℕ) : Type 0 where
  pub front : List ℕ
  pub back : List ℕ
  pub bytes : m.buffer.bytes ≡ front ++ (bs ++ back)
  pub at_front : m.pos ≡ length front
  pub extent : m.initial_offset + m.size ≡ length front + length bs
  pub plain : m.buffer.start ≡ 0
  pub small : length m.buffer.bytes < 2 ^ 31

abbrev pub advance : ℕ → Message → Message
advance n m = record m { pos = m.pos + n }

pub length-Ahead :
    {m : Message} {bs : List ℕ} (h : Ahead m bs)
    → length m.buffer.bytes ≡ length h.front + (length bs + length h.back)
length-Ahead {m} {bs} h = rw h.bytes (simp length-append)

pub message-IsSafe :
    (bs : List ℕ) → All IsByte bs → length bs < 2 ^ 31 → IsSafe (message (from_string bs))
unfolding message
message-IsSafe bs octets h = record {
  plain = refl;
  within = omega arith;
  inside = omega arith;
  octets = octets;
  small = h;
}

pub message-Ahead : (bs : List ℕ) → length bs < 2 ^ 31 → Ahead (message (from_string bs)) bs
unfolding message
message-Ahead bs h = record {
  front = [];
  back = [];
  bytes = sym (append-nil bs);
  at_front = refl;
  extent = refl;
  plain = refl;
  small = h;
}

module _ {m : Message} (xs ys : List ℕ) (h : Ahead m (xs ++ ys)) where
  pub is_outside-Ahead : (n : ℕ) → n ≡ length xs → is_outside m n ≡ false
  unfolding is_outside
  is_outside-Ahead n e =
      ltb-false _ _
        (omega (arith, h.at_front, h.extent, h.small, length-Ahead h, length-append xs ys))

  pub drop-Ahead : drop m.pos m.buffer.bytes ≡ xs ++ (ys ++ h.back)
  drop-Ahead =
      rw (h.at_front, h.bytes)
        (drop-length-append h.front ((xs ++ ys) ++ h.back) ∙ append_assoc xs ys h.back)

  pub skip-Ahead : (n : ℕ) → n ≡ length xs → skip n m ≡ advance (length xs) m
  unfolding skip
  skip-Ahead n e =
      let moved : (m.pos + sign_extend n) % u64 ≡ m.pos + length xs =
        rw (sign_extend_small n (omega (arith, h.small, length-Ahead h, length-append xs ys)))
          (omega (arith, h.small, h.at_front, length-Ahead h, length-append xs ys)) in
      ap (λ p. record m { pos = p }) moved

  pub advance-Ahead : Ahead (advance (length xs) m) ys
  advance-Ahead = record {
    front = h.front ++ xs;
    back = h.back;
    bytes = rw (h.bytes, append_assoc h.front xs (ys ++ h.back), append_assoc xs ys h.back);
    at_front = omega (arith, h.at_front, length-append h.front xs);
    extent = omega (arith, h.extent, length-append h.front xs, length-append xs ys);
    plain = h.plain;
    small = h.small;
  }
