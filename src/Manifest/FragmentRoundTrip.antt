-- ===== src/Manifest/FragmentRoundTrip.antt =====
-- `from(message &, Fragment &)` reads back a fragment of every era of the format.
use alba.Base.{
  ℕ, ◌+◌, ◌%◌, ◌^◌, ◌<◌, ◌≡◌, refl, sym, ap, subst, List, [], ◌++◌, true, false, Option, none, some,
  length, leb-false, if◌then◌else◌, u32, u64, le_bytes, append-nil, append_assoc, length-append,
  arith,
}
use alba.Llio.Message.{
  Message, Ahead, advance, nested_at, get_pos, length-Ahead, advance-Ahead, is_outside-Ahead,
  skip-Ahead,
}
use alba.Llio.Reader.{
  Reader, ok, pure, ◌>>=◌, ◌>>◌, tell, reading, reading-ok, get_nested_message, skips,
}
use alba.Llio.Reads.{Reads, Reads-pure, Reads-bind, Reads-bind_nil, Reads-last, Reads-load}
use alba.Llio.Layout.{option_bytes, bool_bytes}
use alba.Llio.From.{from_bool}
use alba.Llio.RoundTrip.{
  Reads-from_u8, Reads-from_u32, Reads-from_bool, Reads-from_option, Reads-from_pair,
}
use alba.Llio.VarintRoundTrip.{Reads-from_varint}
use alba.Common.{Reads-from_x_uint64}
use alba.Checksum.{Reads-from_checksum}
use alba.Manifest.Fragments.{
  Location, Fragment, from_location, small_string_from, is_left, from_trailing, expect_one,
  from_fragment_body, from_fragment,
}
use alba.Manifest.Format.{
  Era, plain, with_ctr, with_fnr, location_bytes, small_bytes, trailing_bytes, fragment_body_bytes,
  fragment_bytes, InOption, IsSmall, IsFragment,
}

-- Reading that ends `n` bytes before the position `end`.
pub record ReadsBefore {A : Type 0} (end n : ℕ) (p : Reader A) (xs : List ℕ) (a : A) : Type 0 where
  pub at :
      (m : Message) (ys : List ℕ)
      → Ahead m (xs ++ ys)
      → length ys ≡ n
      → m.pos + length xs + n ≡ end
      → p m ≡ ok a (advance (length xs) m)

ReadsBefore-bind :
    {A B : Type 0} {end n : ℕ} {p : Reader A} (f : A → Reader B) {xs ys : List ℕ} {a : A} {b : B}
    → ReadsBefore end (length ys + n) p xs a
    → ReadsBefore end n (f a) ys b
    → ReadsBefore end n (p >>= f) (xs ++ ys) b
unfolding ◌>>=◌
ReadsBefore-bind {p = p} f {xs} {ys} {a} {b} r s = record {
  at = λ m zs h e k.
      let h' : Ahead m (xs ++ (ys ++ zs)) = rw (append_assoc xs ys zs) at h in
      rw
        (r.at m (ys ++ zs) h' (omega (arith, length-append ys zs))
          (omega (arith, length-append xs ys)))
        (rw
          (s.at (advance (length xs) m) zs (advance-Ahead xs (ys ++ zs) h') e
            (omega (arith, length-append xs ys)))
          (ap (λ q. ok b (record m { pos = q })) (omega (arith, length-append xs ys))));
}

ReadsBefore-bind_nil :
    {A B : Type 0} {end : ℕ} {p : Reader A} (f : A → Reader B) {xs : List ℕ} {a : A} (b : B)
    → ReadsBefore end 0 p xs a
    → ReadsBefore end 0 (f a) [] b
    → ReadsBefore end 0 (p >>= f) xs b
ReadsBefore-bind_nil {end = end} {p} f {xs} b r s =
    rw (append-nil xs) at (ReadsBefore-bind {end = end} f {xs = xs} {ys = []} r s)

ReadsBefore-of :
    {A : Type 0} {end n : ℕ} {p : Reader A} {xs : List ℕ} {a : A}
    → Reads p xs a
    → ReadsBefore end n p xs a
ReadsBefore-of r = record { at = λ m ys h e k. r.at m ys h }

pub Reads-small_string : (s : List ℕ) → IsSmall s → Reads small_string_from (small_bytes s) s
unfolding small_string_from small_bytes
Reads-small_string s h =
    let low : length s % u32 ≡ length s = omega arith in
    Reads-bind _ (Reads-from_varint (length s) (omega arith)) (
      rw (low, leb-false (2 ^ 31) (length s) (omega arith))
        (Reads-load (length s) (λ ib. ib) s refl))

-- The optional member as it is read once some bytes are left.
abbrev present : Reader (Option (List ℕ))
present = do has ← from_bool; if has then (do s ← small_string_from; pure (some s)) else pure none

Reads-present :
    (o : Option (List ℕ)) → InOption IsSmall o → Reads present (option_bytes small_bytes o) o
unfolding option_bytes
Reads-present none h = Reads-bind_nil _ none (Reads-from_bool false) (Reads-pure none)
Reads-present (some s) h =
    Reads-bind _ (Reads-from_bool true) (Reads-last some (Reads-small_string s h))

option_bytes-pos : (o : Option (List ℕ)) → 0 < length (option_bytes small_bytes o)
unfolding option_bytes bool_bytes le_bytes
option_bytes-pos none = omega arith
option_bytes-pos (some s) = omega arith

is_left-true : (end pos : ℕ) → pos < end → end < 2 ^ 31 → is_left end (pos % u32) ≡ true
unfolding is_left
is_left-true end pos h k = ground arith

is_left-false : (pos : ℕ) → pos < 2 ^ 31 → is_left pos (pos % u32) ≡ false
unfolding is_left
is_left-false pos h = ground arith

module _ {end : ℕ} where
  -- While bytes are left the member is read.
  ReadsBefore-present :
      (n : ℕ) (o : Option (List ℕ))
      → InOption IsSmall o
      → ReadsBefore end n (from_trailing end) (option_bytes small_bytes o) o
  unfolding from_trailing ◌>>=◌ tell get_pos
  ReadsBefore-present n o h = record {
    at = λ m ys ahead e k.
        let left : is_left end (m.pos % u32) ≡ true =
          is_left-true end m.pos (omega (arith, option_bytes-pos o)) (
            omega (
              arith,
              ahead.small,
              ahead.at_front,
              length-Ahead ahead,
              length-append (option_bytes small_bytes o) ys,
            )) in
        rw left ((Reads-present o h).at m ys ahead);
  }

  -- At the end it is absent.
  ReadsBefore-absent : ReadsBefore end 0 (from_trailing end) [] none
  unfolding from_trailing ◌>>=◌ tell get_pos pure
  ReadsBefore-absent = record {
    at = λ m ys ahead e k.
        let here : end ≡ m.pos = omega arith in
        let done : is_left end (m.pos % u32) ≡ false =
          rw here (
            is_left-false m.pos (omega (arith, ahead.small, ahead.at_front, length-Ahead ahead))) in
        rw done (ap (λ q. ok none (record m { pos = q })) {x = m.pos} (omega arith));
  }

pub Reads-from_location :
    (loc : Location)
    → InOption (λ i. i < u64) loc.0
    → loc.1 < u32
    → Reads from_location (location_bytes loc) loc
unfolding from_location location_bytes
Reads-from_location (osd, version) h k =
    Reads-from_pair
      (Reads-from_option {P = λ i. i < u64} Reads-from_x_uint64 osd
        (λ a e. subst (InOption {A = ℕ} (λ i. i < u64)) e h))
      (Reads-from_u32 version k)

pub Reads-expect_one : Reads expect_one (le_bytes 1 1) tt
unfolding expect_one
Reads-expect_one = Reads-bind_nil _ tt (Reads-from_u8 1 (omega arith)) (Reads-pure tt)

abbrev made : Fragment → Option (List ℕ) → Option (List ℕ) → Fragment
made f ctr fnr = record { loc = f.loc; crc = f.crc; len = f.len; ctr = ctr; fnr = fnr }

module _ (end : ℕ) (f : Fragment) where
  abbrev trailing : Reader Fragment
  trailing = do ctr ← from_trailing end; fnr ← from_trailing end; pure (made f ctr fnr)

  -- The optional members, in each era.
  ReadsBefore-trailing :
      (era : Era) (h : IsFragment era f) → ReadsBefore end 0 trailing (trailing_bytes era f) f
  unfolding trailing_bytes
  ReadsBefore-trailing plain h =
      subst (ReadsBefore end 0 trailing [])
        (λ i. record f { ctr = sym h.known.0 i; fnr = sym h.known.1 i })
        (ReadsBefore-bind_nil _ (made f none none) ReadsBefore-absent (
          ReadsBefore-bind_nil _ (made f none none) ReadsBefore-absent
            (ReadsBefore-of (Reads-pure _))))
  ReadsBefore-trailing with_ctr h =
      subst (ReadsBefore end 0 trailing (option_bytes small_bytes f.ctr))
        (λ i. record f { fnr = sym h.known i })
        (ReadsBefore-bind_nil _ (made f f.ctr none) (ReadsBefore-present 0 f.ctr h.ctr) (
          ReadsBefore-bind_nil _ (made f f.ctr none) ReadsBefore-absent
            (ReadsBefore-of (Reads-pure _))))
  ReadsBefore-trailing with_fnr h =
      ReadsBefore-bind _ (ReadsBefore-present _ f.ctr h.ctr) (
        ReadsBefore-bind_nil _ f (ReadsBefore-present 0 f.fnr h.fnr)
          (ReadsBefore-of (Reads-pure f)))

  ReadsBefore-body :
      (era : Era) (h : IsFragment era f)
      → ReadsBefore end 0 (from_fragment_body end) (fragment_body_bytes era f) f
  unfolding from_fragment_body fragment_body_bytes
  ReadsBefore-body era h = ReadsBefore-bind _ (ReadsBefore-of Reads-expect_one) (
      ReadsBefore-bind _ (ReadsBefore-of (Reads-from_location f.loc h.osd h.version)) (
        ReadsBefore-bind _ (ReadsBefore-of (Reads-from_checksum f.crc h.crc)) (
          ReadsBefore-bind _ (ReadsBefore-of (Reads-from_u32 f.len h.len))
            (ReadsBefore-trailing era h))))

pub nested-Ahead :
    {m : Message} (xs ys : List ℕ) → Ahead m (xs ++ ys) → Ahead (nested_at m (length xs)) xs
unfolding nested_at
nested-Ahead {m} xs ys h = record {
  front = h.front;
  back = ys ++ h.back;
  bytes = rw (← append_assoc xs ys h.back) h.bytes;
  at_front = h.at_front;
  extent = omega (arith, h.at_front);
  plain = h.plain;
  small = h.small;
}

-- A nested message of the given bytes, read to its end.
Reads-nested :
    {A : Type 0} (body : ℕ → Reader A) (xs : List ℕ) {a : A} (size : ℕ)
    → size ≡ length xs
    → ((end : ℕ) → ReadsBefore end 0 (body end) xs a)
    → Reads
        (do m2 ← get_nested_message (size % u32); skips size; end ← tell; reading m2 (body end))
        xs
        a
unfolding ◌>>=◌ get_nested_message skips tell get_pos nested_at
Reads-nested body xs {a} size e r = record {
  at = λ m ys h.
      let fits : length xs < 2 ^ 31 = omega (arith, h.small, length-Ahead h, length-append xs ys) in
      let low : size % u32 ≡ length xs = omega arith in
      let end : (m.pos + length xs) % u32 ≡ m.pos + length xs =
        omega (arith, h.small, h.at_front, length-Ahead h, length-append xs ys) in
      let inner : Ahead (nested_at m (length xs)) (xs ++ []) =
        subst (Ahead (nested_at m (length xs))) (sym (append-nil xs)) (nested-Ahead xs ys h) in
      rw (low, is_outside-Ahead xs ys h (length xs) refl, skip-Ahead xs ys h size e, end)
        (reading-ok _ _ _
          ((r (m.pos + length xs)).at (nested_at m (length xs)) [] inner refl (omega arith)));
}

-- A fragment whose members fit is read back from the bytes of any era of its writer: without what
-- follows the length, with the counter, or with the counter and the name.
pub Reads-from_fragment :
    (era : Era) (f : Fragment) → IsFragment era f → Reads from_fragment (fragment_bytes era f) f
unfolding from_fragment fragment_bytes
Reads-from_fragment era f h =
    let size = length (fragment_body_bytes era f) in
    Reads-bind _ (Reads-from_varint size (omega (arith, h.body))) (
      Reads-nested from_fragment_body (fragment_body_bytes era f) size refl
        (λ end. ReadsBefore-body end f era h))
