-- ===== src/Manifest/Enclosed.antt =====
-- One manifest as `from2` reads it: the version, the compressed body, the namespace id.
use alba.Base.{
  ℕ, ◌<◌, ◌≡◌, refl, sym, subst, List, [], ◌++◌, true, length, u32, le_bytes, append_assoc, arith,
  append-nil,
}
use alba.Llio.Message.{
  Message, Ahead, advance, advance-Ahead, is_outside-Ahead, skip-Ahead, nested_at, message,
  from_string as buffer_of,
}
use alba.Llio.Reader.{Reader, ◌>>=◌, ◌>>◌, reading, reading-ok, current, skips, get_nested_message}
use alba.Llio.Reads.{Reads, Reads-bind, current-Ahead}
use alba.Llio.Layout.{string_bytes}
use alba.Llio.RoundTrip.{Reads-from_u8, Reads-from_u32, Reads-from_string}
use alba.Common.{x_uint64_bytes}
use alba.Manifest.{Manifest, from_version1_body, from_version2_body}
use alba.Manifest.FragmentRoundTrip.{nested-Ahead}
use alba.Manifest.Versions.{
  flag_between, compressed1, compressed2, from_version1, from_version2, from_version,
  from2_manifest,
}

Reads-nested_load :
    (c : List ℕ)
    → Reads
        (do m2 ← get_nested_message (length c); skips (length c); reading m2 (current (length c)))
        c
        c
unfolding ◌>>=◌ get_nested_message skips
Reads-nested_load c = record {
  at = λ m ys h.
      let inner : Ahead (nested_at m (length c)) (c ++ []) =
        subst (Ahead (nested_at m (length c))) (sym (append-nil c)) (nested-Ahead c ys h) in
      rw (is_outside-Ahead c ys h (length c) refl, skip-Ahead c ys h (length c) refl)
        (reading-ok _ _ _ (current-Ahead c (length c) [] refl inner));
}

Reads-compressed2 : (c : List ℕ) → length c < u32 → Reads compressed2 (string_bytes c) c
unfolding compressed2 string_bytes
Reads-compressed2 c h = Reads-bind _ (Reads-from_u32 (length c) h) (Reads-nested_load c)

flag_between-Ahead :
    {A B : Type 0} (first : Reader A) (second : A → Reader B) {xs : List ℕ} {a : A} (m : Message)
    (ys : List ℕ)
    → Reads first xs a
    → Ahead m (xs ++ ys)
    → flag_between first second m ≡ (second a (advance (length xs) m), true)
unfolding flag_between
flag_between-Ahead first second m ys r h = rw (r.at m ys h, flag_between)

pub data Version : Type 0 where
  version1 version2 : Version

abbrev pub number : Version → ℕ
number version1 = 1
number version2 = 2

abbrev pub body_of : Version → Reader Manifest
body_of version1 = from_version1_body
body_of version2 = from_version2_body

abbrev pub compressed_of : Version → Reader (List ℕ)
compressed_of version1 = compressed1
compressed_of version2 = compressed2

abbrev pub manifest_bytes : Version → List ℕ → ℕ → List ℕ
manifest_bytes v c id = le_bytes 1 (number v) ++ (string_bytes c ++ x_uint64_bytes id)

number_lt : (v : Version) → number v < 256
number_lt version1 = omega arith
number_lt version2 = omega arith

Reads-compressed_of :
    (v : Version) (c : List ℕ) → length c < u32 → Reads (compressed_of v) (string_bytes c) c
unfolding compressed1
Reads-compressed_of version1 c h = Reads-from_string c h
Reads-compressed_of version2 c h = Reads-compressed2 c h

module _ (uncompress : List ℕ → List ℕ) where
  abbrev pub inner : List ℕ → Message
  inner c = message (buffer_of (uncompress c))

  from_version-Ahead :
      (v : Version) (c : List ℕ) (m : Message) (ys : List ℕ)
      → length c < u32
      → Ahead m (string_bytes c ++ ys)
      → from_version uncompress (number v) m
        ≡ (reading (inner c) (body_of v) (advance (length (string_bytes c)) m), true)
  unfolding from_version from_version1 from_version2
  from_version-Ahead version1 c m ys h a =
      flag_between-Ahead compressed1 _ m ys (Reads-compressed_of version1 c h) a
  from_version-Ahead version2 c m ys h a =
      flag_between-Ahead compressed2 _ m ys (Reads-compressed_of version2 c h) a

  pub from2_manifest-Ahead :
      (v : Version) (c : List ℕ) (id : ℕ) (m : Message) (ys : List ℕ)
      → length c < u32
      → Ahead m (manifest_bytes v c id ++ ys)
      → from2_manifest uncompress m ≡ (
        reading
            (inner c)
            (body_of v)
            (advance (length (string_bytes c)) (advance (length (le_bytes 1 (number v))) m)),
        true,
      )
  unfolding from2_manifest
  from2_manifest-Ahead v c id m ys h a =
      let rest = string_bytes c ++ x_uint64_bytes id in
      let a1 : Ahead m (le_bytes 1 (number v) ++ (rest ++ ys)) =
        rw (append_assoc (le_bytes 1 (number v)) rest ys) at a in
      let a2 = advance-Ahead (le_bytes 1 (number v)) (rest ++ ys) a1 in
      let a3 : Ahead (advance (length (le_bytes 1 (number v))) m)
          (string_bytes c ++ (x_uint64_bytes id ++ ys)) =
        rw (append_assoc (string_bytes c) (x_uint64_bytes id) ys) at a2 in
      let first = (Reads-from_u8 (number v) (number_lt v)).at m (rest ++ ys) a1 in
      rw (first, from2_manifest) (from_version-Ahead v c _ _ h a3)
