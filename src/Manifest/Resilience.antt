-- ===== src/Manifest/Resilience.antt =====
-- About lists of manifests of which some do not decode.
use alba.Base.{
  ℕ, ◌^◌, ◌≤◌, ◌<◌, ◌≡◌, refl, List, [], ◌∷◌, ◌++◌, true, Option, none, some, length, le→leb,
  string_eq_self, u32, u64, le_bytes, All, append_assoc, length-append, ap, ◌∙◌, arith, ◌+◌,
}
use alba.Llio.Message.{Message, Ahead, advance, advance-Ahead}
use alba.Llio.Reader.{
  ok, throws, deserialisation_exception, throw, ◌>>=◌, reading, reading-ok, reading-throws,
}
use alba.Llio.Reads.{Reads, Reads-pure, Reads-bind, Reads-last}
use alba.Llio.Layout.{string_bytes, concat_bytes}
use alba.Llio.RoundTrip.{Reads-from_u32, Reads-from_string}
use alba.Common.{x_uint64_bytes, Reads-from_x_uint64}
use alba.Manifest.{Manifest}
use alba.Manifest.Enclosed.{Version, number, body_of, manifest_bytes, inner, from2_manifest-Ahead}
use alba.Manifest.Versions.{rethrow, with_namespace_id, after_manifest, from2}
use alba.Manifest.Entries.{
  ObjectInfo, settle, push, try_manifest, read_object_info, object_infos_loop, read_object_infos,
}

-- One entry of the list as its writer sees it.
pub record Entry : Type 0 where
  pub name : List ℕ
  pub alba_id : List ℕ
  pub version : Version
  pub compressed : List ℕ
  pub namespace_id : ℕ

abbrev pub entry_bytes : Entry → List ℕ
entry_bytes e =
    string_bytes e.name
    ++ (string_bytes e.alba_id ++ manifest_bytes e.version e.compressed e.namespace_id)

pub record IsEntry (e : Entry) : Type 0 where
  pub name : length e.name < u32
  pub alba_id : length e.alba_id < u32
  pub compressed : length e.compressed < u32
  pub namespace_id : e.namespace_id < u64

module _ (uncompress : List ℕ → List ℕ) where
  -- What the body of an entry decodes to: a manifest under the name of the entry, or nothing where its
  -- reader throws a deserialisation_exception. A body that ends within a vector is neither: there the
  -- exception leaves a function that is noexcept, and the process ends.
  abbrev pub Decodes : Entry → Option Manifest → Type 0
  Decodes e (some mf) =
      ((m : Message) × (body_of e.version (inner uncompress e.compressed) ≡ ok mf m))
      × (mf.name ≡ e.name)
  Decodes e none =
      (m : Message) × (body_of e.version (inner uncompress e.compressed)
        ≡ throws deserialisation_exception m)

  abbrev pub shown : Entry → Option Manifest → Option ObjectInfo
  shown e none = none
  shown e (some mf) = some (record {
    name = e.name;
    alba_id = e.alba_id;
    manifest = record { manifest = mf; namespace_id = e.namespace_id };
  })

  -- What is behind the body, after either outcome of it.
  settle-Ahead :
      (e : Entry) (d : Option Manifest) (m : Message) (ys : List ℕ)
      → e.namespace_id < u64
      → Decodes e d
      → Ahead m (x_uint64_bytes e.namespace_id ++ ys)
      → settle e.name e.alba_id
          (after_manifest uncompress
            (reading (inner uncompress e.compressed) (body_of e.version) m)
            true)
          true
        ≡ ok (shown e d) (advance (length (x_uint64_bytes e.namespace_id)) m)
  unfolding after_manifest with_namespace_id rethrow settle ◌>>=◌ throw
  settle-Ahead e (some mf) m ys h ((m2, body), named) a =
      rw
        (
          reading-ok _ _ m body,
          after_manifest,
          (Reads-from_x_uint64 e.namespace_id h).at m ys a,
          with_namespace_id,
        )
        (rw (named, string_eq_self e.name) refl)
  settle-Ahead e none m ys h (m2, body) a =
      rw
        (
          reading-throws _ _ m body,
          after_manifest,
          rethrow,
          (Reads-from_x_uint64 e.namespace_id h).at m ys a,
        )
        refl

  Reads-try_manifest :
      (e : Entry) (d : Option Manifest)
      → IsEntry e
      → Decodes e d
      → Reads
          (try_manifest uncompress e.name e.alba_id)
          (manifest_bytes e.version e.compressed e.namespace_id)
          (shown e d)
  unfolding try_manifest from2
  Reads-try_manifest e d v r = record {
    at = λ m ys h.
        let xs = le_bytes 1 (number e.version) in
        let zs = x_uint64_bytes e.namespace_id in
        let a1 : Ahead m (xs ++ (string_bytes e.compressed ++ (zs ++ ys))) =
          rw (append_assoc xs _ ys, append_assoc (string_bytes e.compressed) zs ys) at h in
        let a2 = advance-Ahead (string_bytes e.compressed) (zs ++ ys) (advance-Ahead xs _ a1) in
        let lengths =
          length-append xs (string_bytes e.compressed ++ zs)
          ∙ ap (λ n. length xs + n) (length-append (string_bytes e.compressed) zs) in
        rw
          (from2_manifest-Ahead uncompress e.version e.compressed e.namespace_id m ys v.compressed
            h)
          (settle-Ahead e d _ ys v.namespace_id r a2
            ∙ ap (λ p. ok (shown e d) (record m { pos = p })) (omega (arith, lengths)));
  }

  Reads-read_object_info :
      (e : Entry) (d : Option Manifest)
      → IsEntry e
      → Decodes e d
      → Reads (read_object_info uncompress) (entry_bytes e) (shown e d)
  unfolding read_object_info
  Reads-read_object_info e d v r =
      Reads-bind _ (Reads-from_string e.name v.name)
        (Reads-bind _ (Reads-from_string e.alba_id v.alba_id) (Reads-try_manifest e d v r))

-- The entries in order, without those that did not decode.
abbrev pub Outcomes : Type 0
Outcomes = List (Entry × Option Manifest)

module _ (uncompress : List ℕ → List ℕ) where
  abbrev pub decoded : Outcomes → List ObjectInfo
  decoded [] = []
  decoded ((e, d) ∷ es) = push (shown uncompress e d) (decoded es)

  abbrev pub outcome_bytes : Entry × Option Manifest → List ℕ
  outcome_bytes (e, d) = entry_bytes e

  abbrev pub IsListed : Entry × Option Manifest → Type 0
  IsListed (e, d) = IsEntry e × Decodes uncompress e d

  Reads-object_infos_loop :
      (es : Outcomes)
      → All IsListed es
      → Reads
          (object_infos_loop uncompress (length es))
          (concat_bytes outcome_bytes es)
          (decoded es)
  unfolding object_infos_loop concat_bytes
  Reads-object_infos_loop [] all = Reads-pure []
  Reads-object_infos_loop ((e, d) ∷ es) ((v, r), all) =
      Reads-bind _ (Reads-read_object_info uncompress e d v r)
        (Reads-last (push (shown uncompress e d)) (Reads-object_infos_loop es all))

  pub Reads-read_object_infos :
      (es : Outcomes)
      → length es ≤ 2 ^ 31
      → All IsListed es
      → Reads
          (read_object_infos uncompress)
          (le_bytes 4 (length es) ++ concat_bytes outcome_bytes es)
          (decoded es)
  unfolding read_object_infos
  Reads-read_object_infos es n all =
      Reads-bind _ (Reads-from_u32 (length es) (omega (arith, n)))
        (rw (le→leb _ _ n) (Reads-object_infos_loop es all))
