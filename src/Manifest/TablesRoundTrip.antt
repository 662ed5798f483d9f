-- ===== src/Manifest/TablesRoundTrip.antt =====
-- The body of a version 1 manifest, which keeps the locations, the checksums and the sizes of the fragments
-- in three tables.
use alba.Base.{ℕ, ◌≤◌, ◌<◌, ◌^◌, List, ◌++◌, map, none, length, u32, u64, le_bytes, All}
use alba.Llio.Reads.{Reads}
use alba.Llio.Layout.{vector_bytes}
use alba.Checksum.{checksum_bytes, IsDigest}
use alba.Manifest.{Head}
use alba.Manifest.Fragments.{Location, Fragment}
use alba.Manifest.Format.{location_bytes, head_bytes, InOption}

-- One table of all chunks.
abbrev pub table : {A : Type 0} → (Fragment → A) → List (List Fragment) → List (List A)
table g chunks = map (λ fs. map g fs) chunks

unfoldable pub version1_bytes : Head → List (List Fragment) → ℕ → ℕ → ℕ → List ℕ
version1_bytes h chunks version_id max_disks_per_node timestamp =
    head_bytes h
    ++ (le_bytes 1 1
        ++ (vector_bytes (vector_bytes location_bytes) (table (λ f. f.loc) chunks)
            ++ (le_bytes 1 1
                ++ (vector_bytes (vector_bytes checksum_bytes) (table (λ f. f.crc) chunks)
                    ++ (le_bytes 1 1
                        ++ (vector_bytes (vector_bytes (le_bytes 4)) (table (λ f. f.len) chunks)
                            ++ (le_bytes 4 version_id
                                ++ (le_bytes 4 max_disks_per_node ++ le_bytes 8 timestamp))))))))

-- What the tables keep of a fragment.
abbrev pub tabled : Fragment → Fragment
tabled f = record { loc = f.loc; crc = f.crc; len = f.len; ctr = none; fnr = none }

abbrev pub IsLocation : Location → Type 0
IsLocation l = InOption (λ i. i < u64) l.0 × (l.1 < u32)

pub record IsTabled (f : Fragment) : Type 0 where
  pub loc : IsLocation f.loc
  pub crc : IsDigest f.crc
  pub len : f.len < u32

abbrev pub IsRow : {A : Type 0} → (A → Type 0) → List A → Type 0
IsRow P xs = All P xs × (length xs ≤ 2 ^ 31)
