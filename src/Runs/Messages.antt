-- ===== src/Runs/Messages.antt =====
-- Messages: numbers, lists, checksums and encryption.
use alba.Base.{refl, ℕ, List, All, ◌≡◌, ◌↔◌, [], ◌∷◌, true, replicate, arith}
use alba.Llio.Reads.{Reads}
use alba.Llio.Builder.{Writes, add_raw, Writes-add_raw}
use alba.Llio.From.{from_varint}
use alba.Llio.To.{to_varint}
use alba.Llio.Layout.{varint_bytes}
use alba.Llio.VarintRoundTrip.{Reads-from_varint}
use alba.Llio.Writing.{Writes-to_varint}
use alba.Llio.Groups.{IsContinued, Reads-from_varint_groups, halts-from_varint}
use alba.Llio.Message.{message, from_string, message-Ahead}
use alba.Llio.Reader.{halts, bad_shift}
use alba.Checksum.{Checksum, sha1, crc32c, verify, verify_iff}

Reads-from_varint_example : Reads from_varint (varint_bytes 300) 300
Reads-from_varint_example = Reads-from_varint 300 (omega arith)

-- 300, in a group more than it needs.
Reads-from_varint_groups_example : Reads from_varint (172 ∷ 130 ∷ 0 ∷ []) 300
Reads-from_varint_groups_example =
    Reads-from_varint_groups (172 ∷ 130 ∷ []) 0
      ((omega arith, omega arith), ((omega arith, omega arith), tt)) (omega arith) (omega arith)

ten-IsContinued : All IsContinued (replicate 10 255)
ten-IsContinued = (byte, (byte, (byte, (byte, (byte, (byte, (byte, (byte, (byte, (byte, tt))))))))))
  where
    byte : IsContinued 255
    byte = (omega arith, omega arith)

abbrev eleven : List ℕ
eleven = replicate 11 255

halts-from_varint_example : from_varint (message (from_string eleven)) ≡ halts bad_shift
halts-from_varint_example =
    halts-from_varint (replicate 10 255) 255 (message (from_string eleven)) [] ten-IsContinued refl
      (omega arith) (message-Ahead eleven (omega arith))

Writes-to_varint_example : Writes (to_varint 300) (varint_bytes 300)
Writes-to_varint_example = Writes-to_varint 300 (omega arith)

Writes-add_raw_example : Writes (add_raw (1 ∷ 2 ∷ [])) (1 ∷ 2 ∷ [])
Writes-add_raw_example = Writes-add_raw (1 ∷ 2 ∷ [])

abbrev digest : Checksum
digest = sha1 (replicate 20 7)

verify_iff_example : (verify digest (crc32c 5) ≡ true) ↔ (digest ≡ crc32c 5)
verify_iff_example = verify_iff digest (crc32c 5)
