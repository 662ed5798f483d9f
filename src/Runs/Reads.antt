-- ===== src/Runs/Reads.antt =====
-- A read in parts of an encrypted text, and reads of slices with a client.
use alba.Base.{ℕ, ◌-◌, ◌*◌, ◌^◌, ◌≤◌, ◌≡◌, refl, List, [], ◌∷◌, true, false, some, le_bytes, arith}
use alba.Exec.{raises, process_down}
use alba.Exec.Triples.{Ends}
use alba.Llio.Builder.{Builder, message_builder, message_builder-IsValid}
use alba.Llio.Layout.{string_bytes}
use alba.Encryption.{Encrypted, aes, ctr, l256}
use alba.Encryption.Decrypt.{partial_decrypt}
use alba.Encryption.Blocks.{counter_bytes}
use alba.Encryption.Streams.{stream, mixed, partial_decrypt-mixed}
use alba.Proxy.Replies.{refused, reply_bytes}
use alba.Client.Exchange.{frame}
use alba.Rora.Key.{IsReset}
use alba.Rora.Client.{RoraClient}
use alba.Rora.Keys.{get_encryption_key}
use alba.Rora.Reads.{ObjectTargets, read_objects_slices, fast_path}
use alba.Rora.Choice.{read_objects_slices-reopened}
use alba.Rora.Invariant.{IsWithin, read_objects_slices-IsWithin}
use alba.Rora.Digests.{get_encryption_key-HasDigest}
use alba.Rora.Refusals.{no_bytes, read_objects_slices-refused}
use alba.Runs.Wires.{wire-Exchanges}
use alba.Runs.Worlds.{block, mix, cipher, key, cipher-IsCounterMode, world, rora}

abbrev info : Encrypted
info = record { algo = aes; mode = ctr; key_length = l256; key_identification = key }

-- The low word of the counter overflows within the text.
partial_decrypt-mixed_example :
    partial_decrypt cipher info (1 ∷ 2 ∷ 3 ∷ []) key (counter_bytes (2 ^ 64 - 1)) 20
    ≡ some (true, mixed mix (stream (block key) (2 ^ 64 - 1)) 20 (1 ∷ 2 ∷ 3 ∷ []))
partial_decrypt-mixed_example =
    partial_decrypt-mixed cipher block mix key cipher-IsCounterMode info (1 ∷ 2 ∷ 3 ∷ [])
      (2 ^ 64 - 1) 20 refl (omega arith) (omega arith)

abbrev objects : List ObjectTargets
objects =
    record { object_name = 110 ∷ []; slices = record { target = 0; offset = 3; size = 9 } ∷ [] }
    ∷ []

abbrev failing : RoraClient world
failing = rora 101 [] ((97 ∷ []) ∷ [])

failing-IsWithin : IsWithin world 101 failing
failing-IsWithin = record { few = omega arith; keyed = (refl, tt) }

read_objects_slices-reopened_example :
    (n : ℕ) × ((n ≤ 100)
      × (read_objects_slices world (126 * 10 ^ 9) (127 * 10 ^ 9) (115 ∷ []) objects false failing
          ≡ fast_path world
              (126 * 10 ^ 9)
              (127 * 10 ^ 9)
              (115 ∷ [])
              objects
              false
              (record failing { fast_path_failures = n })))
read_objects_slices-reopened_example =
    read_objects_slices-reopened world (126 * 10 ^ 9) (127 * 10 ^ 9) (115 ∷ []) objects false
      failing refl (omega arith)

read_objects_slices-IsWithin_example :
    IsWithin world 101
      (read_objects_slices world (126 * 10 ^ 9) (127 * 10 ^ 9) (115 ∷ []) objects false failing).1
read_objects_slices-IsWithin_example =
    read_objects_slices-IsWithin world (126 * 10 ^ 9) (127 * 10 ^ 9) (115 ∷ []) objects false
      failing failing-IsWithin

get_encryption_key-HasDigest_example :
    Ends
      (λ found s'. (some found ≡ some key) × IsWithin world 101 s')
      (IsWithin world 101)
      (get_encryption_key world (97 ∷ []) 5 key failing)
get_encryption_key-HasDigest_example =
    get_encryption_key-HasDigest world 101 (97 ∷ []) 5 key failing failing-IsWithin

-- The proxy does not know the operation.
abbrev refusal : List ℕ
refusal = reply_bytes {A = ℕ} no_bytes (refused 13 (117 ∷ []))

abbrev refused_client : RoraClient world
refused_client = rora 0 (frame refusal) []

clean : IsReset message_builder
unfolding message_builder
clean = record { valid = message_builder-IsValid; bare = refl }

read_objects_slices-refused_example :
    (mb' : Builder) × (read_objects_slices world 8 9 (115 ∷ []) objects false refused_client ≡ (
      raises process_down,
      record refused_client {
        delegate = record refused_client.delegate {
          transport = record {
            sent = frame (le_bytes 4 28);
            coming = [];
            open_ = true;
            timeout = some 7;
          };
          mb = mb';
        };
        access = record refused_client.access { alba_levels = []; osd_maps = []; filling = false };
      },
    ))
unfolding reply_bytes le_bytes string_bytes
read_objects_slices-refused_example =
    read_objects_slices-refused world 8 9 (115 ∷ [])
      (record { object_name = 110 ∷ []; slices = record { target = 0; offset = 3; size = 9 } ∷ [] })
      [] false refused_client 13 (117 ∷ []) _ (omega arith) refl refl refl (omega arith)
      (omega arith) (omega arith) (omega arith) clean
      (wire-Exchanges (le_bytes 4 28) refusal _ refl refl)
