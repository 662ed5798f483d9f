-- ===== src/Runs/Replies.antt =====
-- A refused request, and slices of one object with a list of manifests behind them.
use alba.Base.{ℕ, ◌<◌, refl, List, [], ◌∷◌, ◌++◌, none, some, u32, le_bytes, arith}
use alba.Llio.Reads.{Reads}
use alba.Llio.From.{from_u32}
use alba.Llio.RoundTrip.{Reads-from_u32}
use alba.Manifest.Resilience.{decoded}
use alba.Proxy.Requests.{ObjectSlices}
use alba.Proxy.Responses.{read_response, read_read_objects_slices2_response}
use alba.Proxy.Replies.{
  refused, reply_bytes, answer, slices_bytes, Reads-read_response,
  Reads-read_read_objects_slices2_response,
}
use alba.Runs.Manifests.{uncompress, listed, listed-IsListed}

Reads-read_response_example :
    Reads
      (read_response from_u32)
      (reply_bytes (le_bytes 4) (refused 3 (110 ∷ [])))
      (answer (refused 3 (110 ∷ [])))
Reads-read_response_example =
    Reads-read_response {P = λ n. n < u32} Reads-from_u32 (refused 3 (110 ∷ []))
      (omega arith, (omega arith, omega arith))

abbrev pub asked_object : ObjectSlices
asked_object = record {
  object_name = 110 ∷ [];
  slices = record { offset = 0; size = 2 } ∷ record { offset = 4; size = 1 } ∷ [];
}

abbrev asked : List ObjectSlices
asked = asked_object ∷ []

abbrev pub sent : List (List (List ℕ))
sent = ((1 ∷ 2 ∷ []) ∷ (3 ∷ []) ∷ []) ∷ []

Reads-read_read_objects_slices2_response_example :
    Reads
      (read_read_objects_slices2_response uncompress asked)
      (le_bytes 4 0 ++ slices_bytes uncompress 3 sent listed)
      (record { return_code = 0; what = none }, some (sent, decoded uncompress listed))
Reads-read_read_objects_slices2_response_example =
    Reads-read_read_objects_slices2_response uncompress 3 asked sent listed (omega arith)
      ((refl, (refl, tt)), tt) (omega arith) listed-IsListed
