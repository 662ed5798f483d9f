-- ===== src/Asd/Responses.antt =====
-- The responses of cpp/src/lib/asd_protocol.cc. An error has a code and no text.
use alba.Base.{ℕ, List, Bool, Option, none, some, ◌==◌, if◌then◌else◌}
use alba.Llio.Reader.{Reader, pure, ◌>>=◌}
use alba.Llio.From.{from_u32, from_i32, from_bool, from_string}

-- `read_status`, and behind the code 0 what the response carries.
unfoldable pub read_asd_response {ℓ} : {A : Type ℓ} → Reader A → Reader (ℕ × Option A)
read_asd_response body = do
  rc ← from_u32
  if rc == 0 then (do a ← body; pure (rc, some a)) else pure (rc, none)

unfoldable pub read_partial_get_response : Reader (ℕ × Option Bool)
read_partial_get_response = read_asd_response from_bool

unfoldable pub read_set_slowness_response : Reader ℕ
read_set_slowness_response = from_u32

unfoldable pub read_get_version_response : Reader (ℕ × Option (ℕ × ℕ × ℕ × List ℕ))
read_get_version_response = read_asd_response (do
  major ← from_i32
  minor ← from_i32
  patch ← from_i32
  hash ← from_string
  pure (major, minor, patch, hash))
