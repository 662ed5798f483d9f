-- ===== src/Asd/Client.antt =====
-- `Asd_client` of cpp/src/lib/asd_client.cc, over a transport. `_status` is passed on, as it is
-- overwritten before each look at it.
use alba.Base.{ℕ, List, [], ◌∷◌, Option, none, some, drop, ◌==◌, if◌then◌else◌, string_eq, le_value}
use alba.Exec.{
  asd_exception, Exec, pure, raise, gets, defined, modify, ◌>>=◌, ◌>>◌, read_from, within,
}
use alba.Llio.Reader.{Reader}
use alba.Llio.Builder.{Builder, Writer, message_builder, as_string, reset}
use alba.Client.{Transport, read_message, output}
use alba.Asd.Requests.{
  Slice, make_prologue, write_partial_get_request, write_set_slowness_request,
  write_get_version_request,
}
use alba.Asd.Responses.{
  read_partial_get_response, read_set_slowness_response, read_get_version_response,
}

-- The code of an asd that is not the one that was expected.
abbrev pub wrong_asd : ℕ
wrong_asd = 255

module _ (T : Transport) where
  pub record AsdClient : Type 0 where
    pub transport : T.State
    pub timeout : ℕ
    pub mb : Builder

  abbrev pub on_transport {ℓ} : {A : Type ℓ} → Exec T.State A → Exec AsdClient A
  on_transport = within (λ c. c.transport) (λ t c. record c { transport = t })

  unfoldable pub check_rc : ℕ → Exec T.State (Unit {0})
  check_rc rc = if rc == 0 then pure tt else raise (asd_exception rc)

  unfoldable pub check_long_id : Option (List ℕ) → List ℕ → Exec T.State (Unit {0})
  check_long_id none long_id2 = pure tt
  check_long_id (some long_id) long_id2 =
      if string_eq long_id long_id2 then pure tt else raise (asd_exception wrong_asd)

  -- The prologue is written without the size in front of it.
  unfoldable pub init_ : ℕ → Option (List ℕ) → Exec T.State (Unit {0})
  init_ timeout long_id = do
    modify (T.expires_from_now (some timeout))
    mb ← defined (make_prologue long_id message_builder)
    T.write_exact (drop 4 (as_string mb))
    rc ← T.read_exact 4
    check_rc (le_value rc)
    length ← T.read_exact 4
    long_id2 ← T.read_exact (le_value length)
    check_long_id long_id long_id2
    modify (T.expires_from_now none)

  -- The constructor.
  unfoldable pub asd_client : ℕ → Option (List ℕ) → Exec T.State AsdClient
  asd_client timeout long_id = do
    init_ timeout long_id
    t ← gets (λ t. t)
    pure (record { transport = t; timeout = timeout; mb = message_builder })

  unfoldable pub expires : Option ℕ → Exec AsdClient (Unit {0})
  expires timeout = on_transport (modify (T.expires_from_now timeout))

  -- What each method does up to the check of the status.
  unfoldable pub exchange {ℓ} : {A : Type ℓ} → Writer → Reader A → Exec AsdClient A
  exchange w r = do
    timeout ← gets (λ c. c.timeout)
    expires (some timeout)
    mb ← gets (λ c. c.mb)
    mb' ← defined (w mb)
    modify (λ c. record c { mb = mb' })
    on_transport (output T mb')
    modify (λ c. record c { mb = reset mb' })
    response ← on_transport (read_message T)
    read_from r response

  unfoldable pub check_status : ℕ → Exec AsdClient (Unit {0})
  check_status rc = if rc == 0 then pure tt else raise (asd_exception rc)

  -- The loop over the slices: what is read to each target.
  unfoldable pub read_slices : List Slice → Exec AsdClient (List (List ℕ))
  read_slices [] = pure []
  read_slices (slice ∷ slices) = do
    data_ ← on_transport (T.read_exact slice.length)
    rest ← read_slices slices
    pure (data_ ∷ rest)

  unfoldable pub partial_get : List ℕ → List Slice → Exec AsdClient (List (List ℕ))
  partial_get key slices = do
    (rc, success) ← exchange (write_partial_get_request key slices) read_partial_get_response
    check_status rc
    read ← read_slices slices
    expires none
    pure read

  unfoldable pub set_slowness : Option (ℕ × ℕ) → Exec AsdClient (Unit {0})
  set_slowness slowness = do
    rc ← exchange (write_set_slowness_request slowness) read_set_slowness_response
    check_status rc
    expires none

  unfoldable pub get_version : Exec AsdClient (ℕ × ℕ × ℕ × List ℕ)
  get_version = do
    (rc, version) ← exchange write_get_version_request read_get_version_response
    check_status rc
    expires none
    defined version
