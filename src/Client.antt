-- ===== src/Client.antt =====
-- `Transport` of cpp/include/transport.h and cpp/src/lib/transport.cc, and how `GenericProxy_client` of
-- cpp/src/lib/generic_proxy_client.cc makes a call over it. `_status` is no member here: each response
-- overwrites it before `check_status` looks at it, so it is passed on.
pub mod Calls
pub mod Exchange
pub mod Slices
use alba.Base.{ℕ, ◌+◌, List, Bool, Option, none, some, if◌then◌else◌, le_bytes, le_value}
use alba.Exec.{
  Fault, Exec, pure, raise, gets, defined, modify, ◌>>=◌, ◌>>◌, read_from, within, proxy_exception,
}
use alba.Llio.Message.{Message, message, from_string}
use alba.Llio.Reader.{Reader}
use alba.Llio.Builder.{Builder, Writer, message_builder, output_using, reset}
use alba.Proxy.Responses.{Status, is_ok, read_empty_response}

-- The virtual methods. A timeout is a number of ticks, or `duration::max()`.
pub record Transport : Type 1 where
  pub State : Type 0
  pub expires_from_now : Option ℕ → State → State
  pub write_exact : List ℕ → Exec State (Unit {0})
  pub read_exact : ℕ → Exec State (List ℕ)

-- `RoraCounter`.
pub record RoraCounter : Type 0 where
  pub fast_path : ℕ
  pub slow_path : ℕ

module _ (T : Transport) where
  -- `message_buffer::from_reader`, and the view on the buffer.
  unfoldable pub read_message : Exec T.State Message
  read_message = do
    size ← T.read_exact 4
    data_ ← T.read_exact (le_value size)
    pure (message (from_string data_))

  unfoldable pub output : Builder → Exec T.State (Unit {0})
  output mb = T.write_exact (output_using mb)

  -- The members; `counter` is the counter that the methods are given a reference to.
  pub record Client : Type 0 where
    pub transport : T.State
    pub timeout : ℕ
    pub mb : Builder
    pub counter : RoraCounter

  abbrev pub on_transport {ℓ} : {A : Type ℓ} → Exec T.State A → Exec Client A
  on_transport = within (λ c. c.transport) (λ t c. record c { transport = t })

  abbrev pub magic : ℕ
  magic = 1148837403

  abbrev pub version : ℕ
  version = 1

  unfoldable pub init_ : ℕ → Exec T.State (Unit {0})
  init_ timeout = do
    modify (T.expires_from_now (some timeout))
    T.write_exact (le_bytes 4 magic)
    T.write_exact (le_bytes 4 version)
    modify (T.expires_from_now none)

  -- The constructor.
  unfoldable pub generic_proxy_client : ℕ → RoraCounter → Exec T.State Client
  generic_proxy_client timeout counter = do
    init_ timeout
    t ← gets (λ t. t)
    pure (record { transport = t; timeout = timeout; mb = message_builder; counter = counter })

  unfoldable pub expires : Option ℕ → Exec Client (Unit {0})
  expires timeout = on_transport (modify (T.expires_from_now timeout))

  -- A request is put into the builder; a write outside its buffer is undefined.
  unfoldable pub write_request : Writer → Exec Client (Unit {0})
  write_request w = do
    mb ← gets (λ c. c.mb)
    mb' ← defined (w mb)
    modify (λ c. record c { mb = mb' })

  unfoldable pub output_ : Exec Client (Unit {0})
  output_ = do
    mb ← gets (λ c. c.mb)
    on_transport (output mb)
    modify (λ c. record c { mb = reset mb })

  unfoldable pub input_ : Exec Client Message
  input_ = on_transport read_message

  unfoldable pub check_status : Status → Exec Client (Unit {0})
  check_status status = do
    expires none
    if is_ok status then pure tt else raise (proxy_exception status.return_code status.what)

  -- What each method does up to its response.
  unfoldable pub exchange {ℓ} : {A : Type ℓ} → Writer → Reader A → Exec Client A
  exchange w r = do
    timeout ← gets (λ c. c.timeout)
    expires (some timeout)
    write_request w
    output_
    response ← input_
    read_from r response

  -- The same with the check of the status; a result that was not read is not initialised.
  unfoldable pub call {ℓ} : {A : Type ℓ} → Writer → Reader (Status × Option A) → Exec Client A
  call w r = do (status, value) ← exchange w r; check_status status; defined value

  unfoldable pub command : Writer → Exec Client (Unit {0})
  command w = do status ← exchange w read_empty_response; check_status status
