-- ===== src/Rdma.antt =====
-- `RDMA_transport` of cpp/include/rdma_transport.h and cpp/src/lib/rdma_transport.cc, over the calls of
-- librdmacm as an interface. An `int` and a 64-bit count of nanoseconds are their bit patterns, so that
-- a negative one is a large number. The constructor is not modelled: it only makes the socket.
pub mod Streams
pub mod Delivery
pub mod Sending
use alba.Base.{
  ℕ, zero, suc, ◌+◌, ◌-◌, ◌/◌, ◌%◌, ◌^◌, List, [], ◌∷◌, ◌++◌, Bool, ◌&&◌, Option, none, some,
  length, take, drop, u32, u64, ltb, leb, ◌==◌, if◌then◌else◌,
}
use alba.Exec.{Exec, returns, pure, raise, gets, modify, ◌>>=◌, ◌>>◌, transport_error}
use alba.Client.{Transport}

pub data Event : Type 0 where
  pollin pollout : Event

-- The calls on one socket; none is a negative result. The timeout of rpoll is an `int` of milliseconds.
-- Time, in nanoseconds of the steady clock, passes within the calls.
pub record Rsocket : Type 1 where
  pub State : Type 0
  pub now : State → ℕ
  pub rpoll : Event → ℕ → State → Option ℕ × State
  pub rsend : List ℕ → State → Option ℕ × State
  pub rrecv : ℕ → State → Option (List ℕ) × State

abbrev pub is_negative : ℕ → Bool
is_negative i = leb (2 ^ 31) i

-- `count() > 0` of a duration.
unfoldable pub is_positive : ℕ → Bool
is_positive d = ltb 0 d && ltb d (2 ^ 63)

-- `duration_cast` to milliseconds, which cuts off towards zero, as the `int` that rpoll takes.
unfoldable pub milliseconds : ℕ → ℕ
milliseconds d =
    if ltb d (2 ^ 63) then d / 1000000 % u32 else (u32 - (u64 - d) / 1000000 % u32) % u32

module _ (S : Rsocket) where
  pub record RdmaTransport : Type 0 where
    pub socket : S.State
    pub deadline : ℕ

  unfoldable pub on_socket {ℓ} : {A : Type ℓ} → (S.State → A × S.State) → Exec RdmaTransport A
  on_socket f c = (returns (f c.socket).0, record c { socket = (f c.socket).1 })

  -- `duration::max()` is the largest count; the sum wraps around.
  unfoldable pub expires_from_now : Option ℕ → RdmaTransport → RdmaTransport
  expires_from_now none c = record c { deadline = (S.now c.socket + (2 ^ 63 - 1)) % u64 }
  expires_from_now (some timeout) c = record c { deadline = (S.now c.socket + timeout) % u64 }

  unfoldable pub time_remaining : RdmaTransport → ℕ
  time_remaining c = (c.deadline + (u64 - S.now c.socket % u64)) % u64

  -- The tests of what rpoll, rsend and rrecv return.
  unfoldable pub check_poll : Option ℕ → Exec RdmaTransport (Unit {0})
  check_poll none = raise transport_error
  check_poll (some zero) = raise transport_error
  check_poll (some (suc n)) = pure tt

  unfoldable pub check_sent : Option ℕ → Exec RdmaTransport ℕ
  check_sent none = raise transport_error
  check_sent (some n) = pure n

  unfoldable pub check_read : Option (List ℕ) → Exec RdmaTransport (List ℕ)
  check_read none = raise transport_error
  check_read (some []) = raise transport_error
  check_read (some (b ∷ bs)) = pure (b ∷ bs)

  -- The loop of `write_exact` with what is left of the buffer, on fuel.
  unfoldable pub write_rounds : ℕ → List ℕ → ℕ → Exec RdmaTransport (Unit {0})
  write_rounds zero rest time = pure tt
  write_rounds (suc fuel) rest time = do
    rc ← on_socket (S.rpoll Event.pollout (milliseconds time))
    check_poll rc
    result ← on_socket (S.rsend rest)
    sent ← check_sent result
    time' ← gets time_remaining
    if ltb 0 (length rest - sent) && is_positive time'
        then write_rounds fuel (drop sent rest) time'
        else pure tt

  -- `len` is the `int` that the length is converted to.
  unfoldable pub write_exact : List ℕ → ℕ → Exec RdmaTransport (Unit {0})
  write_exact buf len =
      if len == 0
      then pure tt
      else if is_negative len
      then raise transport_error
      else (do time ← gets time_remaining; write_rounds len (take len buf) time)

  -- The loop of `read_exact`: the bytes it has put into the buffer.
  unfoldable pub read_rounds : ℕ → ℕ → ℕ → Exec RdmaTransport (List ℕ)
  read_rounds zero todo time = pure []
  read_rounds (suc fuel) todo time = do
    rc ← on_socket (S.rpoll Event.pollin (milliseconds time))
    check_poll rc
    result ← on_socket (S.rrecv todo)
    bytes ← check_read result
    time' ← gets time_remaining
    if ltb 0 (todo - length bytes) && is_positive time'
        then (do more ← read_rounds fuel (todo - length bytes) time'; pure (bytes ++ more))
        else pure bytes

  -- The buffer before, and the buffer afterwards.
  unfoldable pub read_exact : List ℕ → ℕ → Exec RdmaTransport (List ℕ)
  read_exact buf len =
      if len == 0 then pure buf else if is_negative len then raise transport_error else (do
        time ← gets time_remaining
        bytes ← read_rounds len len time
        pure (bytes ++ drop (length bytes) buf))

  -- The transport; a buffer to read into is fresh, with whatever it holds.
  unfoldable pub rdma_transport : (ℕ → List ℕ) → Transport
  rdma_transport fresh = record {
    State = RdmaTransport;
    expires_from_now = expires_from_now;
    write_exact = λ bytes. write_exact bytes (length bytes % u32);
    read_exact = λ n. read_exact (fresh n) (n % u32);
  }
