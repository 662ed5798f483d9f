-- ===== src/Client/Exchange.antt =====
-- A call over a transport: what goes out, what comes back, and the builder in between.
use alba.Base.{
  ℕ, ◌+◌, ◌-◌, ◌%◌, ◌^◌, ◌<◌, ◌≡◌, refl, ap, ◌∙◌, List, [], ◌++◌, none, some, length, length-append,
  length-take, take, drop, drop-length-append, append-nil, u32, le_bytes, le_value-le_bytes,
  ==_false, arith,
}
use alba.Exec.{
  Fault, Result, returns, raises, proxy_exception, pure, raise, gets, defined, modify, ◌>>=◌,
  outcome, read_from, within,
}
use alba.Llio.Message.{message, message-Ahead, from_string}
use alba.Llio.Reader.{Reader}
use alba.Llio.Reads.{Reads}
use alba.Llio.Builder.{Builder, Writer, Writes, IsValid, max_message, output_using, reset}
use alba.Rora.Key.{IsReset}
use alba.Proxy.Responses.{is_ok, read_response}
use alba.Proxy.Replies.{Reply, accepted, refused, reply_bytes, answer, IsReply, Reads-read_response}
use alba.Client.{
  Transport, Client, read_message, output, expires, write_request, output_, input_, check_status,
  exchange, call,
}

-- A message on the wire: its size, and its bytes.
unfoldable pub frame : List ℕ → List ℕ
frame bytes = le_bytes 4 (length bytes) ++ bytes

-- The transport, in state t, takes the request and gives the response, after which it is in state t'.
pub record Exchanges (T : Transport) (request response : List ℕ) (t t' : T.State) : Type 0 where
  pub sent : T.State
  pub sized : T.State
  pub writes : T.write_exact (frame request) t ≡ (returns tt, sent)
  pub reads_size : T.read_exact 4 sent ≡ (returns (le_bytes 4 (length response)), sized)
  pub reads : T.read_exact (length response) sized ≡ (returns response, t')

output_using-frame :
    (mb mb' : Builder) (req : List ℕ)
    → IsReset mb
    → mb'.written ≡ mb.written ++ req
    → 4 + length req < max_message
    → output_using mb' ≡ frame req
unfolding output_using frame
output_using-frame mb mb' req h e n =
    let size : (length mb'.written + u32 - 4) % u32 ≡ length req =
      omega (arith, ap length e, length-append mb.written req, h.bare, n) in
    let rest : drop 4 mb'.written ≡ req = rw (e, ← h.bare) (drop-length-append mb.written req) in
    rw (size, rest) refl

reset-IsReset : (mb : Builder) → IsValid mb → IsReset (reset mb)
unfolding reset
reset-IsReset mb v =
    let bare : length (take 4 mb.written) ≡ 4 =
      length-take 4 mb.written ∙ omega (arith, v.header) in
    record {
      valid = record {
        header = omega (arith, bare);
        fits = omega (arith, bare, v.header, v.fits);
        bounded = v.bounded;
      };
      bare = bare;
    }

-- A call of which the request is written as its bytes.
module _ (T : Transport) {A : Type 0} (w : Writer) (r : Reader A) (req : List ℕ)
    (writes : Writes w req) (short : 4 + length req < max_message) (c : Client T)
    (clean : IsReset c.mb) where
  abbrev ready : T.State → Builder → Client T
  ready t mb = record c { transport = t; mb = mb }

  abbrev timed : T.State
  timed = T.expires_from_now (some c.timeout) c.transport

  module _ (mb' : Builder) (e : w c.mb ≡ some mb') (wr : mb'.written ≡ c.mb.written ++ req) where
    write_request-step : write_request T w (ready timed c.mb) ≡ (returns tt, ready timed mb')
    unfolding write_request gets modify defined ◌>>=◌
    write_request-step = rw (e, defined) refl

    output-step :
        (o : Result (Unit {0}) × T.State)
        → T.write_exact (frame req) timed ≡ o
        → output T mb' timed ≡ o
    unfolding output
    output-step o h = rw (output_using-frame c.mb mb' req clean wr short, output) h

    exchange-thrown :
        (f : Fault) (t : T.State)
        → T.write_exact (frame req) timed ≡ (raises f, t)
        → exchange T w r c ≡ (raises f, ready t mb')
    unfolding exchange expires output_ gets modify within ◌>>=◌
    exchange-thrown f t h = rw (write_request-step, output-step (raises f, t) h, output_) refl

  -- Where the transport throws while the request is sent, the exception is passed on and the builder
  -- keeps the request, in front of whatever the next call writes.
  pub exchange-unsent :
      (f : Fault) (t : T.State)
      → T.write_exact (frame req) (T.expires_from_now (some c.timeout) c.transport) ≡ (raises f, t)
      → (mb' : Builder) × ((exchange T w r c ≡ (raises f, record c { transport = t; mb = mb' }))
          × (mb'.written ≡ c.mb.written ++ req))
  exchange-unsent f t h =
      let (mb', e, wr, v) = writes.at c.mb clean.valid (omega (arith, clean.bare, short)) in
      (mb', (exchange-thrown mb' e wr f t h, wr))

  module _ (resp : List ℕ) (a : A) (reads : Reads r resp a) (small : length resp < 2 ^ 31)
      (t' : T.State) (over : Exchanges T req resp timed t') where
    read_message-Exchanges : read_message T over.sent ≡ (returns (message (from_string resp)), t')
    unfolding read_message ◌>>=◌ pure
    read_message-Exchanges =
        rw (over.reads_size, le_value-le_bytes 4 (length resp) (omega (arith, small)), over.reads)
          refl

    outcome-Reads : outcome (r (message (from_string resp))) ≡ returns a
    unfolding outcome
    outcome-Reads =
        rw
          (reads.at (message (from_string resp)) []
            (rw (append-nil resp) (message-Ahead resp small)))
          refl

    module _ (mb' : Builder) (e : w c.mb ≡ some mb') (wr : mb'.written ≡ c.mb.written ++ req) where
      output_-step : output_ T (ready timed mb') ≡ (returns tt, ready over.sent (reset mb'))
      unfolding output_ gets modify within ◌>>=◌
      output_-step = rw (output-step mb' e wr (returns tt, over.sent) over.writes, output_) refl

      input_-step :
          input_ T (ready over.sent (reset mb'))
          ≡ (returns (message (from_string resp)), ready t' (reset mb'))
      unfolding input_ within
      input_-step = rw read_message-Exchanges refl

      exchange-written : exchange T w r c ≡ (returns a, ready t' (reset mb'))
      unfolding exchange expires gets modify within ◌>>=◌ read_from
      exchange-written =
          rw (write_request-step mb' e wr, output_-step, input_-step, outcome-Reads) refl

    -- A call sends the frame of its request, reads the response, and leaves the builder reset.
    pub exchange-Exchanges :
        (mb' : Builder) × ((exchange T w r c ≡ (returns a, record c { transport = t'; mb = mb' }))
          × IsReset mb')
    exchange-Exchanges =
        let (mb', e, wr, v) = writes.at c.mb clean.valid (omega (arith, clean.bare, short)) in
        (reset mb', (exchange-written mb' e wr, reset-IsReset mb' v))

abbrev pub outcome_of : {A : Type 0} → Reply A → Result A
outcome_of (accepted a) = returns a
outcome_of (refused rc what) = raises (proxy_exception rc (some what))

module _ (T : Transport) {A : Type 0} {P : A → Type 0} {body : Reader A} {bytes : A → List ℕ}
    (reads : (a : A) → P a → Reads body (bytes a) a) where
  checked :
      (w : Writer) (reply : Reply A) (c c' : Client T)
      → IsReply P reply
      → exchange T w (read_response body) c ≡ (returns (answer reply), c')
      → call T w (read_response body) c
        ≡ (outcome_of reply, record c' { transport = T.expires_from_now none c'.transport })
  unfolding call check_status is_ok expires modify within ◌>>=◌ pure raise defined
  checked w (accepted a) c c' h e = rw e refl
  checked w (refused rc what) c c' (h, k) e = rw (e, ==_false rc 0 (λ z. omega (arith, z, h))) refl

  -- Where the request is written as its bytes and the body of the response is read back, a call over a
  -- transport that takes the frame of the request and gives the frame of a reply returns the value that
  -- was accepted, or throws the code and the text of the refusal; either way the timeout is taken off
  -- and the builder is reset for the next call.
  pub call-Exchanges :
      (w : Writer) (req : List ℕ) (reply : Reply A) (c : Client T) (t' : T.State)
      → Writes w req
      → 4 + length req < max_message
      → IsReply P reply
      → length (reply_bytes bytes reply) < 2 ^ 31
      → IsReset c.mb
      → Exchanges T req
          (reply_bytes bytes reply)
          (T.expires_from_now (some c.timeout) c.transport)
          t'
      → (mb' : Builder) × ((call T w (read_response body) c
            ≡ (outcome_of reply, record c { transport = T.expires_from_now none t'; mb = mb' }))
          × IsReset mb')
  call-Exchanges w req reply c t' writes short h small clean over =
      let (mb', (e, r)) =
        exchange-Exchanges T w (read_response body) req writes short c clean
          (reply_bytes bytes reply) (answer reply) (Reads-read_response reads reply h) small t'
          over in
      (mb', (checked w reply c (record c { transport = t'; mb = mb' }) h e, r))
