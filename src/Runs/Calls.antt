-- ===== src/Runs/Calls.antt =====
-- Calls over a wire: one that is answered, one that is refused, one that cannot be sent, and a read of
-- slices.
use alba.Base.{
  ℕ, length, ◌+◌, ◌<◌, ◌^◌, ◌≡◌, refl, List, [], ◌∷◌, ◌++◌, Bool, true, false, none, some, le_bytes,
  arith,
}
use alba.Exec.{returns, raises, transport_error}
use alba.Llio.Builder.{
  Builder, max_message, message_builder, message_builder-IsValid, Writes, Writes-then,
}
use alba.Llio.From.{from_bool}
use alba.Llio.Layout.{string_bytes, bool_bytes, vector_bytes, concat_bytes}
use alba.Llio.Writing.{Writes-to_u32, Writes-to_string}
use alba.Llio.RoundTrip.{Reads-from_bool}
use alba.Manifest.Resilience.{decoded}
use alba.Rora.Key.{IsReset}
use alba.Proxy.Requests.{write_tag, write_namespace_exists_request}
use alba.Proxy.Responses.{read_response, read_flag_response}
use alba.Proxy.Replies.{refused, reply_bytes, slices_bytes}
use alba.Proxy.Written.{object_slices_bytes, slice_bytes}
use alba.Common.{x_uint64_bytes}
use alba.Client.{Client, exchange, call}
use alba.Client.Calls.{count_slow, read_objects_slices2}
use alba.Client.Exchange.{frame, exchange-unsent, outcome_of, call-Exchanges}
use alba.Client.Slices.{slices_request, slices_response, read_objects_slices2-Exchanges}
use alba.Runs.Manifests.{uncompress, listed, listed-IsListed}
use alba.Runs.Replies.{asked_object, sent}
use alba.Runs.Wires.{wire, wire-Exchanges}

abbrev client : List ℕ → Bool → Client wire
client coming open_ = record {
  transport = record { sent = []; coming = coming; open_ = open_; timeout = none };
  timeout = 7;
  mb = message_builder;
  counter = record { fast_path = 0; slow_path = 0 };
}

clean : IsReset message_builder
unfolding message_builder
clean = record { valid = message_builder-IsValid; bare = refl }

abbrev question : List ℕ
question = le_bytes 4 2 ++ string_bytes (110 ∷ [])

writes : Writes (write_namespace_exists_request (110 ∷ [])) question
unfolding write_namespace_exists_request write_tag
writes = Writes-then (Writes-to_u32 2) (Writes-to_string (110 ∷ []) (omega arith))

abbrev refusal : List ℕ
refusal = reply_bytes bool_bytes (refused 5 (119 ∷ []))

call-Exchanges_example :
    (mb' : Builder) × ((call wire
          (write_namespace_exists_request (110 ∷ []))
          (read_response from_bool)
          (client (frame refusal) true)
        ≡ (
          outcome_of (refused 5 (119 ∷ [])),
          record (client [] true) {
            transport = record { sent = frame question; coming = []; open_ = true; timeout = none };
            mb = mb';
          },
        ))
      × IsReset mb')
unfolding string_bytes le_bytes reply_bytes
call-Exchanges_example =
    call-Exchanges wire {P = λ b. Unit {0}} {bytes = bool_bytes} (λ b h. Reads-from_bool b)
      (write_namespace_exists_request (110 ∷ [])) question (refused 5 (119 ∷ []))
      (client (frame refusal) true) _ writes (omega arith) (omega arith, (omega arith, omega arith))
      (omega arith) clean (wire-Exchanges question refusal _ refl refl)

exchange-unsent_example :
    (mb' : Builder) × ((exchange wire
          (write_namespace_exists_request (110 ∷ []))
          read_flag_response
          (client [] false)
        ≡ (
          raises transport_error,
          record (client [] false) {
            transport = record { sent = []; coming = []; open_ = false; timeout = some 7 };
            mb = mb';
          },
        ))
      × (mb'.written ≡ message_builder.written ++ question))
unfolding string_bytes le_bytes
exchange-unsent_example =
    exchange-unsent wire (write_namespace_exists_request (110 ∷ [])) read_flag_response question
      writes (omega arith) (client [] false) clean transport_error _ refl

abbrev request : List ℕ
request = slices_request (115 ∷ []) (asked_object ∷ []) true

abbrev response : List ℕ
response = slices_response uncompress 3 sent listed

short : 4 + length request < max_message
unfolding slices_request le_bytes string_bytes vector_bytes concat_bytes object_slices_bytes
    slice_bytes bool_bytes
short = omega arith

small : length response < 2 ^ 31
unfolding slices_response slices_bytes le_bytes string_bytes concat_bytes x_uint64_bytes
small = omega arith

read_objects_slices2-Exchanges_example :
    (mb' : Builder) × ((read_objects_slices2 wire uncompress
          (115 ∷ [])
          (asked_object ∷ [])
          true
          (client (frame response) true)
        ≡ (
          returns (sent, decoded uncompress listed),
          record (client [] true) {
            transport = record { sent = frame request; coming = []; open_ = true; timeout = none };
            mb = mb';
            counter = count_slow 1 (record { fast_path = 0; slow_path = 0 });
          },
        ))
      × IsReset mb')
read_objects_slices2-Exchanges_example =
    read_objects_slices2-Exchanges wire uncompress (115 ∷ []) asked_object [] true 3 sent listed
      (client (frame response) true) _ (omega arith) ((omega arith, omega arith), tt) (omega arith)
      short (omega arith) ((refl, (refl, tt)), tt) (omega arith) listed-IsListed small clean
      (wire-Exchanges request response _ refl refl)
