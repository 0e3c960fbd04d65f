-- ===== src/Stdio/Examples.antt =====
-- The theorems on calls over pipes at concrete inputs.
use lutra.Prelude.{false, true, [], ◌∷◌, ◌++◌, Option, none, some, ◌≡◌, refl, arith}
use lutra.Prelude.Bytes.{Bytes, has_prefix}
use lutra.Prelude.Results.{Error, ok, new_error, unknown}
use lutra.Stdio.Request.{Out, message, half_close, finished, send_request}
use lutra.Stdio.Streams.{Ends, streamed, whole, send_request-Ends, send_request-streamed}
use lutra.Stdio.Receive.{
  headers_kind, end_kind, Frame, Outside, arrives, call_done, plain_end, connect_type, left, fresh,
  receive,
}
use lutra.Stdio.Envelope.{read_prefix, prefix}
use lutra.Stdio.Answers.{Answered, receive-Answered}
use lutra.Stdio.Delivery.{arrivals, streaming, receive-streamed}
use lutra.Stdio.Calls.{registers, removes, fails, run_sections, new_transport}
use lutra.Stdio.Incoming.{Server, Incoming, Sendable, serve_incoming, serve_incoming-Sendable}
use lutra.Stdio.Sound.{Sound}
use lutra.Stdio.Held.{run_sections-Sound}

abbrev refusal : Error
refusal = new_error unknown "stdio frame exceeds limit"

-- A frame with an empty message is refused.
abbrev picky : Out → Option Error
picky (message []) = some refusal
picky (message (c ∷ cs)) = none
picky half_close = none

send_request-Ends_example :
    Ends
      (send_request picky true (record { content = streamed ((1 ∷ []) ∷ [] ∷ []); broken = true }))
send_request-Ends_example =
    send_request-Ends picky true (record { content = streamed ((1 ∷ []) ∷ [] ∷ []); broken = true })

send_request-streamed_example :
    send_request (λ out. none) true (whole (streamed ((1 ∷ 2 ∷ []) ∷ [] ∷ [])))
    ≡ (message (1 ∷ 2 ∷ []) ∷ message [] ∷ half_close ∷ [], finished)
send_request-streamed_example =
    send_request-streamed (λ out. none) ((1 ∷ 2 ∷ []) ∷ [] ∷ []) (omega arith, (omega arith, tt))
      (λ out. refl)

abbrev outside : Outside
outside = record {
  canonical = λ headers. headers;
  content_type = λ headers. connect_type ++ 106 ∷ [];
  end_text = λ metadata failure. 123 ∷ 125 ∷ [];
}

abbrev opening : Frame
opening = record {
  kind = headers_kind;
  headers = [];
  status = 200;
  value = [];
  trailers = [];
  failure = [];
}

abbrev ending : Frame
ending = record {
  kind = end_kind;
  headers = [];
  status = 0;
  value = [];
  trailers = [];
  failure = 123 ∷ [];
}

receive-Answered_example :
    Answered (receive outside (arrives opening none ∷ arrives opening none ∷ call_done ∷ []) fresh)
receive-Answered_example =
    receive-Answered outside (arrives opening none ∷ arrives opening none ∷ call_done ∷ [])

receive-streamed_example :
    (last : Bytes) × (receive outside
        (arrives opening none ∷ arrivals ((7 ∷ []) ∷ []) (arrives ending none ∷ []))
        fresh
      ≡ left
          (streaming
            (ok (record { status_code = 200; header = [] }) ∷ [])
            (streamed ((7 ∷ []) ∷ []) ++ last))
          plain_end)
    × (read_prefix last ≡ prefix 2 2 (123 ∷ 125 ∷ []))
unfolding has_prefix
receive-streamed_example =
    receive-streamed outside opening ending ((7 ∷ []) ∷ []) [] none (some (123 ∷ [])) refl refl refl
      refl (refl, (λ e. absurd (ground arith)), (λ e. absurd (ground arith))) (omega arith)

run_sections-Sound_example :
    Sound 4 (run_sections (registers ∷ registers ∷ removes 1 ∷ fails refusal ∷ []) new_transport)
run_sections-Sound_example =
    run_sections-Sound (registers ∷ registers ∷ removes 1 ∷ fails refusal ∷ []) (omega arith)

-- A handler that writes a text that is no JSON.
abbrev server : Server
server = record {
  handler = some (λ c message. record { code = 200; written_header = []; written = 1 ∷ [] });
  takes_path = λ path. true;
  is_canceled = false;
  json_valid = λ text. has_prefix text (123 ∷ []);
  error_text = λ code message. 123 ∷ 125 ∷ [];
  json_headers = [];
}

abbrev incoming_call : Incoming
incoming_call = record { call_path = 47 ∷ []; call_headers = []; messages = (123 ∷ 125 ∷ []) ∷ [] }

serve_incoming-Sendable_example : Sendable server (serve_incoming server incoming_call)
unfolding has_prefix
serve_incoming-Sendable_example =
    serve_incoming-Sendable server incoming_call (λ code message. refl)
