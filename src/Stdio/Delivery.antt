-- ===== src/Stdio/Delivery.antt =====
-- The stream that the client reads from `receiveCall` of internal/taskstdio/transport.go.
use mathlib.Core.List.{append_assoc, append-nil}
use lutra.Prelude.{
  ◌⊎◌, inl, inr, ◌≢◌, ◌<◌, ◌^◌, arith, Bool-cases, true, List, [], ◌∷◌, ◌++◌, Option, none, some,
  length, ◌≡◌, refl, sym, ap, ◌∙◌,
}
use lutra.Prelude.Bytes.{Bytes, equal, equal-eq, has_prefix}
use lutra.Prelude.Results.{Result, ok}
use lutra.Stdio.Envelope.{envelope, read_prefix, prefix, read_prefix-envelope}
use lutra.Stdio.Streams.{streamed}
use lutra.Stdio.Receive.{
  headers_kind, message_kind, end_kind, Frame, Response, Outside, Receiver, Input, arrives, goes,
  stops, plain_end, connect_type, last_message, on_frame, on_input, leave, left, no_headers,
  some_failure, Headers, fresh, receive, Closing,
}

-- A frame with a message.
abbrev pub message_frame : Bytes → Frame
message_frame m = record {
  kind = message_kind;
  headers = [];
  status = 0;
  value = m;
  trailers = [];
  failure = [];
}

abbrev pub arrivals : List Bytes → List Input → List Input
arrivals [] rest = rest
arrivals (m ∷ ms) rest = arrives (message_frame m) none ∷ arrivals ms rest

-- A receiver whose response is a stream.
abbrev pub streaming : List (Result Response) → Bytes → Receiver
streaming results text = record {
  started = true;
  response_stream = true;
  results = results;
  text = text;
}

receive-arrivals :
    (x : Outside) (ms : List Bytes) (rest : List Input) (results : List (Result Response))
    (text : Bytes)
    → receive x (arrivals ms rest) (streaming results text)
      ≡ receive x rest (streaming results (text ++ streamed ms))
unfolding receive on_frame on_input
receive-arrivals x [] rest results text =
    ap (λ t. receive x rest (streaming results t)) (sym (append-nil text))
receive-arrivals x (m ∷ ms) rest results text =
    receive-arrivals x ms rest results (text ++ envelope 0 m)
    ∙ ap (λ t. receive x rest (streaming results t))
        (append_assoc text (envelope 0 m) (streamed ms))

module _ (x : Outside) (is : List Input) (i : Input) (r r' : Receiver) where
  receive-goes : on_input x i r ≡ goes r' → receive x (i ∷ is) r ≡ receive x is r'
  unfolding receive
  receive-goes e = rw (e, receive) refl

  receive-stops :
      (c : Closing) → on_input x i r ≡ stops r' c → receive x (i ∷ is) r ≡ left (leave r') c
  unfolding receive
  receive-stops c e = rw (e, receive) refl

abbrev answer_of : Outside → Frame → Result Response
answer_of x h = ok (record { status_code = h.status; header = x.canonical h.headers })

on_headers :
    (x : Outside) (h : Frame)
    → h.kind ≡ headers_kind
    → has_prefix (x.content_type (x.canonical h.headers)) connect_type ≡ true
    → on_input x (arrives h none) fresh ≡ goes (streaming (answer_of x h ∷ []) [])
unfolding on_input on_frame
on_headers x h opens stream =
    ap (λ k. on_frame x k h none fresh) opens
    ∙ ap
        (λ b.
          goes (record {
            started = true;
            response_stream = b;
            results = answer_of x h ∷ [];
            text = [];
          }))
        stream

on_end :
    (x : Outside) (e : Frame) (results : List (Result Response)) (text : Bytes)
    → e.kind ≡ end_kind
    → on_input x (arrives e none) (streaming results text)
      ≡ stops (streaming results (text ++ last_message x e)) plain_end
unfolding on_input on_frame
on_end x e results text ends = ap (λ k. on_frame x k e none (streaming results text)) ends

-- The metadata of the last message, by the trailers of the frame that ends the call.
abbrev pub Metadata : Headers → Option Headers → Type 0
Metadata trailers none = trailers ≡ []
Metadata trailers (some hs) = (trailers ≡ hs) × (hs ≢ [])

-- Its error, by the frame's: an empty one and the JSON text null are none.
abbrev pub Failure : Bytes → Option Bytes → Type 0
Failure text none = (text ≡ []) ⊎ (text ≡ 110 ∷ 117 ∷ 108 ∷ 108 ∷ [])
Failure text (some given) = (text ≡ given) × (given ≢ []) × (given ≢ 110 ∷ 117 ∷ 108 ∷ 108 ∷ [])

no_headers-Metadata :
    (trailers : Headers) (metadata : Option Headers)
    → Metadata trailers metadata
    → no_headers trailers ≡ metadata
no_headers-Metadata trailers none h = ap no_headers h
no_headers-Metadata [] (some hs) (h, given) = absurd (given (sym h))
no_headers-Metadata (t ∷ ts) (some hs) (h, given) = ap some h

some_failure-given :
    (given : Bytes)
    → given ≢ []
    → given ≢ 110 ∷ 117 ∷ 108 ∷ 108 ∷ []
    → some_failure given ≡ some given
some_failure-given [] filled valued = absurd (filled refl)
some_failure-given (c ∷ cs) filled valued =
    elim (Bool-cases (equal (c ∷ cs) (110 ∷ 117 ∷ 108 ∷ 108 ∷ []))) [
      | inl same ↦ absurd (valued (equal-eq (c ∷ cs) _ same))
      | inr other ↦ ground (arith, other)
    ]

some_failure-Failure :
    (text : Bytes) (failure : Option Bytes) → Failure text failure → some_failure text ≡ failure
unfolding equal
some_failure-Failure text none (inl h) = ap some_failure h
some_failure-Failure text none (inr h) = ap some_failure h
some_failure-Failure text (some given) (h, filled, valued) =
    ap some_failure h ∙ some_failure-given given filled valued

-- Where the writes into the pipe do not fail, a stream of messages behind its headers is written for
-- the client in the form of `envelope`, in order and whole, with one last message behind them, whose
-- flags are 2 and whose text is the JSON of the trailers and the error of the frame that ends the call;
-- the client gets the response once, and the call ends.
pub receive-streamed :
    (x : Outside) (h e : Frame) (ms : List Bytes) (rest : List Input) (metadata : Option Headers)
    (failure : Option Bytes)
    → h.kind ≡ headers_kind
    → e.kind ≡ end_kind
    → has_prefix (x.content_type (x.canonical h.headers)) connect_type ≡ true
    → Metadata e.trailers metadata
    → Failure e.failure failure
    → length (x.end_text metadata failure) < 2 ^ 32
    → (last : Bytes) × (receive x (arrives h none ∷ arrivals ms (arrives e none ∷ rest)) fresh
        ≡ left
            (streaming
              (ok (record { status_code = h.status; header = x.canonical h.headers }) ∷ [])
              (streamed ms ++ last))
            plain_end)
      × (read_prefix last
          ≡ prefix 2 (length (x.end_text metadata failure)) (x.end_text metadata failure))
receive-streamed x h e ms rest metadata failure opens ends stream m d small =
    let text = ap (envelope 2) (
      ap (λ a. x.end_text a (some_failure e.failure)) (no_headers-Metadata e.trailers metadata m)
      ∙ ap (x.end_text metadata) (some_failure-Failure e.failure failure d)) in
    (
      last_message x e,
      receive-goes x _ (arrives h none) fresh _ (on_headers x h opens stream)
          ∙ receive-arrivals x ms (arrives e none ∷ rest) (answer_of x h ∷ []) []
          ∙ receive-stops x rest (arrives e none) _ _ plain_end (on_end x e _ (streamed ms) ends),
      ap read_prefix (text ∙ sym (append-nil _))
          ∙ read_prefix-envelope 2 (x.end_text metadata failure) [] small
          ∙ ap (prefix 2 (length (x.end_text metadata failure))) (append-nil _),
    )
