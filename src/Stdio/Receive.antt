-- ===== src/Stdio/Receive.antt =====
-- `receiveCall` of internal/taskstdio/transport.go.
use lutra.Prelude.{
  ℕ, Bool, true, false, not, ◌&&◌, List, [], ◌∷◌, ◌++◌, Option, none, some, if◌then◌else◌, ltb,
  length,
}
use lutra.Prelude.Bytes.{Bytes, equal, has_prefix}
use lutra.Prelude.Results.{Error, Result, ok, err, new_error, unknown}
use lutra.Stdio.Envelope.{envelope}

abbrev pub Headers : Type 0
Headers = List (Bytes × List Bytes)

-- The types that the code tells apart; every other text is `other`.
pub data Kind : Type 0 where
  headers_kind message_kind error_kind end_kind other_kind : Kind

-- A frame that comes in for a call.
pub record Frame : Type 0 where
  pub kind : Kind
  pub headers : Headers
  pub status : ℕ
  pub value : Bytes
  pub trailers : Headers
  pub failure : Bytes

pub record Response : Type 0 where
  pub status_code : ℕ
  pub header : Headers

-- What the code takes from elsewhere: the headers with canonical keys, the value of Content-Type in
-- them, and the JSON text of the last message.
pub record Outside : Type 0 where
  pub canonical : Headers → Headers
  pub content_type : Headers → Bytes
  pub end_text : Option Headers → Option Bytes → Bytes

-- `results` is what has been sent on `ready`, `text` what has been written into the pipe.
pub record Receiver : Type 0 where
  pub started : Bool
  pub response_stream : Bool
  pub results : List (Result Response)
  pub text : Bytes

-- What the loop meets: a frame, with the error of writing into the pipe if it writes, the end of the
-- request's context, or that of the call. A write returns when the other end has read it or is closed:
-- where one does not return, nothing is met after it.
pub data Input : Type 0 where
  arrives : Frame → Option Error → Input
  context_done : Error → Input
  call_done : Input

-- How the call ends: with the error that the pipe is closed with, and whether the peer is told.
pub record Closing : Type 0 where
  pub pipe_error : Option Error
  pub cancels : Bool

pub data Next : Type 0 where
  goes : Receiver → Next
  stops : Receiver → Closing → Next
  blocks : Receiver → Next

abbrev pub plain_end : Closing
plain_end = record { pipe_error = none; cancels = false }

-- "application/connect+"
abbrev pub connect_type : Bytes
connect_type =
    97 ∷ 112 ∷ 112 ∷ 108 ∷ 105 ∷ 99 ∷ 97 ∷ 116 ∷ 105 ∷ 111 ∷ 110 ∷ 47 ∷ 99 ∷ 111 ∷ 110 ∷ 110 ∷ 101
    ∷ 99 ∷ 116 ∷ 43 ∷ []

-- "null"
abbrev null : Bytes
null = 110 ∷ 117 ∷ 108 ∷ 108 ∷ []

abbrev pub no_headers : Headers → Option Headers
no_headers [] = none
no_headers (h ∷ hs) = some (h ∷ hs)

abbrev pub some_failure : Bytes → Option Bytes
some_failure text = if ltb 0 (length text) && not (equal text null) then some text else none

abbrev pub last_message : Outside → Frame → Bytes
last_message x f = envelope 2 (x.end_text (no_headers f.trailers) (some_failure f.failure))

abbrev pub open_response : Outside → Frame → Receiver → Receiver
open_response x f r = record r {
  started = true;
  response_stream = has_prefix (x.content_type (x.canonical f.headers)) connect_type;
  results =
      r.results ++ ok (record { status_code = f.status; header = x.canonical f.headers }) ∷ [];
}

-- Before the headers no one has the other end of the pipe to read it: a write returns only with the
-- error of an end that is closed.
abbrev pub unread : Option Error → Receiver → Next
unread none r = blocks r
unread (some e) r = stops r plain_end

-- A write into the pipe that fails ends the call.
abbrev pub write_text : Option Error → Bytes → Receiver → Next
write_text none text r = goes (record r { text = r.text ++ text })
write_text (some e) text r = stops r plain_end

abbrev pub body_of : Bool → Bytes → Bytes
body_of true value = envelope 0 value
body_of false value = value

-- The last message is written whether or not the write fails.
abbrev pub end_text_of : Outside → Frame → Option Error → Receiver → Receiver
end_text_of x f none r = record r { text = r.text ++ last_message x f }
end_text_of x f (some e) r = r

unfoldable pub on_frame : Outside → Kind → Frame → Option Error → Receiver → Next
unfolding equal has_prefix
on_frame x headers_kind f w r = if r.started then stops r plain_end else goes (open_response x f r)
on_frame x message_kind f w r =
    if not r.started then stops r plain_end else write_text w (body_of r.response_stream f.value) r
on_frame x error_kind f w r = if r.started then write_text w f.value r else unread w r
on_frame x end_kind f w r =
    if r.response_stream then stops (end_text_of x f w r) plain_end else stops r plain_end
on_frame x other_kind f w r = goes r

abbrev connection_closed : Error
connection_closed = new_error unknown "stdio connection closed"

unfoldable pub on_input : Outside → Input → Receiver → Next
unfolding on_frame
on_input x (arrives f w) r = on_frame x f.kind f w r
on_input x (context_done e) r = stops r (record { pipe_error = some e; cancels = true })
on_input x call_done r = stops r (record { pipe_error = some connection_closed; cancels = false })

abbrev no_headers_yet : Error
no_headers_yet = new_error unknown "stdio response ended before headers"

-- The deferred functions.
abbrev pub leave : Receiver → Receiver
leave r = if r.started then r else record r { results = r.results ++ err no_headers_yet ∷ [] }

-- `waits` for more input, `left` for good, or `blocked` in a write that no one reads.
pub data Received : Type 0 where
  waits : Receiver → Received
  left : Receiver → Closing → Received
  blocked : Receiver → Received

abbrev pub fresh : Receiver
fresh = record { started = false; response_stream = false; results = []; text = [] }

unfoldable pub receive : Outside → List Input → Receiver → Received
unfolding on_input
receive x [] r = waits r
receive x (i ∷ is) r = elim (on_input x i r) [
  | goes r' ↦ receive x is r'
  | stops r' c ↦ left (leave r') c
  | blocks r' ↦ blocked r'
]
