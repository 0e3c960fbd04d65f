-- ===== src/Stdio/Request.antt =====
-- `sendRequest` of internal/taskstdio/transport.go.
use lutra.Prelude.{
  ℕ, zero, suc, Bool, not, ◌||◌, ◌&&◌, List, [], ◌∷◌, ◌++◌, Option, none, some, if◌then◌else◌, ◌==◌,
  leb, ltb, length,
}
use lutra.Prelude.Bytes.{Bytes}
use lutra.Prelude.Results.{Error}
use lutra.Stdio.Envelope.{max_line, Prefix, at_end, cut_off, prefix, read_prefix, read_full}

-- The frames of a request behind the one that opens it.
pub data Out : Type 0 where
  message : Bytes → Out
  half_close : Out

-- How the sending ends. `out_of_fuel` is the model's, and never seen (`send_messages-ends`).
pub data Ending : Type 0 where
  finished canceled out_of_fuel : Ending
  failed : Error → Ending

-- The request's body, and whether reading it ends with an error.
pub record Body : Type 0 where
  pub content : Bytes
  pub broken : Bool

abbrev pub Sending : Type 0
Sending = List Out × Ending

abbrev pub sent_first : Out → Sending → Sending
sent_first o (os, e) = (o ∷ os, e)

-- `t.send(frame)`, then the rest or `t.fail(err)`.
abbrev pub then_send : Option Error → Out → Sending → Sending
then_send none o rest = sent_first o rest
then_send (some e) o rest = ([], failed e)

-- The message whose body is read, and what comes behind it.
abbrev pub send_body :
    (Out → Option Error) → (Body → Sending) → Body → Option (Bytes × Bytes) → Sending
send_body send next b none = ([], canceled)
send_body send next b (some (body, rest)) =
    then_send (send (message body)) (message body) (next (record b { content = rest }))

abbrev pub send_prefix : (Out → Option Error) → (Body → Sending) → Body → Prefix → Sending
send_prefix send next b at_end = ([], if b.broken then canceled else finished)
send_prefix send next b cut_off = ([], canceled)
send_prefix send next b (prefix flags size rest) =
    if not (flags == 0) || leb max_line size
    then ([], canceled)
    else send_body send next b (read_full size rest)

-- The loop over the messages of a stream, up to `half_close`.
unfoldable pub send_messages : (Out → Option Error) → (fuel : ℕ) → Body → Sending
unfolding read_prefix read_full
send_messages send zero b = ([], out_of_fuel)
send_messages send (suc n) b = send_prefix send (send_messages send n) b (read_prefix b.content)

-- `io.LimitReader`
unfoldable pub limited : ℕ → Bytes → Bytes
limited zero text = []
limited (suc n) [] = []
limited (suc n) (c ∷ cs) = c ∷ limited n cs

abbrev pub close_half : (Out → Option Error) → Sending → Sending
close_half send (os, finished) = elim (send half_close) [
  | none ↦ (os ++ half_close ∷ [], finished)
  | some e ↦ (os, failed e)
]
close_half send (os, canceled) = (os, canceled)
close_half send (os, out_of_fuel) = (os, out_of_fuel)
close_half send (os, failed e) = (os, failed e)

-- A body that is not shorter than the limit is read no further, so its reader's error is not met.
unfoldable pub send_one : (Out → Option Error) → Body → Sending
unfolding limited
send_one send b =
    if b.broken && ltb (length b.content) max_line
    then ([], canceled)
    else let text = limited max_line b.content in
      then_send (send (message text)) (message text) ([], finished)

unfoldable pub send_request : (Out → Option Error) → (stream : Bool) → Body → Sending
unfolding send_messages send_one
send_request send stream b =
    close_half send
      (if stream then send_messages send (suc (length b.content)) b else send_one send b)
