-- ===== src/Stdio/Streams.antt =====
-- The messages that `sendRequest` of internal/taskstdio/transport.go makes of a stream's body.
use lutra.Prelude.{
  ℕ, ◌<◌, ◌≤◌, ◌≢◌, zero, suc, Bool, true, false, not, ◌||◌, ◌&&◌, List, [], ◌∷◌, ◌++◌, Option,
  none, some, ◌==◌, leb, ltb, length, ◌≡◌, refl, ap, ◌∙◌, arith, if_ind,
}
use lutra.Prelude.Bytes.{Bytes}
use lutra.Prelude.Results.{Error}
use lutra.Stdio.Envelope.{
  max_line, Prefix, at_end, cut_off, prefix, envelope, read_prefix, read_full, read_prefix-envelope,
  read_full-append, read_full-length, read_prefix-length,
}
use lutra.Stdio.Request.{
  Out, message, half_close, finished, canceled, out_of_fuel, failed, Body, Sending, then_send,
  send_body, send_prefix, send_messages, send_request, sent_first, close_half, send_one, limited,
}

-- The model's fuel is not what ends the sending.
abbrev pub Ends : Sending → Type 0
Ends s = s.1 ≢ out_of_fuel

module _ (send : Out → Option Error) where
  then_send-Ends :
      (o : Option Error) (out : Out) (rest : Sending) → Ends rest → Ends (then_send o out rest)
  then_send-Ends none out rest h = h
  then_send-Ends (some e) out rest h = λ q. absurd (ground arith)

  send_body-Ends :
      (next : Body → Sending) (b : Body) (size : ℕ) (rest : Bytes) (o : Option (Bytes × Bytes))
      → read_full size rest ≡ o
      → ((b' : Body) → length b'.content ≤ length rest → Ends (next b'))
      → Ends (send_body send next b o)
  send_body-Ends next b size rest none e h = λ q. absurd (ground arith)
  send_body-Ends next b size rest (some (body, rest')) e h =
      then_send-Ends (send (message body)) (message body) _
        (h (record b { content = rest' }) (read_full-length size rest body rest' e))

  send_prefix-Ends :
      (next : Body → Sending) (b : Body) (p : Prefix)
      → read_prefix b.content ≡ p
      → ((b' : Body) → length b'.content < length b.content → Ends (next b'))
      → Ends (send_prefix send next b p)
  send_prefix-Ends next b at_end e h = λ q. absurd (ground arith)
  send_prefix-Ends next b cut_off e h = λ q. absurd (ground arith)
  send_prefix-Ends next b (prefix flags size rest) e h =
      if_ind Ends (not (flags == 0) || leb max_line size) (λ _ q. absurd (ground arith))
        (λ _.
          send_body-Ends next b size rest (read_full size rest) refl
            (λ b' le. h b' (ground (arith, read_prefix-length b.content flags size rest e))))

  -- With more fuel than the body has bytes the loop ends by itself.
  pub send_messages-Ends : (n : ℕ) (b : Body) → length b.content < n → Ends (send_messages send n b)
  unfolding send_messages
  send_messages-Ends zero b more = absurd (omega arith)
  send_messages-Ends (suc n) b more =
      send_prefix-Ends (send_messages send n) b (read_prefix b.content) refl
        (λ b' less. send_messages-Ends n b' (omega arith))

  close_half-Ends : (s : Sending) → Ends s → Ends (close_half send s)
  close_half-Ends (os, canceled) h = h
  close_half-Ends (os, out_of_fuel) h = h
  close_half-Ends (os, failed e) h = h
  close_half-Ends (os, finished) h = by_answer (send half_close)
    where
      by_answer :
          (o : Option Error)
          → Ends (elim o [ none ↦ (os ++ half_close ∷ [], finished) | some e ↦ (os, failed e) ])
      by_answer none = λ q. absurd (ground arith)
      by_answer (some e) = λ q. absurd (ground arith)

  send_one-Ends : (b : Body) → Ends (send_one send b)
  unfolding send_one
  send_one-Ends b =
      if_ind Ends (b.broken && ltb (length b.content) max_line) (λ _ q. absurd (ground arith))
        (λ _.
          then_send-Ends (send (message (limited max_line b.content)))
            (message (limited max_line b.content)) _ (λ q. absurd (ground arith)))

-- Whatever the body is and whatever becomes of the frames, the sending of a request ends with all of
-- it read, a cancellation or the error of a frame.
pub send_request-Ends :
    (send : Out → Option Error) (stream : Bool) (b : Body) → Ends (send_request send stream b)
unfolding send_request
send_request-Ends send stream b = close_half-Ends send _ (
    if_ind Ends stream (λ _. send_messages-Ends send (suc (length b.content)) b (omega arith))
      (λ _. send_one-Ends send b))

-- The body of a stream, as a Connect client writes it.
abbrev pub streamed : List Bytes → Bytes
streamed [] = []
streamed (m ∷ ms) = envelope 0 m ++ streamed ms

abbrev pub AllShort : List Bytes → Type 0
AllShort [] = Unit
AllShort (m ∷ ms) = (length m < max_line) × AllShort ms

abbrev pub frames_of : List Bytes → List Out
frames_of [] = []
frames_of (m ∷ ms) = message m ∷ frames_of ms

abbrev pub whole : Bytes → Body
whole text = record { content = text; broken = false }

send_messages-envelope :
    (send : Out → Option Error) (n : ℕ) (m rest : Bytes)
    → length m < max_line
    → send (message m) ≡ none
    → send_messages send (suc n) (whole (envelope 0 m ++ rest))
      ≡ sent_first (message m) (send_messages send n (whole rest))
unfolding send_messages
send_messages-envelope send n m rest short out =
    rw (read_prefix-envelope 0 m rest (omega arith), read_full-append m rest, out) ground arith

send_messages-streamed :
    (send : Out → Option Error) (ms : List Bytes) (n : ℕ)
    → AllShort ms
    → ((o : Out) → send o ≡ none)
    → length ms < n
    → send_messages send n (whole (streamed ms)) ≡ (frames_of ms, finished)
unfolding send_messages
send_messages-streamed send ms zero short out more = absurd (omega arith)
send_messages-streamed send [] (suc n) short out more = refl
send_messages-streamed send (m ∷ ms) (suc n) (h, short) out more =
    send_messages-envelope send n m (streamed ms) h (out (message m))
    ∙ ap (sent_first (message m)) (send_messages-streamed send ms n short out (omega arith))

length-append_le : (xs ys : Bytes) → length ys ≤ length (xs ++ ys)
length-append_le [] ys = omega arith
length-append_le (x ∷ xs) ys = ground (arith, length-append_le xs ys)

length-streamed : (ms : List Bytes) → length ms ≤ length (streamed ms)
unfolding envelope
length-streamed [] = omega arith
length-streamed (m ∷ ms) = ground (arith, length-append_le m (streamed ms), length-streamed ms)

-- Each message of a stream that a client has written goes out as one frame, in order, and
-- `half_close` behind them, if every message is shorter than 32 MiB and no frame is refused.
pub send_request-streamed :
    (send : Out → Option Error) (ms : List Bytes)
    → AllShort ms
    → ((o : Out) → send o ≡ none)
    → send_request send true (whole (streamed ms)) ≡ (frames_of ms ++ half_close ∷ [], finished)
unfolding send_request
send_request-streamed send ms short out =
    ap (close_half send) (
      send_messages-streamed send ms (suc (length (streamed ms))) short out
        (omega (arith, length-streamed ms)))
    ∙ rw (out half_close, close_half) refl
