-- ===== src/Stdio/Incoming.antt =====
-- `serveIncoming` of internal/taskstdio/handler.go, up to the sending of its response.
use lutra.Prelude.{
  ℕ, Bool, true, false, not, ◌&&◌, ◌||◌, List, [], ◌∷◌, Option, none, some, if◌then◌else◌, ◌==◌,
  ◌≡◌, refl, arith, if_ind, String,
}
use lutra.Prelude.Bytes.{Bytes, is_empty}
use lutra.Stdio.Receive.{Headers}

pub record Incoming : Type 0 where
  pub call_path : Bytes
  pub call_headers : Headers
  pub messages : List Bytes

-- What the handler has written.
pub record Recorded : Type 0 where
  pub code : ℕ
  pub written_header : Headers
  pub written : Bytes

-- A frame of type `response`: an empty text is left out.
pub record Reply : Type 0 where
  pub reply_status : ℕ
  pub reply_headers : Headers
  pub reply_value : Bytes
  pub reply_error : Bytes

-- What the code takes from elsewhere: the handler if one is set, whether `http.NewRequest` takes the
-- path, whether the call is canceled when the handler has returned, whether a text is JSON, the JSON
-- text of an error, and the headers of an error.
pub record Server : Type 0 where
  pub handler : Option (Incoming → Bytes → Recorded)
  pub takes_path : Bytes → Bool
  pub is_canceled : Bool
  pub json_valid : Bytes → Bool
  pub error_text : (code message : String) → Bytes
  pub json_headers : Headers

-- `sendIncomingError`
abbrev pub error_reply : Server → ℕ → (code message : String) → Reply
error_reply s status code message = record {
  reply_status = status;
  reply_headers = s.json_headers;
  reply_value = [];
  reply_error = s.error_text code message;
}

abbrev is_absolute : Bytes → Bool
is_absolute [] = false
is_absolute (c ∷ cs) = c == 47

abbrev pub reply_of : Recorded → Reply
reply_of r =
    if r.code == 200
    then record {
      reply_status = r.code;
      reply_headers = r.written_header;
      reply_value = r.written;
      reply_error = [];
    }
    else record {
      reply_status = r.code;
      reply_headers = r.written_header;
      reply_value = [];
      reply_error = r.written;
    }

-- With the handler's answer.
abbrev pub handled : Server → Recorded → Option Reply
handled s r =
    if s.is_canceled
    then none
    else if not (is_empty r.written) && not (s.json_valid r.written)
    then some (error_reply s 500 "internal" "incoming handler returned non-JSON")
    else some (reply_of r)

abbrev pub serve_one :
    Server → Option (Incoming → Bytes → Recorded) → Incoming → Bytes → Option Reply
serve_one s none c message =
    some (error_reply s 404 "unimplemented" "incoming handler is unavailable")
serve_one s (some handler) c message =
    if not (is_absolute c.call_path)
    then some (error_reply s 400 "invalid_argument" "incoming path must be absolute")
    else if not (s.takes_path c.call_path)
    then some (error_reply s 400 "invalid_argument" "invalid incoming path")
    else handled s (handler c message)

abbrev pub serve_messages : Server → Incoming → List Bytes → Option Reply
serve_messages s c (message ∷ []) = serve_one s s.handler c message
serve_messages s c _ =
    some (error_reply s 400 "invalid_argument" "incoming unary call requires one message")

unfoldable pub serve_incoming : Server → Incoming → Option Reply
serve_incoming s c = serve_messages s c c.messages

-- Left out, or JSON.
abbrev pub Fits : Server → Bytes → Type 0
Fits s text = (is_empty text || s.json_valid text) ≡ true

abbrev pub Sendable : Server → Option Reply → Type 0
Sendable s none = s.is_canceled ≡ true
Sendable s (some r) = Fits s r.reply_value × Fits s r.reply_error

module _ (s : Server)
    (text : (code message : String) → s.json_valid (s.error_text code message) ≡ true) where
  error_reply-Sendable :
      (status : ℕ) (code message : String) → Sendable s (some (error_reply s status code message))
  error_reply-Sendable status code message = (refl, ground (arith, text code message))

  reply_of-Sendable :
      (r : Recorded)
      → (not (is_empty r.written) && not (s.json_valid r.written)) ≡ false
      → Sendable s (some (reply_of r))
  reply_of-Sendable r e =
      if_ind (λ (p : Reply). Sendable s (some p)) (r.code == 200) (λ _. (ground arith, refl))
        (λ _. (refl, ground arith))

  handled-Sendable : (r : Recorded) → Sendable s (handled s r)
  handled-Sendable r =
      if_ind (Sendable s) s.is_canceled (λ gone. gone)
        (λ _.
          if_ind (Sendable s) (not (is_empty r.written) && not (s.json_valid r.written))
            (λ _. error_reply-Sendable 500 "internal" "incoming handler returned non-JSON")
            (λ e. reply_of-Sendable r e))

  serve_one-Sendable :
      (h : Option (Incoming → Bytes → Recorded)) (c : Incoming) (message : Bytes)
      → Sendable s (serve_one s h c message)
  serve_one-Sendable none c message =
      error_reply-Sendable 404 "unimplemented" "incoming handler is unavailable"
  serve_one-Sendable (some handler) c message =
      if_ind (Sendable s) (not (is_absolute c.call_path))
        (λ _. error_reply-Sendable 400 "invalid_argument" "incoming path must be absolute")
        (λ _.
          if_ind (Sendable s) (not (s.takes_path c.call_path))
            (λ _. error_reply-Sendable 400 "invalid_argument" "invalid incoming path")
            (λ _. handled-Sendable (handler c message)))

  serve_messages-Sendable : (c : Incoming) (ms : List Bytes) → Sendable s (serve_messages s c ms)
  serve_messages-Sendable c [] =
      error_reply-Sendable 400 "invalid_argument" "incoming unary call requires one message"
  serve_messages-Sendable c (m ∷ []) = serve_one-Sendable s.handler c m
  serve_messages-Sendable c (m ∷ n ∷ ms) =
      error_reply-Sendable 400 "invalid_argument" "incoming unary call requires one message"

-- Whatever the peer has sent and the handler has written, an incoming call that is served gets one
-- response unless it is canceled, and the raw texts of the response are JSON or empty, if the texts of
-- errors are JSON.
pub serve_incoming-Sendable :
    (s : Server) (c : Incoming)
    → ((code message : String) → s.json_valid (s.error_text code message) ≡ true)
    → Sendable s (serve_incoming s c)
unfolding serve_incoming
serve_incoming-Sendable s c text = serve_messages-Sendable s text c c.messages
