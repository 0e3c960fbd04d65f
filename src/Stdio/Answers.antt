-- ===== src/Stdio/Answers.antt =====
-- What the caller of a call gets from `receiveCall` of internal/taskstdio/transport.go.
use lutra.Prelude.{
  suc, false, not, List, [], ◌∷◌, ◌++◌, Option, none, some, if◌then◌else◌, length, ◌≡◌, refl, ap,
  ◌∙◌, if_ind,
}
use lutra.Prelude.Bytes.{Bytes}
use lutra.Prelude.Results.{Error, Result}
use lutra.Stdio.Receive.{
  Kind, headers_kind, message_kind, error_kind, end_kind, other_kind, Frame, Response, Outside,
  Receiver, Input, arrives, context_done, call_done, Next, goes, stops, open_response, write_text,
  end_text_of, on_frame, on_input, leave, Received, waits, left, blocked, blocks, unread, fresh,
  receive,
}

-- One result if the headers have come, none before.
abbrev Counted : Receiver → Type 0
Counted r = length r.results ≡ (if r.started then 1 else 0)

abbrev pub Answered : Received → Type 0
Answered (waits r) = Counted r
Answered (left r c) = length r.results ≡ 1
Answered (blocked r) = (r.started ≡ false) × (length r.results ≡ 0)

abbrev NextCounted : Next → Type 0
NextCounted (goes r) = Counted r
NextCounted (stops r c) = Counted r
NextCounted (blocks r) = (r.started ≡ false) × (length r.results ≡ 0)

length-snoc :
    (results : List (Result Response)) (a : Result Response)
    → length (results ++ a ∷ []) ≡ suc (length results)
length-snoc [] a = refl
length-snoc (b ∷ bs) a = ap suc (length-snoc bs a)

open_response-Counted :
    (x : Outside) (f : Frame) (r : Receiver)
    → r.started ≡ false
    → Counted r
    → Counted (open_response x f r)
open_response-Counted x f r s h =
    length-snoc r.results _ ∙ ap suc (h ∙ ap (λ b. if b then 1 else 0) s)

write_text-NextCounted :
    (w : Option Error) (text : Bytes) (r : Receiver) → Counted r → NextCounted (write_text w text r)
write_text-NextCounted none text r h = h
write_text-NextCounted (some e) text r h = h

unread-NextCounted :
    (w : Option Error) (r : Receiver) → r.started ≡ false → Counted r → NextCounted (unread w r)
unread-NextCounted none r s h = (s, h ∙ ap (λ b. if b then 1 else 0) s)
unread-NextCounted (some e) r s h = h

end_text_of-Counted :
    (x : Outside) (f : Frame) (w : Option Error) (r : Receiver)
    → Counted r
    → Counted (end_text_of x f w r)
end_text_of-Counted x f none r h = h
end_text_of-Counted x f (some e) r h = h

on_frame-NextCounted :
    (x : Outside) (k : Kind) (f : Frame) (w : Option Error) (r : Receiver)
    → Counted r
    → NextCounted (on_frame x k f w r)
unfolding on_frame
on_frame-NextCounted x headers_kind f w r h =
    if_ind NextCounted r.started (λ _. h) (λ s. open_response-Counted x f r s h)
on_frame-NextCounted x message_kind f w r h =
    if_ind NextCounted (not r.started) (λ _. h) (λ _. write_text-NextCounted w _ r h)
on_frame-NextCounted x error_kind f w r h =
    if_ind NextCounted r.started (λ _. write_text-NextCounted w f.value r h)
      (λ s. unread-NextCounted w r s h)
on_frame-NextCounted x end_kind f w r h =
    if_ind NextCounted r.response_stream (λ _. end_text_of-Counted x f w r h) (λ _. h)
on_frame-NextCounted x other_kind f w r h = h

on_input-NextCounted :
    (x : Outside) (i : Input) (r : Receiver) → Counted r → NextCounted (on_input x i r)
unfolding on_input
on_input-NextCounted x (arrives f w) r h = on_frame-NextCounted x f.kind f w r h
on_input-NextCounted x (context_done e) r h = h
on_input-NextCounted x call_done r h = h

leave-one : (r : Receiver) → Counted r → length (leave r).results ≡ 1
leave-one r h =
    if_ind (λ (r' : Receiver). length r'.results ≡ 1) r.started
      (λ s. h ∙ ap (λ b. if b then 1 else 0) s)
      (λ s. length-snoc r.results _ ∙ ap suc (h ∙ ap (λ b. if b then 1 else 0) s))

receive-Counted :
    (x : Outside) (is : List Input) (r : Receiver) → Counted r → Answered (receive x is r)
unfolding receive
receive-Counted x [] r h = h
receive-Counted x (i ∷ is) r h =
    by_next (on_input x i r) (on_input-NextCounted x i r h) (receive-Counted x is)
  where
    by_next :
        (n : Next)
        → NextCounted n
        → ((r : Receiver) → Counted r → Answered (receive x is r))
        → Answered (elim n [
          | goes r' ↦ receive x is r'
          | stops r' c ↦ left (leave r') c
          | blocks r' ↦ blocked r'
        ])
    by_next (goes r') h f = f r' h
    by_next (stops r' c) h f = leave-one r' h
    by_next (blocks r') h f = h

-- Whatever comes in, a call that `receiveCall` has left has sent one result on `ready`, one that it
-- waits for has sent one if the headers have come and none before, and one that is blocked in a write
-- that no one reads has met no headers and sent none.
pub receive-Answered : (x : Outside) (is : List Input) → Answered (receive x is fresh)
receive-Answered x is = receive-Counted x is fresh refl
