-- ===== src/Tail/Examples.antt =====
-- Prefixes with a last byte of 255, and a stream that grows under a subscription.
use lutra.Prelude.{[], ◌∷◌, some, ◌≡◌, refl, arith}
use lutra.Prelude.Bytes.{has_prefix}
use lutra.Tail.Prefix.{prefix_successor, selects}
use lutra.Prelude.{ℕ, ◌++◌, none, ap, subst}
use lutra.Prelude.Bytes.{Bytes}
use lutra.Prelude.Results.{Result, ok, err}
use lutra.Log.Types.{LogRow}
use lutra.Tail.Cursors.{Sent, accepted, View, Cursor, Session, visit, round, run, after_round}
use lutra.Tail.Exact.Visit.{IsOrdered, Exactly, visit-Exactly}
use lutra.Tail.Exact.Wait.{AllSettled, round-wait}
use lutra.Tail.Exact.Rounds.{RunsFrom, run-RunsFrom}
use lutra.Tail.Range.{selects-has_prefix}

carry : prefix_successor (7 ∷ 255 ∷ []) ≡ some (8 ∷ [])
unfolding prefix_successor
carry = refl

selects-has_prefix_example :
    selects (7 ∷ 255 ∷ []) (7 ∷ 255 ∷ 1 ∷ []) ≡ has_prefix (7 ∷ 255 ∷ 1 ∷ []) (7 ∷ 255 ∷ [])
selects-has_prefix_example =
    selects-has_prefix (7 ∷ 255 ∷ []) (7 ∷ 255 ∷ 1 ∷ []) (omega arith, (omega arith, tt))
      (omega arith, (omega arith, (omega arith, tt)))

abbrev row : ℕ → Bytes → LogRow
row seq key = record {
  run = 5;
  stream = 108 ∷ [];
  seq = seq;
  key = key;
  value = some (246 ∷ []);
  uri = none;
  payload_size = 1;
}

abbrev early : View
early = record { rows = row 1 (7 ∷ []) ∷ row 2 [] ∷ []; end_seq = 2 }

abbrev late : View
late = record { rows = early.rows ++ row 3 (7 ∷ 1 ∷ []) ∷ []; end_seq = 3 }

abbrev take_all : LogRow → Sent
take_all r = accepted

abbrev session : View → Session
session v = record { size = 2; handle = take_all; ctx_err = λ stream. none; view = λ stream. ok v }

abbrev cursor : Cursor
cursor = record { stream = 108 ∷ []; prefix = 7 ∷ []; inspect_seq = 0; until_seq = none }

visit-Exactly_example : Exactly cursor early (visit (session early) cursor)
visit-Exactly_example =
    visit-Exactly (session early) cursor early refl (omega arith, (omega arith, tt))

abbrev view_of : Result View → View
view_of (ok v) = v
view_of (err x) = early

round-wait_example :
    AllSettled
      (session early)
      (round (session early) (record cursor { inspect_seq = 2 } ∷ [])).cursors
unfolding after_round prefix_successor selects round
round-wait_example =
    round-wait (session early) (record cursor { inspect_seq = 2 } ∷ []) (omega arith)
      (λ stream v seen. subst IsOrdered (ap view_of seen) (omega arith, (omega arith, tt))) refl

run-RunsFrom_example : RunsFrom cursor late (run (session early ∷ session late ∷ []) (cursor ∷ []))
run-RunsFrom_example =
    run-RunsFrom (session early ∷ session late ∷ []) cursor late
      (omega arith, (omega arith, (omega arith, tt)))
      (
        (
          early,
          refl,
          (omega arith, (omega arith, tt)),
          (row 3 (7 ∷ 1 ∷ []) ∷ [], refl, (omega arith, tt)),
        ),
        ((late, refl, (omega arith, (omega arith, (omega arith, tt))), ([], refl, tt)), tt),
      )
