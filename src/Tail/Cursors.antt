-- ===== src/Tail/Cursors.antt =====
-- The loop of `Run` in internal/runlog/tail.go: one visit of a cursor, one round over all of them.
use lutra.Prelude.{
  ℕ, Bool, true, false, not, ◌&&◌, ◌||◌, List, [], ◌∷◌, ◌++◌, map, Option, none, some,
  if◌then◌else◌, ◌==◌, ltb, leb, length, zero, suc,
}
use lutra.Prelude.Bytes.{Bytes}
use lutra.Prelude.Results.{Error, Result, ok, err}
use lutra.Log.Types.{LogRow}
use lutra.Tail.Prefix.{selects}

-- `UntilSeq` is nil or a number.
pub record Cursor : Type 0 where
  pub stream : Bytes
  pub prefix : Bytes
  pub inspect_seq : ℕ
  pub until_seq : Option ℕ

-- A stream as a query of its records sees it: the rows by their numbers, and `next_seq - 1`.
pub record View : Type 0 where
  pub rows : List LogRow
  pub end_seq : ℕ

-- The records of the stream from behind `after` up to `last` whose keys the prefix selects.
unfoldable pub pick : Bytes → ℕ → ℕ → List LogRow → List LogRow
pick prefix after last [] = []
pick prefix after last (row ∷ rows) =
    if ltb after row.seq && leb row.seq last && selects prefix row.key
    then row ∷ pick prefix after last rows
    else pick prefix after last rows

-- LIMIT
unfoldable pub first_rows : ℕ → List LogRow → List LogRow
first_rows zero rows = []
first_rows (suc n) [] = []
first_rows (suc n) (row ∷ rows) = row ∷ first_rows n rows

-- `max(seq)` of rows that are ordered by it.
unfoldable pub last_of : ℕ → List LogRow → ℕ
last_of seq [] = seq
last_of seq (row ∷ rows) = last_of row.seq rows

unfoldable pub matched : ℕ → Bytes → ℕ → View → List LogRow
unfolding pick first_rows
matched size prefix after v = first_rows size (pick prefix after v.end_seq v.rows)

-- The column `inspect_seq`, the same in every row.
unfoldable pub inspect_of : ℕ → View → List LogRow → ℕ
unfolding last_of
inspect_of size v found = if length found == size then last_of 0 found else v.end_seq

-- LEFT JOIN: one row without a record where none matches.
unfoldable pub joined : List LogRow → List (Option LogRow)
joined [] = none ∷ []
joined (row ∷ rows) = some row ∷ map some rows

-- What reading a record's value and sending it comes to; `stops` is ErrStop.
pub data Sent : Type 0 where
  accepted stops : Sent
  fails : Error → Sent

-- How `Run` returns.
pub data Exit : Type 0 where
  stopped : Exit
  failed : Error → Exit

-- The outcome of a loop over rows: `at` is `c.InspectSeq` when the loop returns from `Run`, and
-- `inspect` the variable of that name otherwise.
pub record Walk : Type 0 where
  pub sent : List LogRow
  pub at : ℕ
  pub inspect : ℕ
  pub progress : Bool
  pub exit : Option Exit

abbrev pub past : Option ℕ → ℕ → Bool
past none seq = false
past (some last) seq = ltb last seq

abbrev pub until_or : ℕ → Option ℕ → ℕ
until_or inspect none = inspect
until_or inspect (some last) = last

abbrev pub raise : ℕ → ℕ → ℕ
raise target inspect = if ltb inspect target then target else inspect

abbrev pub sends : LogRow → Walk → Walk
sends row w = record w { sent = row ∷ w.sent }

abbrev pub moves : Bool → Walk → Walk
moves moved w = record w { progress = moved || w.progress }

-- The loop over the rows, `handle` being what is done with a record.
unfoldable pub walk :
    (LogRow → Sent) → Option ℕ → (target : ℕ) (at inspect : ℕ) → List (Option LogRow) → Walk
walk handle until target at inspect [] = record {
  sent = [];
  at = at;
  inspect = inspect;
  progress = false;
  exit = none;
}
walk handle until target at inspect (none ∷ rows) =
    moves (ltb inspect target) (walk handle until target at (raise target inspect) rows)
walk handle until target at inspect (some row ∷ rows) =
    let rest =
      sends row (
        moves (ltb inspect target)
          (walk handle until target row.seq (raise target inspect) rows)) in
    if past until row.seq
    then record {
      sent = [];
      at = at;
      inspect = until_or inspect until;
      progress = false;
      exit = none;
    }
    else elim (handle row) [
      | accepted ↦ rest
      | stops ↦ record {
        sent = row ∷ [];
        at = row.seq;
        inspect = inspect;
        progress = false;
        exit = some stopped;
      }
      | fails x ↦ record {
        sent = [];
        at = at;
        inspect = inspect;
        progress = false;
        exit = some (failed x);
      }
    ]

-- `c.UntilSeq != nil && c.InspectSeq >= *c.UntilSeq`
abbrev pub reached : Option ℕ → ℕ → Bool
reached none inspect = false
reached (some last) inspect = leb last inspect

-- A visit that leaves the cursor alone.
abbrev pub idle : Cursor → Option Exit → Walk
idle c exit = record {
  sent = [];
  at = c.inspect_seq;
  inspect = c.inspect_seq;
  progress = false;
  exit = exit;
}

-- What one round meets: the batch size, what becomes of a record, `ctx.Err()` when the loop comes to
-- the cursor of a stream, and what the query finds then.
pub record Session : Type 0 where
  pub size : ℕ
  pub handle : LogRow → Sent
  pub ctx_err : Bytes → Option Error
  pub view : Bytes → Result View

unfoldable pub query_walk : Session → Cursor → View → Walk
unfolding walk matched inspect_of joined
query_walk s c v =
    let found = matched s.size c.prefix c.inspect_seq v in
    walk s.handle c.until_seq (inspect_of s.size v found) c.inspect_seq c.inspect_seq (joined found)

unfoldable pub query : Session → Cursor → Walk
unfolding query_walk
query s c = elim (s.view c.stream) [ ok v ↦ query_walk s c v | err x ↦ idle c (some (failed x)) ]

-- The body of the loop over the cursors.
unfoldable pub visit : Session → Cursor → Walk
unfolding query
visit s c = elim (s.ctx_err c.stream) [
  | some x ↦ idle c (some (failed x))
  | none ↦ if reached c.until_seq c.inspect_seq then idle c none else query s c
]

-- `c.InspectSeq` after a visit.
abbrev pub position_by : Option Exit → Walk → ℕ
position_by none w = w.inspect
position_by (some x) w = w.at

abbrev pub position : Walk → ℕ
position w = position_by w.exit w

-- The cursor after a visit.
unfoldable pub moved : Cursor → Walk → Cursor
moved c w = record c { inspect_seq = position w }

-- A round over the cursors: all that is sent, whether there was progress, and how `Run` returned.
pub record Round : Type 0 where
  pub cursors : List Cursor
  pub deliveries : List (Bytes × LogRow)
  pub any_progress : Bool
  pub round_exit : Option Exit

abbrev pub label : Bytes → List LogRow → List (Bytes × LogRow)
label stream [] = []
label stream (row ∷ rows) = (stream, row) ∷ label stream rows

abbrev pub before_rest : Cursor → Walk → Round → Round
before_rest c w r = record {
  cursors = moved c w ∷ r.cursors;
  deliveries = label c.stream w.sent ++ r.deliveries;
  any_progress = w.progress || r.any_progress;
  round_exit = r.round_exit;
}

-- With the rest of the round, if there is one.
abbrev pub end_visit : Option Exit → Cursor → Walk → List Cursor → Round → Round
end_visit none c w cs rest = before_rest c w rest
end_visit (some x) c w cs rest = record {
  cursors = moved c w ∷ cs;
  deliveries = label c.stream w.sent;
  any_progress = w.progress;
  round_exit = some x;
}

-- The loop over the cursors.
unfoldable pub round : Session → List Cursor → Round
unfolding visit moved
round s [] = record { cursors = []; deliveries = []; any_progress = false; round_exit = none }
round s (c ∷ cs) = end_visit (visit s c).exit c (visit s c) cs (round s cs)

abbrev pub short_of : Option ℕ → ℕ → Bool
short_of none inspect = true
short_of (some last) inspect = ltb inspect last

-- `complete`
unfoldable pub complete : List Cursor → Bool
complete [] = true
complete (c ∷ cs) = not (short_of c.until_seq c.inspect_seq) && complete cs

-- What `Run` does after a round.
pub data Then : Type 0 where
  returns : Exit → Then
  again wait : Then

unfoldable pub after_round : Round → Then
unfolding complete
after_round r = elim r.round_exit [
  | some x ↦ returns x
  | none ↦ if complete r.cursors then returns stopped else if r.any_progress then again else wait
]

-- `Run` over the rounds that it makes, each after the waiting that the round before it asks for.
pub record Delivered : Type 0 where
  pub end_cursors : List Cursor
  pub all_sent : List (Bytes × LogRow)
  pub result : Option Exit

abbrev pub then_more : List (Bytes × LogRow) → Delivered → Delivered
then_more ds d = record d { all_sent = ds ++ d.all_sent }

-- With what the later rounds deliver, if there are any.
abbrev pub end_round : Then → Round → Delivered → Delivered
end_round (returns x) r rest = record {
  end_cursors = r.cursors;
  all_sent = r.deliveries;
  result = some x;
}
end_round again r rest = then_more r.deliveries rest
end_round wait r rest = then_more r.deliveries rest

unfoldable pub run : List Session → List Cursor → Delivered
unfolding round after_round
run [] cs = record { end_cursors = cs; all_sent = []; result = none }
run (s ∷ ss) cs =
    let r = round s cs in let rest = run ss r.cursors in end_round (after_round r) r rest
