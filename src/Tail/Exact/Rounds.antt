-- ===== src/Tail/Exact/Rounds.antt =====
-- What a cursor is sent over all the rounds of `Run`, while the stream grows.
use mathlib.Core.List.{append-nil}
use lutra.Prelude.{
  ℕ, ◌≤◌, List, [], ◌∷◌, ◌++◌, Option, none, some, leb, ◌≡◌, refl, sym, ap, subst, ◌∙◌, arith,
  Bool-cases, inl, inr,
}
use lutra.Prelude.Bytes.{Bytes}
use lutra.Prelude.Results.{ok}
use lutra.Log.Types.{LogRow}
use lutra.Tail.Cursors.{
  Exit, Cursor, View, Session, Round, Then, returns, again, wait, Delivered, raise, position, pick,
  visit, moved, label, end_visit, end_round, then_more, round, after_round, run,
}
use lutra.Tail.Exact.Order.{Above, pick_empty}
use lutra.Tail.Exact.Visit.{IsOrdered, visit-Exactly}

-- The later view has the rows of the earlier one, and then rows above its end.
abbrev pub GrowsTo : View → View → Type 0
GrowsTo v v' = (new : List LogRow) × (v'.rows ≡ v.rows ++ new) × Above v.end_seq new

-- Every round sees the stream as it is on its way to the last view.
abbrev pub AllSee : Bytes → List Session → View → Type 0
AllSee stream [] last = Unit
AllSee stream (s ∷ ss) last =
    ((v : View) × (s.view stream ≡ ok v) × IsOrdered v × GrowsTo v last) × AllSee stream ss last

pick-new :
    (prefix : Bytes) (after high low : ℕ) (new : List LogRow)
    → high ≤ low
    → Above low new
    → pick prefix after high new ≡ []
unfolding pick
pick-new prefix after high low [] le h = refl
pick-new prefix after high low (row ∷ rows) le (h, r) =
    ground (arith, pick-new prefix after high row.seq rows)

pick-append :
    (prefix : Bytes) (after high : ℕ) (xs ys : List LogRow)
    → pick prefix after high (xs ++ ys) ≡ pick prefix after high xs ++ pick prefix after high ys
unfolding pick
pick-append prefix after high [] ys = refl
pick-append prefix after high (row ∷ rows) ys =
    ground (arith, pick-append prefix after high rows ys)

-- What an earlier view shows up to its end is what the last view shows there.
pick-GrowsTo :
    (prefix : Bytes) (after high : ℕ) (v last : View)
    → GrowsTo v last
    → high ≤ raise v.end_seq after
    → pick prefix after high v.rows ≡ pick prefix after high last.rows
pick-GrowsTo prefix after high v last (new, e, h) le = elim (Bool-cases (leb high v.end_seq)) [
  | inl low ↦ sym (
      ap (pick prefix after high) e
      ∙ pick-append prefix after high v.rows new
      ∙ ap (λ (l : List LogRow). pick prefix after high v.rows ++ l)
          (pick-new prefix after high v.end_seq new (ground arith) h)
      ∙ append-nil (pick prefix after high v.rows))
  | inr above ↦
      pick_empty prefix after high v.rows (ground arith)
      ∙ sym (pick_empty prefix after high last.rows (ground arith))
]

-- Two stretches of the stream, one after the other.
pick-pick :
    (prefix : Bytes) (low after mid high : ℕ) (rows : List LogRow)
    → Above low rows
    → after ≤ mid
    → mid ≤ high
    → pick prefix after mid rows ++ pick prefix mid high rows ≡ pick prefix after high rows
unfolding pick
pick-pick prefix low after mid high [] h p q = refl
pick-pick prefix low after mid high (row ∷ rows) (h, r) p q =
    ground
      (arith, pick-pick prefix row.seq after mid high rows, pick-new prefix after mid row.seq rows)

label-append :
    (stream : Bytes) (xs ys : List LogRow)
    → label stream (xs ++ ys) ≡ label stream xs ++ label stream ys
label-append stream [] ys = refl
label-append stream (row ∷ rows) ys =
    ap (λ (l : List (Bytes × LogRow)). (stream, row) ∷ l) (label-append stream rows ys)

-- One cursor, from place `low` to place `high`.
abbrev pub SentBetween : Cursor → (low high : ℕ) → View → List (Bytes × LogRow) → Type 0
SentBetween c low high last sent =
    (low ≤ high) × (sent ≡ label c.stream (pick c.prefix low high last.rows))

-- The outcome of `Run` for one cursor.
abbrev pub RunsFrom : Cursor → View → Delivered → Type 0
RunsFrom c last d =
    (high : ℕ) × (d.end_cursors ≡ record c { inspect_seq = high } ∷ [])
    × SentBetween c c.inspect_seq high last d.all_sent

SentBetween-append :
    (c : Cursor) (low mid high : ℕ) (last : View) (xs ys : List (Bytes × LogRow))
    → IsOrdered last
    → SentBetween c low mid last xs
    → SentBetween c mid high last ys
    → SentBetween c low high last (xs ++ ys)
SentBetween-append c low mid high last xs ys ordered (p, e) (q, f) = (
  omega arith,
  ap (λ (l : List (Bytes × LogRow)). l ++ ys) e
      ∙ ap (λ (l : List (Bytes × LogRow)). label c.stream (pick c.prefix low mid last.rows) ++ l) f
      ∙ sym (
          label-append c.stream (pick c.prefix low mid last.rows)
            (pick c.prefix mid high last.rows))
      ∙ ap (label c.stream) (pick-pick c.prefix 0 low mid high last.rows ordered p q),
)

-- A round with one cursor.
abbrev single : Session → Cursor → Round
single s c = round s (c ∷ [])

round_single :
    (s : Session) (c : Cursor)
    → ((single s c).cursors ≡ moved c (visit s c) ∷ [])
      × ((single s c).deliveries ≡ label c.stream (visit s c).sent)
unfolding round
round_single s c = by_exit (visit s c).exit
  where
    by_exit :
        (x : Option Exit)
        → ((end_visit x c (visit s c) [] (round s [])).cursors ≡ moved c (visit s c) ∷ [])
          × ((end_visit x c (visit s c) [] (round s [])).deliveries
              ≡ label c.stream (visit s c).sent)
    by_exit none = (refl, append-nil (label c.stream (visit s c).sent))
    by_exit (some x) = (refl, refl)

-- One round, as a stretch of the last view.
visit-SentBetween :
    (s : Session) (c : Cursor) (v last : View)
    → s.view c.stream ≡ ok v
    → IsOrdered v
    → GrowsTo v last
    → SentBetween c c.inspect_seq (position (visit s c)) last (label c.stream (visit s c).sent)
visit-SentBetween s c v last seen ordered grows =
    let (e, forward, bound) = visit-Exactly s c v seen ordered in
    (
      forward,
      ap (label c.stream)
          (e ∙ pick-GrowsTo c.prefix c.inspect_seq (position (visit s c)) v last grows bound),
    )

-- While a stream grows, `Run` with one cursor sends over all its rounds, in order and once, just the
-- records that the prefix selects between the cursor's first place and its last one.
pub run-RunsFrom :
    (ss : List Session) (c : Cursor) (last : View)
    → IsOrdered last
    → AllSee c.stream ss last
    → RunsFrom c last (run ss (c ∷ []))
unfolding run moved
run-RunsFrom [] c last ordered sees = (
  c.inspect_seq,
  refl,
  (
    omega arith,
    sym (
        ap (label c.stream)
          (pick_empty c.prefix c.inspect_seq c.inspect_seq last.rows (omega arith))),
  ),
)
run-RunsFrom (s ∷ ss) c last ordered ((v, seen, in_order, grows), sees) =
    ends (after_round (single s c)) (run-RunsFrom ss (moved c (visit s c)) last ordered sees)
  where
    one : SentBetween c c.inspect_seq (position (visit s c)) last (single s c).deliveries
    one =
        subst
          (λ (l : List (Bytes × LogRow)). SentBetween c c.inspect_seq (position (visit s c)) last l)
          (sym (round_single s c).1) (visit-SentBetween s c v last seen in_order grows)

    goes_on :
        RunsFrom (moved c (visit s c)) last (run ss (moved c (visit s c) ∷ []))
        → RunsFrom c last (then_more (single s c).deliveries (run ss (single s c).cursors))
    goes_on (high, cursors, sent) =
        subst
          (λ (cs : List Cursor). RunsFrom c last (then_more (single s c).deliveries (run ss cs)))
          (sym (round_single s c).0)
          (
            high,
            cursors,
            SentBetween-append c c.inspect_seq (position (visit s c)) high last
                (single s c).deliveries (run ss (moved c (visit s c) ∷ [])).all_sent ordered one
                sent,
          )

    ends :
        (t : Then)
        → RunsFrom (moved c (visit s c)) last (run ss (moved c (visit s c) ∷ []))
        → RunsFrom c last (end_round t (single s c) (run ss (single s c).cursors))
    ends (returns x) rest = (position (visit s c), (round_single s c).0, one)
    ends again rest = goes_on rest
    ends wait rest = goes_on rest
