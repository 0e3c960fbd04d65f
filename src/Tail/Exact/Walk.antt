-- ===== src/Tail/Exact/Walk.antt =====
-- The loop over the rows of a batch sends those up to the place where it leaves the cursor.
use lutra.Prelude.{
  ℕ, ◌≤◌, ◌<◌, Bool, true, false, List, [], ◌∷◌, map, Option, none, some, ltb, ◌≡◌, refl, sym, ap,
  subst, ◌∙◌, arith, if_ind,
}
use lutra.Prelude.Results.{Error}
use lutra.Log.Types.{LogRow}
use lutra.Tail.Cursors.{
  Sent, accepted, stops, fails, Exit, Walk, past, until_or, raise, sends, moves, walk, position,
  position_by,
}
use lutra.Tail.Exact.Order.{Above, AtMost, upto, upto-Above}

-- What holds of the outcome over the rows `rows`.
abbrev pub Walked : List LogRow → (target at inspect : ℕ) → Walk → Type 0
Walked rows target at inspect w =
    (w.sent ≡ upto (position w) rows) × (at ≤ position w) × (position w ≤ raise target inspect)

-- The cursor has not gone beyond its end.
abbrev pub Before : Option ℕ → ℕ → Type 0
Before none at = Unit
Before (some last) at = at ≤ last

pub Sent-ind :
    (P : Walk → Type 0) (o : Sent) {rest stop : Walk} {fail : Error → Walk}
    → P rest
    → P stop
    → ((x : Error) → P (fail x))
    → P (elim o [ accepted ↦ rest | stops ↦ stop | fails x ↦ fail x ])
Sent-ind P accepted p q r = p
Sent-ind P stops p q r = q
Sent-ind P (fails x) p q r = r x

position_by-same :
    (x : Option Exit) (w w' : Walk)
    → w.inspect ≡ w'.inspect
    → w.at ≡ w'.at
    → position_by x w ≡ position_by x w'
position_by-same none w w' e f = e
position_by-same (some x) w w' e f = f

pub position-moves : (b : Bool) (w : Walk) → position (moves b w) ≡ position w
position-moves b w = position_by-same w.exit (moves b w) w refl refl

position-sends :
    (row : LogRow) (b : Bool) (w : Walk) → position (sends row (moves b w)) ≡ position w
position-sends row b w = position_by-same w.exit (sends row (moves b w)) w refl refl

upto_keeps :
    (row : LogRow) (rows : List LogRow) (high : ℕ)
    → row.seq ≤ high
    → upto high (row ∷ rows) ≡ row ∷ upto high rows
unfolding upto
upto_keeps row rows high h = ground arith

sends-Walked :
    (row : LogRow) (rows : List LogRow) (target at inspect : ℕ) (b : Bool) (w : Walk)
    → at < row.seq
    → row.seq ≤ target
    → Walked rows target row.seq (raise target inspect) w
    → Walked (row ∷ rows) target at inspect (sends row (moves b w))
sends-Walked row rows target at inspect b w low high (e, above, below) =
    let same = position-sends row b w in
    (
      ap (λ (l : List LogRow). row ∷ l) e
          ∙ sym (upto_keeps row rows (position w) above)
          ∙ ap (λ (p : ℕ). upto p (row ∷ rows)) (sym same),
      subst (λ (p : ℕ). at ≤ p) (sym same) (omega arith),
      subst (λ (p : ℕ). p ≤ raise target inspect) (sym same) (ground arith),
    )

cut-Walked :
    (until : Option ℕ) (row : LogRow) (rows : List LogRow) (target at inspect : ℕ)
    → row.seq ≤ target
    → Above row.seq rows
    → Before until at
    → past until row.seq ≡ true
    → (◌≡◌ {A = List LogRow} [] (upto (until_or inspect until) (row ∷ rows)))
      × (at ≤ until_or inspect until)
      × (until_or inspect until ≤ raise target inspect)
unfolding upto
cut-Walked none row rows target at inspect high r before h = ground arith
cut-Walked (some last) row rows target at inspect high r before h =
    (ground (arith, upto-Above row.seq last rows), before, ground arith)

past-Before : (until : Option ℕ) (seq : ℕ) → past until seq ≡ false → Before until seq
past-Before none seq h = tt
past-Before (some last) seq h = ground arith

pub walk-Walked :
    (handle : LogRow → Sent) (until : Option ℕ) (target at inspect : ℕ) (rows : List LogRow)
    → Above at rows
    → AtMost target rows
    → at ≤ inspect
    → Before until at
    → Walked rows target at inspect (walk handle until target at inspect (map some rows))
unfolding walk upto
walk-Walked handle until target at inspect [] h m le before = (refl, le, ground arith)
walk-Walked handle until target at inspect (row ∷ rows) (h, r) (hm, m) le before =
    if_ind (Walked (row ∷ rows) target at inspect) (past until row.seq)
      (cut-Walked until row rows target at inspect hm r before)
      (λ kept.
        Sent-ind (Walked (row ∷ rows) target at inspect) (handle row)
          (sends-Walked row rows target at inspect (ltb inspect target)
            (walk handle until target row.seq (raise target inspect) (map some rows)) h hm
            (walk-Walked handle until target row.seq (raise target inspect) rows r m (ground arith)
              (past-Before until row.seq kept)))
          (ground (arith, upto-Above row.seq row.seq rows), omega arith, ground arith)
          (λ x.
            (sym (upto-Above at at (row ∷ rows) (omega arith) (h, r)), omega arith, ground arith)))
