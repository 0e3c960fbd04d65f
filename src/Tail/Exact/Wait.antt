-- ===== src/Tail/Exact/Wait.antt =====
-- `Run` waits for a notification only when it has sent all that the queries showed.
use lutra.Prelude.{
  ℕ, ◌≤◌, ◌<◌, true, false, List, [], ◌∷◌, Option, none, some, ◌==◌, length, ◌≡◌, sym, ap, subst,
  ◌∙◌, arith, Bool-cases, Option-cases, inl, inr, ◌⊎◌, if_ind,
}
use lutra.Prelude.Bytes.{Bytes}
use lutra.Prelude.Results.{Error, ok}
use lutra.Log.Types.{LogRow}
use lutra.Tail.Cursors.{
  Sent, Exit, Walk, Cursor, View, Session, Round, wait, past, walk, position, position_by, pick,
  last_of, matched, inspect_of, joined, reached, query_walk, visit, moved, before_rest, end_visit,
  until_or, round, after_round,
}
use lutra.Tail.Exact.Order.{Above, pick_empty, last_of-AtMost}
use lutra.Tail.Exact.Walk.{Sent-ind}
use lutra.Tail.Exact.Visit.{
  IsOrdered, visit-Exactly, matched-Above, visit_on, visit_over, visit_gone,
}

-- The cursor has come to its end, or nothing of what the view shows is left for it.
abbrev pub SettledAt : Cursor → View → Type 0
SettledAt c v =
    (reached c.until_seq c.inspect_seq ≡ true) ⊎ (pick c.prefix c.inspect_seq v.end_seq v.rows ≡ [])

-- What an outcome with no progress says.
abbrev Idles : Option ℕ → (target at : ℕ) → Walk → Type 0
Idles until target at w =
    w.exit ≡ none → w.progress ≡ false → (reached until w.inspect ≡ true) ⊎ (target ≤ at)

cut-Idles :
    (until : Option ℕ) (seq inspect : ℕ)
    → past until seq ≡ true
    → reached until (until_or inspect until) ≡ true
cut-Idles none seq inspect h = ground arith
cut-Idles (some last) seq inspect h = ground arith

-- A loop that ends with no progress was cut off at the cursor's end, or had no new place to go to.
walk-Idles :
    (handle : LogRow → Sent) (until : Option ℕ) (target at : ℕ) (found : List LogRow)
    → Idles until target at (walk handle until target at at (joined found))
unfolding walk joined
walk-Idles handle until target at [] = λ out still. inr (ground arith)
walk-Idles handle until target at (row ∷ rows) =
    if_ind (Idles until target at) (past until row.seq)
      (λ cut out still. inl (cut-Idles until row.seq at cut))
      (λ kept.
        Sent-ind (Idles until target at) (handle row) (λ out still. inr (ground arith))
          (λ out still. inr (ground arith)) (λ x out still. inr (ground arith)))

lt-last_of :
    (low : ℕ) (rows : List LogRow) → Above low rows → 1 ≤ length rows → low < last_of 0 rows
unfolding last_of
lt-last_of low [] h many = absurd (omega arith)
lt-last_of low (row ∷ rows) (h, r) many = omega (arith, (last_of-AtMost row.seq rows r).0)

-- A full batch has a new place to go to.
inspect_of-full :
    (size : ℕ) (prefix : Bytes) (after : ℕ) (v : View)
    → 1 ≤ size
    → IsOrdered v
    → inspect_of size v (matched size prefix after v) ≤ after
    → v.end_seq ≤ after
unfolding inspect_of
inspect_of-full size prefix after v many ordered le = elim (Bool-cases (length found == size)) [
  | inl full ↦
      ground
        (arith, lt-last_of after found (matched-Above size prefix after v ordered) (ground arith))
  | inr short ↦ ground arith
]
  where
    found : List LogRow
    found = matched size prefix after v

query_walk-SettledAt :
    (s : Session) (c : Cursor) (v : View)
    → 1 ≤ s.size
    → IsOrdered v
    → c.inspect_seq ≤ (query_walk s c v).inspect
    → (query_walk s c v).exit ≡ none
    → (query_walk s c v).progress ≡ false
    → SettledAt (record c { inspect_seq = (query_walk s c v).inspect }) v
unfolding query_walk
query_walk-SettledAt s c v many ordered forward out still =
    let found = matched s.size c.prefix c.inspect_seq v in
    elim (walk-Idles s.handle c.until_seq (inspect_of s.size v found) c.inspect_seq found out
      still) [
        | inl over ↦ inl over
        | inr low ↦
            let small = inspect_of-full s.size c.prefix c.inspect_seq v many ordered low in
            inr (pick_empty c.prefix (query_walk s c v).inspect v.end_seq v.rows (omega arith))
      ]

-- A visit that returns with no progress.
visit-SettledAt :
    (s : Session) (c : Cursor) (v : View)
    → 1 ≤ s.size
    → s.view c.stream ≡ ok v
    → IsOrdered v
    → (visit s c).exit ≡ none
    → (visit s c).progress ≡ false
    → SettledAt (moved c (visit s c)) v
unfolding moved
visit-SettledAt s c v many seen ordered out still = elim (Option-cases (s.ctx_err c.stream)) [
  | inr (x, gone) ↦ absurd (failure x gone)
  | inl live ↦ elim (Bool-cases (reached c.until_seq c.inspect_seq)) [
    | inl over ↦
        inl (ap (λ (w : Walk). reached c.until_seq (position w)) (visit_over s c live over) ∙ over)
    | inr on ↦
        let same = visit_on s c v live on seen in
        let out' = sym (ap (λ (w : Walk). w.exit) same) ∙ out in
        let still' = sym (ap (λ (w : Walk). w.progress) same) ∙ still in
        let at_end = ap (λ (x : Option Exit). position_by x (query_walk s c v)) out' in
        let place = ap (λ (w : Walk). position w) same ∙ at_end in
        let forward =
          subst (λ (p : ℕ). c.inspect_seq ≤ p) place (visit-Exactly s c v seen ordered).1 in
        subst (λ (p : ℕ). SettledAt (record c { inspect_seq = p }) v) (sym place)
          (query_walk-SettledAt s c v many ordered forward out' still')
  ]
]
  where
    failure : (x : Error) → s.ctx_err c.stream ≡ some x → ⊥
    failure x gone = ground (arith, visit_gone s c x gone)

abbrev pub AllSettled : Session → List Cursor → Type 0
AllSettled s [] = Unit
AllSettled s (c ∷ cs) = ((v : View) → s.view c.stream ≡ ok v → SettledAt c v) × AllSettled s cs

round_on :
    (s : Session) (c : Cursor) (cs : List Cursor)
    → (visit s c).exit ≡ none
    → round s (c ∷ cs) ≡ before_rest c (visit s c) (round s cs)
unfolding round
round_on s c cs on = ap (λ (x : Option Exit). end_visit x c (visit s c) cs (round s cs)) on

round_out :
    (s : Session) (c : Cursor) (cs : List Cursor) (x : Exit)
    → (visit s c).exit ≡ some x
    → (round s (c ∷ cs)).round_exit ≡ some x
unfolding round
round_out s c cs x gone =
    ap (λ (y : Option Exit). (end_visit y c (visit s c) cs (round s cs)).round_exit) gone

round-AllSettled :
    (s : Session) (cs : List Cursor)
    → 1 ≤ s.size
    → ((stream : Bytes) (v : View) → s.view stream ≡ ok v → IsOrdered v)
    → (round s cs).round_exit ≡ none
    → (round s cs).any_progress ≡ false
    → AllSettled s (round s cs).cursors
unfolding round
round-AllSettled s [] many ordered out still = tt
round-AllSettled s (c ∷ cs) many ordered out still = elim (Option-cases (visit s c).exit) [
  | inr (x, gone) ↦ absurd (cc (round_out s c cs x gone))
  | inl on ↦
      let same = round_on s c cs on in
      let still' = sym (ap (λ (r : Round). r.any_progress) same) ∙ still in
      let out' = sym (ap (λ (r : Round). r.round_exit) same) ∙ out in
      let rest = round-AllSettled s cs many ordered out' (ground arith) in
      subst (λ (l : List Cursor). AllSettled s l) (sym (ap (λ (r : Round). r.cursors) same))
        (
          λ v seen. visit-SettledAt s c v many seen (ordered c.stream v seen) on (ground arith),
          rest,
        )
]

-- A round after which `Run` waits for a notification leaves every cursor at its end, or with nothing
-- to send of what its query showed. The batches are not empty, and the rows come in their order.
pub round-wait :
    (s : Session) (cs : List Cursor)
    → 1 ≤ s.size
    → ((stream : Bytes) (v : View) → s.view stream ≡ ok v → IsOrdered v)
    → after_round (round s cs) ≡ wait
    → AllSettled s (round s cs).cursors
unfolding after_round
round-wait s cs many ordered h = round-AllSettled s cs many ordered (ground arith) (ground arith)
