-- ===== src/Tail/Exact/Visit.antt =====
-- A visit of a cursor sends what lies between its old place and its new one.
use lutra.Prelude.{
  ℕ, ◌≤◌, true, false, List, [], ◌∷◌, Option, none, some, leb, ◌==◌, length, ◌≡◌, refl, sym, ap,
  subst, ◌∙◌, arith, if_ind, Bool-cases, Option-cases, inl, inr,
}
use lutra.Prelude.Bytes.{Bytes}
use lutra.Prelude.Results.{Error, ok}
use lutra.Log.Types.{LogRow}
use lutra.Tail.Cursors.{
  Sent, failed, Walk, Cursor, View, Session, raise, walk, position, pick, first_rows, last_of,
  matched, inspect_of, joined, reached, idle, query_walk, query, visit,
}
use lutra.Tail.Exact.Order.{
  Above, AtMost, upto, upto-Above, upto-pick, pick_empty, pick-Above_low, pick-Above, pick-AtMost,
  first_rows-Above, first_rows-AtMost, first_rows_short, last_of-AtMost, upto-first_rows,
}
use lutra.Tail.Exact.Walk.{Walked, Before, walk-Walked}

-- The rows of a view are in the order of their numbers, from 1 on.
abbrev pub IsOrdered : View → Type 0
IsOrdered v = Above 0 v.rows

-- Between the cursor's old place and its new one, which is no earlier, just what was sent. The new
-- place is the old one or one that the view has.
abbrev pub Exactly : Cursor → View → Walk → Type 0
Exactly c v w =
    (w.sent ≡ pick c.prefix c.inspect_seq (position w) v.rows)
    × (c.inspect_seq ≤ position w)
    × (position w ≤ raise v.end_seq c.inspect_seq)

joined-Walked :
    (handle : LogRow → Sent) (until : Option ℕ) (target at : ℕ) (found : List LogRow)
    → Above at found
    → AtMost target found
    → Before until at
    → Walked found target at at (walk handle until target at at (joined found))
unfolding walk joined upto
joined-Walked handle until target at [] h m before = (refl, ground arith, omega arith)
joined-Walked handle until target at (row ∷ rows) h m before =
    walk-Walked handle until target at at (row ∷ rows) h m (omega arith) before

last_of-le :
    (low high : ℕ) (rows : List LogRow) → AtMost high rows → last_of low rows ≤ raise high low
unfolding last_of
last_of-le low high [] m = ground arith
last_of-le low high (row ∷ rows) (le, m) = ground (arith, last_of-le row.seq high rows m)

raise-last_of :
    (low : ℕ) (rows : List LogRow) → Above low rows → raise (last_of 0 rows) low ≡ last_of low rows
unfolding last_of
raise-last_of low [] h = ground arith
raise-last_of low (row ∷ rows) (h, r) = ground (arith, last_of-AtMost row.seq rows r)

-- The rows of the batch up to a place that its loop can reach are those of the stream.
upto-matched :
    (size : ℕ) (prefix : Bytes) (after p : ℕ) (v : View)
    → IsOrdered v
    → p ≤ raise (inspect_of size v (matched size prefix after v)) after
    → upto p (matched size prefix after v) ≡ pick prefix after p v.rows
unfolding matched inspect_of
upto-matched size prefix after p v ordered le =
    let all = pick prefix after v.end_seq v.rows in
    let rising = pick-Above prefix 0 after v.end_seq v.rows ordered in
    let high = first_rows-AtMost v.end_seq size all (pick-AtMost prefix after v.end_seq v.rows) in
    let found = first_rows size all in
    let up = first_rows-Above after size all rising in
    elim (Bool-cases (leb p after)) [
      | inl early ↦
          upto-Above after p found (ground arith) up
          ∙ sym (pick_empty prefix after p v.rows (ground arith))
      | inr late ↦ elim (Bool-cases (length found == size)) [
        | inl full ↦
            let low : p ≤ last_of after found = ground (arith, raise-last_of after found up) in
            upto-first_rows size after p all rising low
            ∙ upto-pick prefix after p v.end_seq v.rows
                (ground (arith, last_of-le after v.end_seq found high))
        | inr short ↦
            ap (upto p) (first_rows_short size all short)
            ∙ upto-pick prefix after p v.end_seq v.rows (ground arith)
      ]
    ]

pub matched-Above :
    (size : ℕ) (prefix : Bytes) (after : ℕ) (v : View)
    → IsOrdered v
    → Above after (matched size prefix after v)
unfolding matched
matched-Above size prefix after v ordered =
    first_rows-Above after size (pick prefix after v.end_seq v.rows)
      (pick-Above prefix 0 after v.end_seq v.rows ordered)

matched-AtMost :
    (size : ℕ) (prefix : Bytes) (after : ℕ) (v : View)
    → IsOrdered v
    → AtMost (inspect_of size v (matched size prefix after v)) (matched size prefix after v)
unfolding matched inspect_of
matched-AtMost size prefix after v ordered =
    let all = pick prefix after v.end_seq v.rows in
    let found = first_rows size all in
    if_ind (λ (t : ℕ). AtMost t found) (length found == size)
      (λ full.
        (last_of-AtMost 0 found
          (first_rows-Above 0 size all (pick-Above_low prefix 0 after v.end_seq v.rows ordered))).1)
      (λ short. first_rows-AtMost v.end_seq size all (pick-AtMost prefix after v.end_seq v.rows))

inspect_of-le :
    (size : ℕ) (prefix : Bytes) (after : ℕ) (v : View)
    → inspect_of size v (matched size prefix after v) ≤ v.end_seq
unfolding matched inspect_of
inspect_of-le size prefix after v =
    let all = pick prefix after v.end_seq v.rows in
    let high = first_rows-AtMost v.end_seq size all (pick-AtMost prefix after v.end_seq v.rows) in
    ground (arith, last_of-le 0 v.end_seq (first_rows size all) high)

query_walk-Exactly :
    (s : Session) (c : Cursor) (v : View)
    → IsOrdered v
    → Before c.until_seq c.inspect_seq
    → Exactly c v (query_walk s c v)
unfolding query_walk
query_walk-Exactly s c v ordered before =
    let found = matched s.size c.prefix c.inspect_seq v in
    let (e, above, below) =
      joined-Walked s.handle c.until_seq (inspect_of s.size v found) c.inspect_seq found
        (matched-Above s.size c.prefix c.inspect_seq v ordered)
        (matched-AtMost s.size c.prefix c.inspect_seq v ordered) before in
    (
      e ∙ upto-matched s.size c.prefix c.inspect_seq (position (query_walk s c v)) v ordered below,
      above,
      ground (arith, inspect_of-le s.size c.prefix c.inspect_seq v),
    )

reached-Before : (until : Option ℕ) (at : ℕ) → reached until at ≡ false → Before until at
reached-Before none at h = tt
reached-Before (some last) at h = ground arith

module _ (s : Session) (c : Cursor) where
  pub visit_gone : (x : Error) → s.ctx_err c.stream ≡ some x → visit s c ≡ idle c (some (failed x))
  unfolding visit
  visit_gone x gone = rw (gone, visit) refl

  pub visit_over :
      s.ctx_err c.stream ≡ none → reached c.until_seq c.inspect_seq ≡ true → visit s c ≡ idle c none
  unfolding visit
  visit_over live over = rw (live, over, visit) refl

  pub visit_on :
      (v : View)
      → s.ctx_err c.stream ≡ none
      → reached c.until_seq c.inspect_seq ≡ false
      → s.view c.stream ≡ ok v
      → visit s c ≡ query_walk s c v
  unfolding visit query
  visit_on v live on seen = rw (live, on, seen, visit, query) refl

-- Whatever becomes of the records and of the call, a visit of a cursor sends, in order and once, the
-- records of the stream that its prefix selects between the cursor's place and the place where it
-- leaves it, and never moves the cursor back.
pub visit-Exactly :
    (s : Session) (c : Cursor) (v : View)
    → s.view c.stream ≡ ok v
    → IsOrdered v
    → Exactly c v (visit s c)
visit-Exactly s c v seen ordered = elim (Option-cases (s.ctx_err c.stream)) [
  | inr (x, gone) ↦ subst (Exactly c v) (sym (visit_gone s c x gone)) still
  | inl live ↦ elim (Bool-cases (reached c.until_seq c.inspect_seq)) [
    | inl over ↦ subst (Exactly c v) (sym (visit_over s c live over)) still
    | inr on ↦
        subst (Exactly c v) (sym (visit_on s c v live on seen))
          (query_walk-Exactly s c v ordered (reached-Before c.until_seq c.inspect_seq on))
  ]
]
  where
    still :
        ([] ≡ pick c.prefix c.inspect_seq c.inspect_seq v.rows)
        × (c.inspect_seq ≤ c.inspect_seq)
        × (c.inspect_seq ≤ raise v.end_seq c.inspect_seq)
    still = (
      sym (pick_empty c.prefix c.inspect_seq c.inspect_seq v.rows (omega arith)),
      omega arith,
      ground arith,
    )
