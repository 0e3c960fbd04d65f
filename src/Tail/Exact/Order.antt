-- ===== src/Tail/Exact/Order.antt =====
-- Records in the order of their numbers, and the queries on them.
use lutra.Prelude.{
  ℕ, zero, suc, ◌≤◌, ◌<◌, false, ◌&&◌, List, [], ◌∷◌, if◌then◌else◌, ◌==◌, ltb, leb, length, ◌≡◌,
  refl, sym, ap, arith, Bool-cases, inl, inr,
}
use lutra.Prelude.Bytes.{Bytes}
use lutra.Log.Types.{LogRow}
use lutra.Tail.Prefix.{selects}
use lutra.Tail.Cursors.{pick, first_rows, last_of}

-- The numbers rise, from above `low` on.
abbrev pub Above : ℕ → List LogRow → Type 0
Above low [] = Unit
Above low (row ∷ rows) = (low < row.seq) × Above row.seq rows

-- No number is above `high`.
abbrev pub AtMost : ℕ → List LogRow → Type 0
AtMost high [] = Unit
AtMost high (row ∷ rows) = (row.seq ≤ high) × AtMost high rows

unfoldable pub upto : ℕ → List LogRow → List LogRow
upto high [] = []
upto high (row ∷ rows) = if leb row.seq high then row ∷ upto high rows else upto high rows

pub Above-weaken :
    (low high : ℕ) (rows : List LogRow) → low ≤ high → Above high rows → Above low rows
Above-weaken low high [] le h = tt
Above-weaken low high (row ∷ rows) le (h, r) = (omega arith, r)

pub upto-Above :
    (low high : ℕ) (rows : List LogRow) → high ≤ low → Above low rows → upto high rows ≡ []
unfolding upto
upto-Above low high [] le h = refl
upto-Above low high (row ∷ rows) le (h, r) = ground (arith, upto-Above row.seq high rows)

pub upto-AtMost : (high : ℕ) (rows : List LogRow) → AtMost high rows → upto high rows ≡ rows
unfolding upto
upto-AtMost high [] h = refl
upto-AtMost high (row ∷ rows) (h, r) = ground (arith, upto-AtMost high rows r)

pub AtMost-weaken :
    (low high : ℕ) (rows : List LogRow) → low ≤ high → AtMost low rows → AtMost high rows
AtMost-weaken low high [] le h = tt
AtMost-weaken low high (row ∷ rows) le (h, r) = (omega arith, AtMost-weaken low high rows le r)

pub pick-Above_low :
    (prefix : Bytes) (low after last : ℕ) (rows : List LogRow)
    → Above low rows
    → Above low (pick prefix after last rows)
unfolding pick
pick-Above_low prefix low after last [] h = tt
pick-Above_low prefix low after last (row ∷ rows) (h, r) =
    elim (Bool-cases (ltb after row.seq && leb row.seq last && selects prefix row.key)) [
      | inl taken ↦ rw taken (h, pick-Above_low prefix row.seq after last rows r)
      | inr left ↦ rw left (
          pick-Above_low prefix low after last rows (Above-weaken low row.seq rows (omega arith) r))
    ]

pub pick-Above :
    (prefix : Bytes) (low after last : ℕ) (rows : List LogRow)
    → Above low rows
    → Above after (pick prefix after last rows)
unfolding pick
pick-Above prefix low after last [] h = tt
pick-Above prefix low after last (row ∷ rows) (h, r) =
    elim (Bool-cases (ltb after row.seq && leb row.seq last && selects prefix row.key)) [
      | inl taken ↦ rw taken (ground arith, pick-Above_low prefix row.seq after last rows r)
      | inr left ↦ rw left (pick-Above prefix row.seq after last rows r)
    ]

pub pick-AtMost :
    (prefix : Bytes) (after last : ℕ) (rows : List LogRow)
    → AtMost last (pick prefix after last rows)
unfolding pick
pick-AtMost prefix after last [] = tt
pick-AtMost prefix after last (row ∷ rows) =
    elim (Bool-cases (ltb after row.seq && leb row.seq last && selects prefix row.key)) [
      | inl taken ↦ rw taken (ground arith, pick-AtMost prefix after last rows)
      | inr left ↦ rw left (pick-AtMost prefix after last rows)
    ]

pub upto-pick :
    (prefix : Bytes) (after high last : ℕ) (rows : List LogRow)
    → high ≤ last
    → upto high (pick prefix after last rows) ≡ pick prefix after high rows
unfolding upto pick
upto-pick prefix after high last [] le = refl
upto-pick prefix after high last (row ∷ rows) le =
    ground (arith, upto-pick prefix after high last rows)

pub pick_empty :
    (prefix : Bytes) (after last : ℕ) (rows : List LogRow)
    → last ≤ after
    → pick prefix after last rows ≡ []
unfolding pick
pick_empty prefix after last [] le = refl
pick_empty prefix after last (row ∷ rows) le = ground (arith, pick_empty prefix after last rows)

pub first_rows-Above :
    (low n : ℕ) (rows : List LogRow) → Above low rows → Above low (first_rows n rows)
unfolding first_rows
first_rows-Above low zero rows h = tt
first_rows-Above low (suc n) [] h = tt
first_rows-Above low (suc n) (row ∷ rows) (h, r) = (h, first_rows-Above row.seq n rows r)

pub first_rows-AtMost :
    (high n : ℕ) (rows : List LogRow) → AtMost high rows → AtMost high (first_rows n rows)
unfolding first_rows
first_rows-AtMost high zero rows h = tt
first_rows-AtMost high (suc n) [] h = tt
first_rows-AtMost high (suc n) (row ∷ rows) (h, r) = (h, first_rows-AtMost high n rows r)

-- A batch that is not full is all there is.
pub first_rows_short :
    (n : ℕ) (rows : List LogRow)
    → (length (first_rows n rows) == n) ≡ false
    → first_rows n rows ≡ rows
unfolding first_rows
first_rows_short zero rows h = ground arith
first_rows_short (suc n) [] h = refl
first_rows_short (suc n) (row ∷ rows) h =
    ap (λ (l : List LogRow). row ∷ l) (first_rows_short n rows (ground arith))

pub last_of-AtMost :
    (low : ℕ) (rows : List LogRow)
    → Above low rows
    → (low ≤ last_of low rows) × AtMost (last_of low rows) rows
unfolding last_of
last_of-AtMost low [] h = (omega arith, tt)
last_of-AtMost low (row ∷ rows) (h, r) =
    let (le, more) = last_of-AtMost row.seq rows r in (omega arith, (le, more))

-- Up to its last number, a batch has all there is.
pub upto-first_rows :
    (n low high : ℕ) (rows : List LogRow)
    → Above low rows
    → high ≤ last_of low (first_rows n rows)
    → upto high (first_rows n rows) ≡ upto high rows
unfolding upto first_rows last_of
upto-first_rows zero low high rows h le = sym (upto-Above low high rows le h)
upto-first_rows (suc n) low high [] h le = refl
upto-first_rows (suc n) low high (row ∷ rows) (h, r) le =
    ground (arith, upto-first_rows n row.seq high rows r)
