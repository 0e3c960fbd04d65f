-- ===== src/Tail/Range.antt =====
-- The keys between a prefix and its successor are the keys with the prefix.
use lutra.Prelude.{
  ℕ, zero, suc, ◌+◌, ◌%◌, ◌<◌, Bool, true, not, ◌&&◌, [], ◌∷◌, Option, none, some, if◌then◌else◌,
  ◌≡◌, refl, ap, ◌∙◌, arith, ◌==◌, length, Option-cases, inl, inr,
}
use lutra.Prelude.Bytes.{Bytes, before, has_prefix}
use lutra.Tail.Prefix.{first_bytes, scan_back, prefix_successor, in_bounds, selects}

abbrev pub AllBytes : Bytes → Type 0
AllBytes [] = Unit
AllBytes (b ∷ bs) = (b < 256) × AllBytes bs

-- The successor by recursion from the front.
abbrev prepend : ℕ → Option Bytes → Option Bytes
prepend b none = if b == 255 then none else some ((b + 1) % 256 ∷ [])
prepend b (some s) = some (b ∷ s)

unfoldable successor : Bytes → Option Bytes
successor [] = none
successor (b ∷ bs) = prepend b (successor bs)

scan_back-prepend : (i b : ℕ) (bs : Bytes) → scan_back (suc i) (b ∷ bs) ≡ prepend b (scan_back i bs)
unfolding scan_back first_bytes
scan_back-prepend zero b bs = ground arith
scan_back-prepend (suc i) b bs = ground (arith, scan_back-prepend i b bs)

prefix_successor-successor : (prefix : Bytes) → prefix_successor prefix ≡ successor prefix
unfolding prefix_successor successor scan_back
prefix_successor-successor [] = refl
prefix_successor-successor (b ∷ bs) =
    scan_back-prepend (length bs) b bs ∙ ap (prepend b) (prefix_successor-successor bs)

-- The upper bound.
abbrev below : Bytes → Option Bytes → Bool
below key none = true
below key (some upper) = before key upper

between-has_prefix :
    (prefix key : Bytes)
    → AllBytes prefix
    → AllBytes key
    → (not (before key prefix) && below key (successor prefix)) ≡ has_prefix key prefix
unfolding successor before has_prefix
between-has_prefix [] key hp hk = ground arith
between-has_prefix (b ∷ bs) [] (hb, hp) hk = ground arith
between-has_prefix (b ∷ bs) (x ∷ xs) (hb, hp) (hx, hk) = elim (Option-cases (successor bs)) [
  | inl absent ↦ ground (arith, between-has_prefix bs xs hp hk)
  | inr (s, found) ↦ ground (arith, between-has_prefix bs xs hp hk)
]

-- A cursor's query selects exactly the keys that start with its prefix.
pub selects-has_prefix :
    (prefix key : Bytes)
    → AllBytes prefix
    → AllBytes key
    → selects prefix key ≡ has_prefix key prefix
unfolding selects in_bounds has_prefix
selects-has_prefix [] key hp hk = ground arith
selects-has_prefix (b ∷ bs) key hp hk = elim (Option-cases (prefix_successor (b ∷ bs))) [
  | inl absent ↦
      ground (arith, between-has_prefix (b ∷ bs) key hp hk, prefix_successor-successor (b ∷ bs))
  | inr (s, found) ↦
      ground (arith, between-has_prefix (b ∷ bs) key hp hk, prefix_successor-successor (b ∷ bs))
]
