-- ===== src/Settings/Keys.antt =====
-- The settings that internal/settings/service.go writes and reads again.
use lutra.Prelude.{
  ℕ, true, false, List, [], ◌∷◌, ◌≡◌, refl, subst, arith, Bool-cases, inl, inr, if_ind,
}
use lutra.Prelude.Bytes.{Bytes, equal_self, equal-eq}
use lutra.Settings.Service.{Setting, has_key, row, write_row, delete_row, is_asked, select_rows}

-- No row has the key.
abbrev pub Absent : ℕ → Bytes → List Setting → Type 0
Absent n p [] = Unit
Absent n p (s ∷ ss) = (has_key n p s ≡ false) × Absent n p ss

-- The primary key of the table.
abbrev pub UniqueKeys : List Setting → Type 0
UniqueKeys [] = Unit
UniqueKeys (s ∷ ss) = Absent s.namespace s.path ss × UniqueKeys ss

same_key :
    (n : ℕ) (p : Bytes) (s : Setting) → has_key n p s ≡ true → (s.namespace ≡ n) × (s.path ≡ p)
same_key n p s e = (ground arith, equal-eq s.path p (ground arith))

pub select-Absent :
    (n : ℕ) (p : Bytes) (ss : List Setting) → Absent n p ss → select_rows n (p ∷ []) ss ≡ []
unfolding select_rows is_asked
select-Absent n p [] h = refl
select-Absent n p (s ∷ ss) (h, r) = ground (arith, select-Absent n p ss r)

Absent-move :
    (n m : ℕ) (p q : Bytes) (ss : List Setting) → n ≡ m → p ≡ q → Absent n p ss → Absent m q ss
Absent-move n m p q ss e f h = subst (λ k. Absent k q ss) e (subst (λ t. Absent n t ss) f h)

pub select_rows-write_row :
    (n : ℕ) (p v : Bytes) (ss : List Setting)
    → UniqueKeys ss
    → select_rows n (p ∷ []) (write_row n p v ss) ≡ row n p v ∷ []
unfolding select_rows is_asked write_row
select_rows-write_row n p v [] h = ground (arith, equal_self p)
select_rows-write_row n p v (s ∷ ss) (h, r) = elim (Bool-cases (has_key n p s)) [
  | inl same ↦
      let (k, l) = same_key n p s same in
      ground
        (arith, equal_self p, select-Absent n p ss (Absent-move s.namespace n s.path p ss k l h))
  | inr other ↦ ground (arith, select_rows-write_row n p v ss r)
]

pub delete_row-Absent : (n : ℕ) (p : Bytes) (ss : List Setting) → Absent n p (delete_row n p ss)
unfolding delete_row
delete_row-Absent n p [] = tt
delete_row-Absent n p (s ∷ ss) =
    if_ind (Absent n p) (has_key n p s) (λ _. delete_row-Absent n p ss)
      (λ other. (other, delete_row-Absent n p ss))
