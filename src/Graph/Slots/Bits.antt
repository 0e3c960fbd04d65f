-- ===== src/Graph/Slots/Bits.antt =====
-- Lists of Booleans: whether each object holds its slot.
use lutra.Prelude.{
  ℕ, zero, suc, ◌≢◌, ◌+◌, List, [], ◌∷◌, ◌++◌, some, ◌≡◌, refl, ap, get_elem?, set, length, total,
  total-set, arith, true, false, Bool, ◌<◌, ◌⊎◌, inl, inr,
}
use lutra.Graph.System.{bit}

pub total-set-bit :
    (bs : List Bool) (h : ℕ) (b c : Bool)
    → get_elem? bs h ≡ some b
    → total bit (set bs h c) + bit b ≡ total bit bs + bit c
total-set-bit bs h b c p = total-set bit bs h c b p

pub length-set : (bs : List Bool) (h : ℕ) (b : Bool) → length (set bs h b) ≡ length bs
length-set [] h b = refl
length-set (x ∷ bs) zero b = refl
length-set (x ∷ bs) (suc h) b = ap suc (length-set bs h b)

pub get_elem?-set-true :
    (bs : List Bool) (h j : ℕ)
    → get_elem? (set bs h false) j ≡ some true
    → get_elem? bs j ≡ some true
get_elem?-set-true [] h j p = p
get_elem?-set-true (x ∷ bs) zero zero p = cc
get_elem?-set-true (x ∷ bs) zero (suc j) p = p
get_elem?-set-true (x ∷ bs) (suc h) zero p = p
get_elem?-set-true (x ∷ bs) (suc h) (suc j) p = get_elem?-set-true bs h j p

pub get_elem?-set-false :
    (bs : List Bool) (h j : ℕ)
    → get_elem? bs j ≡ some false
    → get_elem? (set bs h false) j ≡ some false
get_elem?-set-false [] h j p = p
get_elem?-set-false (x ∷ bs) zero zero p = refl
get_elem?-set-false (x ∷ bs) zero (suc j) p = p
get_elem?-set-false (x ∷ bs) (suc h) zero p = p
get_elem?-set-false (x ∷ bs) (suc h) (suc j) p = get_elem?-set-false bs h j p

pub get_elem?-set_ne :
    (bs : List Bool) (h j : ℕ) (b : Bool) → h ≢ j → get_elem? (set bs h b) j ≡ get_elem? bs j
get_elem?-set_ne [] h j b ne = refl
get_elem?-set_ne (x ∷ bs) zero zero b ne = absurd (ne refl)
get_elem?-set_ne (x ∷ bs) zero (suc j) b ne = refl
get_elem?-set_ne (x ∷ bs) (suc h) zero b ne = refl
get_elem?-set_ne (x ∷ bs) (suc h) (suc j) b ne = get_elem?-set_ne bs h j b (λ e. ne (ap suc e))

-- One more object, that holds its slot.
pub get_elem?-snoc :
    (bs : List Bool) (h : ℕ)
    → get_elem? (bs ++ true ∷ []) h ≡ some true
    → (get_elem? bs h ≡ some true) ⊎ (h ≡ length bs)
get_elem?-snoc [] zero p = inr refl
get_elem?-snoc [] (suc h) p = cc
get_elem?-snoc (x ∷ bs) zero p = inl p
get_elem?-snoc (x ∷ bs) (suc h) p = elim (get_elem?-snoc bs h p) [
  | inl q ↦ inl q
  | inr q ↦ inr (ap suc q)
]

pub get_elem?-append :
    (bs cs : List Bool) (h : ℕ) (b : Bool)
    → get_elem? bs h ≡ some b
    → get_elem? (bs ++ cs) h ≡ some b
get_elem?-append [] cs h b p = cc
get_elem?-append (x ∷ bs) cs zero b p = p
get_elem?-append (x ∷ bs) cs (suc h) b p = get_elem?-append bs cs h b p

pub get_elem?-lt : (bs : List Bool) (h : ℕ) (b : Bool) → get_elem? bs h ≡ some b → h < length bs
get_elem?-lt [] h b p = cc
get_elem?-lt (x ∷ bs) zero b p = omega arith
get_elem?-lt (x ∷ bs) (suc h) b p = omega (arith, get_elem?-lt bs h b p)

pub get_elem?-set_self :
    (bs : List Bool) (h : ℕ) (b c : Bool)
    → get_elem? bs h ≡ some b
    → get_elem? (set bs h c) h ≡ some c
get_elem?-set_self [] h b c p = cc
get_elem?-set_self (x ∷ bs) zero b c p = refl
get_elem?-set_self (x ∷ bs) (suc h) b c p = get_elem?-set_self bs h b c p
