-- ===== src/Log/Sequence/Rows.antt =====
-- Lists of sequence numbers, and the test for a stream's rows.
use lutra.Prelude.{
  ℕ, zero, suc, ◌+◌, ◌^◌, ◌<◌, true, false, List, [], ◌∷◌, ◌≡◌, sym, ap, ◌∙◌, arith,
}
use lutra.Prelude.Bytes.{Bytes, equal_self, equal-eq}
use lutra.Prelude.Int64.{add64}
use lutra.Log.Tables.{at}

-- `n`, ..., 1
unfoldable pub countdown : ℕ → List ℕ
countdown zero = []
countdown (suc n) = suc n ∷ countdown n

-- What a batch of `n` entries puts in front of `ns`, from its i-th entry on.
unfoldable pub block : (first i n : ℕ) → List ℕ → List ℕ
block first i zero ns = ns
block first i (suc n) ns = block first (i + 1) n (add64 first i ∷ ns)

pub add64-countdown :
    (base i : ℕ)
    → base + i + 1 < 2 ^ 63
    → (add64 (base + 1) i ∷ countdown (base + i)) ≡ countdown (base + (i + 1))
unfolding countdown
add64-countdown base i h =
    ap (λ (k : ℕ). k ∷ countdown (base + i)) (exact base i h) ∙ ap countdown (next base i)
  where
    exact : (base i : ℕ) → base + i + 1 < 2 ^ 63 → add64 (base + 1) i ≡ suc (base + i)
    exact base i h = omega (arith, h)

    next : (base i : ℕ) → suc (base + i) ≡ base + (i + 1)
    next base i = omega arith

pub block-countdown :
    (base i n : ℕ)
    → base + i + n < 2 ^ 63
    → block (base + 1) i n (countdown (base + i)) ≡ countdown (base + i + n)
unfolding block
block-countdown base i zero h = ap countdown (omega arith)
block-countdown base i (suc n) h =
    ap (block (base + 1) (i + 1) n) (add64-countdown base i (omega arith))
    ∙ block-countdown base (i + 1) n (omega arith)
    ∙ ap countdown (omega arith)

pub at_self : (run : ℕ) (stream : Bytes) → at run stream run stream ≡ true
unfolding at
at_self run stream = ground (arith, equal_self stream)

-- The test holds of one stream only.
pub at-eq :
    (run : ℕ) (stream : Bytes) (run' : ℕ) (stream' : Bytes)
    → at run stream run' stream' ≡ true
    → (run ≡ run') × (stream ≡ stream')
unfolding at
at-eq run stream run' stream' h = (ground arith, sym (equal-eq stream' stream (ground arith)))

pub at-same :
    (r : ℕ) (s : Bytes) (run : ℕ) (stream : Bytes) (a : ℕ) (b : Bytes)
    → at r s run stream ≡ true
    → at r s a b ≡ at run stream a b
at-same r s run stream a b h =
    let (er, es) = at-eq r s run stream h in
    ap (λ (k : ℕ). at k s a b) er ∙ ap (λ (t : Bytes). at run t a b) es

pub at-other :
    (r : ℕ) (s : Bytes) (run : ℕ) (stream : Bytes) (a : ℕ) (b : Bytes)
    → at r s run stream ≡ false
    → at run stream a b ≡ true
    → at r s a b ≡ false
at-other r s run stream a b unlike like =
    let (er, es) = at-eq run stream a b like in
    sym (ap (λ (k : ℕ). at r s k stream) er ∙ ap (λ (t : Bytes). at r s a t) es) ∙ unlike
