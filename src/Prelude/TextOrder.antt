-- ===== src/Prelude/TextOrder.antt =====
-- The order of texts, Go's `<` on strings, and its laws.
use Prim.Native.Nat.{ℕ, Ordering, compare as compare_ℕ}
use Prim.Native.Char.{code}
use Prim.Native.String.{String, [], ◌∷◌, compare}
use Prim.Native.String.compare
use text.Mathlib.Text.{is_lt, is_le}
use text.Mathlib.TextEquality.{path_by_compare}
use mathlib.Core.Path.{◌≡◌}
use mathlib.Core.Bool.{Bool, true, false}
use native.Mathlib.Omega.{arith}

-- `s < t`
abbrev pub str_lt : String → String → Bool
str_lt s t = is_lt (compare s t)

abbrev swap : Ordering → Ordering
swap Ordering.lt = Ordering.gt
swap Ordering.eq = Ordering.eq
swap Ordering.gt = Ordering.lt

compare_ℕ-swap : (m n : ℕ) → compare_ℕ n m ≡ swap (compare_ℕ m n)
compare_ℕ-swap m n = ground arith

compare-swap : (s t : String) → compare t s ≡ swap (compare s t)
compare-swap [] [] = ground (arith, compare.nil-nil)
compare-swap [] (d ∷ t) = ground (arith, compare.nil-cons d t, compare.cons-nil d t)
compare-swap (c ∷ s) [] = ground (arith, compare.nil-cons c s, compare.cons-nil c s)
compare-swap (c ∷ s) (d ∷ t) = ground (
  arith,
  compare.cons-cons c d s t,
  compare.cons-cons d c t s,
  compare-swap s t,
  compare_ℕ-swap (code c) (code d),
)

le_trans_text :
    (s t u : String)
    → is_le (compare s t) ≡ true
    → is_le (compare t u) ≡ true
    → is_le (compare s u) ≡ true
le_trans_text [] t [] p q = ground (arith, compare.nil-nil)
le_trans_text [] t (e ∷ u) p q = ground (arith, compare.nil-cons e u)
le_trans_text (c ∷ s) [] u p q = ground (arith, compare.cons-nil c s)
le_trans_text (c ∷ s) (d ∷ t) [] p q = ground (arith, compare.cons-nil d t)
le_trans_text (c ∷ s) (d ∷ t) (e ∷ u) p q = ground (
  arith,
  compare.cons-cons c d s t,
  compare.cons-cons d e t u,
  compare.cons-cons c e s u,
  le_trans_text s t u,
)

pub str_lt-le_trans :
    (s t u : String) → str_lt t s ≡ false → str_lt u t ≡ false → str_lt u s ≡ false
str_lt-le_trans s t u p q =
    ground (arith, compare-swap s t, compare-swap t u, compare-swap s u, le_trans_text s t u)

pub str_lt_asymm : (s t : String) → str_lt s t ≡ true → str_lt t s ≡ false
str_lt_asymm s t p = ground (arith, compare-swap s t)

-- Two texts neither of which is less are the same.
pub eq_of_not-str_lt : (s t : String) → str_lt s t ≡ false → str_lt t s ≡ false → s ≡ t
eq_of_not-str_lt s t p q = path_by_compare s t (ground (arith, compare-swap s t))
