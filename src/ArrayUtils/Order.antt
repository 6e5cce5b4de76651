-- ===== src/ArrayUtils/Order.antt =====
-- The comparisons (arrayutils.rs) and the numbers.
use bitcoin_svm_bridge.Prelude.{ℕ, ◌+◌, ◌*◌, ◌<◌, ◌≡◌, refl, [], ◌∷◌, All, length, arith, ltb, leb}
use bitcoin_svm_bridge.ArrayUtils.{Bytes, gt_arr, gte_arr, lte_arr}
use bitcoin_svm_bridge.ArrayUtils.Value.{
  IsByte, IsU256, weight, value, weight-congr, value-lt-weight,
}

-- The first byte that differs decides.
head-lt : (a b v w p : ℕ) → a < b → v < p → a * p + v < b * p + w
head-lt a b v w p h hv = grind arith

gt_arr-eq-ltb :
    (xs ys : Bytes)
    → length xs ≡ length ys
    → All IsByte xs
    → All IsByte ys
    → gt_arr xs ys ≡ ltb (value ys) (value xs)
unfolding gt_arr
gt_arr-eq-ltb [] [] e h k = refl
gt_arr-eq-ltb [] (y ∷ ys) e h k = absurd (omega arith)
gt_arr-eq-ltb (x ∷ xs) [] e h k = absurd (omega arith)
gt_arr-eq-ltb (x ∷ xs) (y ∷ ys) e h k = ground (
  arith,
  gt_arr-eq-ltb xs ys (omega arith) h.1 k.1,
  weight-congr xs ys (omega arith),
  value-lt-weight xs h.1,
  value-lt-weight ys k.1,
  head-lt x y (value xs) (value ys) (weight xs),
  head-lt y x (value ys) (value xs) (weight xs),
)

gte_arr-eq-leb :
    (xs ys : Bytes)
    → length xs ≡ length ys
    → All IsByte xs
    → All IsByte ys
    → gte_arr xs ys ≡ leb (value ys) (value xs)
unfolding gte_arr
gte_arr-eq-leb [] [] e h k = refl
gte_arr-eq-leb [] (y ∷ ys) e h k = absurd (omega arith)
gte_arr-eq-leb (x ∷ xs) [] e h k = absurd (omega arith)
gte_arr-eq-leb (x ∷ xs) (y ∷ ys) e h k = ground (
  arith,
  gte_arr-eq-leb xs ys (omega arith) h.1 k.1,
  weight-congr xs ys (omega arith),
  value-lt-weight xs h.1,
  value-lt-weight ys k.1,
  head-lt x y (value xs) (value ys) (weight xs),
  head-lt y x (value ys) (value xs) (weight xs),
)

-- On 256-bit arrays `gt_arr`, `gte_arr` and `lte_arr` decide >, ≥ and ≤ of the numbers.
pub arr-order :
    {xs ys : Bytes}
    → IsU256 xs
    → IsU256 ys
    → (gt_arr xs ys ≡ ltb (value ys) (value xs))
      × (gte_arr xs ys ≡ leb (value ys) (value xs))
      × (lte_arr xs ys ≡ leb (value xs) (value ys))
unfolding lte_arr
arr-order {xs} {ys} h k = (
  gt_arr-eq-ltb xs ys (omega arith) h.bytes k.bytes,
  gte_arr-eq-leb xs ys (omega arith) h.bytes k.bytes,
  gte_arr-eq-leb ys xs (omega arith) k.bytes h.bytes,
)
