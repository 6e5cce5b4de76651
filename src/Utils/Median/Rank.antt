-- ===== src/Utils/Median/Rank.antt =====
-- `is_larger_than_median` (utils.rs) and the median in a sorted list.
use mathlib.Core.List.{Perm, Permᴰ}
use mathlib.Core.Logic.{∥∥₁_elim}
use native.Mathlib.Nat.{ℕ_set}
use bitcoin_svm_bridge.Prelude.{
  ℕ, zero, suc, ◌+◌, ◌≤◌, ◌<◌, ◌≡◌, refl, sym, ◌∙◌, ap, List, [], ◌∷◌, All, length, get_or, ltb,
  arith, if◌then◌else◌,
}
use bitcoin_svm_bridge.Utils.Median.{count_smaller, is_larger_than_median}

-- how many values lie below `c`
abbrev below : ℕ → List ℕ → ℕ
below c [] = 0
below c (x ∷ xs) = (if ltb x c then 1 else 0) + below c xs

count_smaller-eq : (xs : List ℕ) (c amt : ℕ) → count_smaller xs c amt ≡ amt + below c xs
unfolding count_smaller
count_smaller-eq [] c amt = omega arith
count_smaller-eq (x ∷ xs) c amt =
    ground (arith, count_smaller-eq xs c (if ltb x c then amt + 1 else amt))

below-permᴰ : (c : ℕ) {xs ys : List ℕ} → Permᴰ xs ys → below c xs ≡ below c ys
below-permᴰ c Permᴰ.nil = refl
below-permᴰ c (Permᴰ.cons e p) = rw (e, below-permᴰ c p)
below-permᴰ c (Permᴰ.swap e f) = rw (e, f) (omega arith)
below-permᴰ c (Permᴰ.trans p q) = below-permᴰ c p ∙ below-permᴰ c q

below-perm : (c : ℕ) {xs ys : List ℕ} → Perm xs ys → below c xs ≡ below c ys
below-perm c p = ∥∥₁_elim p (ℕ_set _ _) (below-permᴰ c)

length-permᴰ : {xs ys : List ℕ} → Permᴰ xs ys → length xs ≡ length ys
length-permᴰ Permᴰ.nil = refl
length-permᴰ (Permᴰ.cons e p) = ap suc (length-permᴰ p)
length-permᴰ (Permᴰ.swap e f) = refl
length-permᴰ (Permᴰ.trans p q) = length-permᴰ p ∙ length-permᴰ q

length-perm : {xs ys : List ℕ} → Perm xs ys → length xs ≡ length ys
length-perm p = ∥∥₁_elim p (ℕ_set _ _) length-permᴰ

abbrev pub IsSorted : List ℕ → Type 0
IsSorted [] = Unit
IsSorted (x ∷ xs) = All (λ y. x ≤ y) xs × IsSorted xs

below-none : (c y : ℕ) (ys : List ℕ) → c ≤ y → All (λ z. y ≤ z) ys → below c ys ≡ 0
below-none c y [] h a = refl
below-none c y (z ∷ ys) h a = ground (arith, below-none c y ys h a.1)

get_or-le : (y k : ℕ) (ys : List ℕ) → k < length ys → All (λ z. y ≤ z) ys → y ≤ get_or ys k 0
get_or-le y k [] h a = elim h [ ]
get_or-le y zero (z ∷ ys) h a = a.0
get_or-le y (suc k) (z ∷ ys) h a = get_or-le y k ys (omega arith) a.1

-- In a sorted list, more than `k` values lie below `c` exactly when the value at `k` does.
below-rank :
    (c k : ℕ) (ys : List ℕ)
    → IsSorted ys
    → k < length ys
    → ltb k (below c ys) ≡ ltb (get_or ys k 0) c
below-rank c k [] s h = elim h [ ]
below-rank c zero (y ∷ ys) s h = ground (arith, below-none c y ys)
below-rank c (suc k) (y ∷ ys) s h = ground (
  arith,
  below-rank c k ys s.1 (omega arith),
  below-none c y ys,
  get_or-le y k ys (omega arith) s.0,
)

-- Whatever the order of the ten timestamps and the additional one, `is_larger_than_median` tests
-- whether the timestamp is greater than the sixth of the eleven in ascending order.
pub is_larger_than_median_lem :
    (arr : List ℕ) (additional curr_timestamp : ℕ) (sorted : List ℕ)
    → length arr ≡ 10
    → Perm sorted (additional ∷ arr)
    → IsSorted sorted
    → is_larger_than_median arr additional curr_timestamp ≡ ltb (get_or sorted 5 0) curr_timestamp
unfolding is_larger_than_median
is_larger_than_median_lem arr additional c sorted size p s =
    counted
    ∙ ap (λ (n : ℕ). ltb 5 n) (sym (below-perm c p))
    ∙ below-rank c 5 sorted s (omega (arith, length-perm p))
  where
    counted :
        ltb 5 (if ltb additional c then count_smaller arr c 0 + 1 else count_smaller arr c 0)
        ≡ ltb 5 (below c (additional ∷ arr))
    counted = ground (arith, count_smaller-eq arr c 0)
