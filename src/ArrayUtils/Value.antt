-- ===== src/ArrayUtils/Value.antt =====
-- The number that an array of bytes stands for, and the arrays that the source's types allow.
use native.Mathlib.Nat.{add-mul-mod_self_right, mod-eq_of_lt, pow-succ'}
use bitcoin_svm_bridge.Prelude.{
  ℕ, zero, ◌+◌, ◌*◌, ◌%◌, ◌^◌, ◌<◌, ◌≡◌, refl, List, [], ◌∷◌, ◌++◌, ap, All, length, replicate,
  length-replicate, arith,
}

abbrev pub IsByte : ℕ → Type 0
IsByte b = b < 256

-- a power of 256: the weight of a byte in front of `xs`
abbrev pub weight : List ℕ → ℕ
weight [] = 1
weight (x ∷ xs) = 256 * weight xs

abbrev pub value : List ℕ → ℕ
value [] = 0
value (x ∷ xs) = x * weight xs + value xs

-- `[u8; 32]`
pub record IsU256 (xs : List ℕ) : Type 0 where
  pub size : length xs ≡ 32
  pub bytes : All IsByte xs

pub weight-pos : (xs : List ℕ) → 0 < weight xs
weight-pos [] = omega arith
weight-pos (x ∷ xs) = omega (arith, weight-pos xs)

pub value-lt-weight : (xs : List ℕ) → All IsByte xs → value xs < weight xs
value-lt-weight [] h = omega arith
value-lt-weight (x ∷ xs) h = grind (arith, value-lt-weight xs h.1)

weight-append : (xs ys : List ℕ) → weight (xs ++ ys) ≡ weight xs * weight ys
weight-append [] ys = omega arith
weight-append (x ∷ xs) ys = omega (arith, weight-append xs ys)

pub weight-eq-pow : (xs : List ℕ) → weight xs ≡ 256 ^ length xs
weight-eq-pow [] = refl
weight-eq-pow (x ∷ xs) = omega (arith, weight-eq-pow xs, pow-succ' 256 (length xs))

pub value-append : (xs ys : List ℕ) → value (xs ++ ys) ≡ value xs * weight ys + value ys
value-append [] ys = omega arith
value-append (x ∷ xs) ys =
    omega (arith, value-append xs ys, ap (λ (t : ℕ). x * t) (weight-append xs ys))

pub weight-congr : (xs ys : List ℕ) → length xs ≡ length ys → weight xs ≡ weight ys
weight-congr [] [] h = refl
weight-congr [] (y ∷ ys) h = absurd (omega arith)
weight-congr (x ∷ xs) [] h = absurd (omega arith)
weight-congr (x ∷ xs) (y ∷ ys) h = omega (arith, weight-congr xs ys (omega arith))

zeros : ℕ → List ℕ
zeros n = replicate n 0

weight_of_length : (n : ℕ) (xs : List ℕ) → length xs ≡ n → weight xs ≡ weight (zeros n)
unfolding zeros
weight_of_length n xs h = weight-congr xs (replicate n 0) (rw (length-replicate n (zero)) h)

pub IsU256-weight : {xs : List ℕ} → IsU256 xs → weight xs ≡ 2 ^ 256
unfolding zeros
IsU256-weight {xs} h = weight_of_length 32 xs h.size

pub IsU256-lt : {xs : List ℕ} → IsU256 xs → value xs < 2 ^ 256
IsU256-lt {xs} h = rw (← IsU256-weight h) (value-lt-weight xs h.bytes)

-- The remainder is what is left below a multiple.
pub mod_of_split : (n r k m : ℕ) → r < m → r + k * m ≡ n → r ≡ n % m
mod_of_split n r k m h e = rw (← e, add-mul-mod_self_right, mod-eq_of_lt h)
