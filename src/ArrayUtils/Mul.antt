-- ===== src/ArrayUtils/Mul.antt =====
-- The number of `mul_in_place` (arrayutils.rs), and the size of its carry.
use native.Mathlib.Nat.{div-add-mod}
use bitcoin_svm_bridge.Prelude.{
  ℕ, suc, ◌+◌, ◌*◌, ◌%◌, ◌^◌, ◌≤◌, ◌≡◌, refl, ap, [], ◌∷◌, All, length, arith,
}
use bitcoin_svm_bridge.ArrayUtils.{Bytes, mul_loop, mul_in_place}
use bitcoin_svm_bridge.ArrayUtils.Value.{
  IsByte, IsU256, weight, value, weight-congr, IsU256-weight, IsU256-lt, mod_of_split,
}

length-mul_loop : (xs : Bytes) (m : ℕ) → length (mul_loop xs m).0 ≡ length xs
unfolding mul_loop
length-mul_loop [] m = refl
length-mul_loop (x ∷ xs) m = ap suc (length-mul_loop xs m)

bytes-mul_loop : (xs : Bytes) (m : ℕ) → All IsByte (mul_loop xs m).0
unfolding mul_loop
bytes-mul_loop [] m = tt
bytes-mul_loop (x ∷ xs) m = (omega arith, bytes-mul_loop xs m)

value-mul_loop :
    (xs : Bytes) (m : ℕ) → value (mul_loop xs m).0 + (mul_loop xs m).1 * weight xs ≡ value xs * m
unfolding mul_loop
value-mul_loop [] m = omega arith
value-mul_loop (x ∷ xs) m =
    let s = x * m + (mul_loop xs m).1 in
    rw (weight-congr (mul_loop xs m).0 xs (length-mul_loop xs m))
      (omega (arith, value-mul_loop xs m, ap (λ (t : ℕ). t * weight xs) (div-add-mod s 256)))

-- The remainder that the loop carries is at most the multiplicator.
pub carry-mul_loop : (xs : Bytes) (m : ℕ) → All IsByte xs → (mul_loop xs m).1 ≤ m
unfolding mul_loop
carry-mul_loop [] m h = omega arith
carry-mul_loop (x ∷ xs) m h =
    let bound : x * m ≤ 255 * m = grind arith in omega (arith, carry-mul_loop xs m h.1)

-- On a 256-bit array, `mul_in_place` leaves a 256-bit array that stands for the product modulo
-- 2 ^ 256.
pub value-mul_in_place :
    {xs : Bytes} (m : ℕ)
    → IsU256 xs
    → IsU256 (mul_in_place xs m) × (value (mul_in_place xs m) ≡ (value xs * m) % 2 ^ 256)
unfolding mul_in_place
value-mul_in_place {xs} m h =
    let res : IsU256 (mul_loop xs m).0 = record {
      size = omega (arith, length-mul_loop xs m);
      bytes = bytes-mul_loop xs m;
    } in
    (
      res,
      mod_of_split _ _ (mul_loop xs m).1 (2 ^ 256) (IsU256-lt res)
          (rw (← IsU256-weight h) (value-mul_loop xs m)),
    )
