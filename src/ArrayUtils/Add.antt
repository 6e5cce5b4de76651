-- ===== src/ArrayUtils/Add.antt =====
-- The number of `add_in_place` (arrayutils.rs).
use native.Mathlib.Nat.{div-add-mod}
use bitcoin_svm_bridge.Prelude.{
  ℕ, suc, ◌+◌, ◌*◌, ◌%◌, ◌^◌, ◌≡◌, refl, ap, [], ◌∷◌, All, length, arith,
}
use bitcoin_svm_bridge.ArrayUtils.{Bytes, add_loop, add_in_place}
use bitcoin_svm_bridge.ArrayUtils.Value.{
  IsByte, IsU256, weight, value, weight-congr, IsU256-weight, IsU256-lt, mod_of_split,
}

pub length-add_loop :
    (xs ys : Bytes) → length xs ≡ length ys → length (add_loop xs ys).0 ≡ length xs
unfolding add_loop
length-add_loop [] ys h = refl
length-add_loop (x ∷ xs) [] h = refl
length-add_loop (x ∷ xs) (y ∷ ys) h = ap suc (length-add_loop xs ys (omega arith))

bytes-add_loop : (xs ys : Bytes) → All IsByte xs → All IsByte (add_loop xs ys).0
unfolding add_loop
bytes-add_loop [] ys h = tt
bytes-add_loop (x ∷ xs) [] h = h
bytes-add_loop (x ∷ xs) (y ∷ ys) h = (omega arith, bytes-add_loop xs ys h.1)

-- The digits and the carry add up to the sum.
value-add_loop :
    (xs ys : Bytes)
    → length xs ≡ length ys
    → value (add_loop xs ys).0 + (add_loop xs ys).1 * weight xs ≡ value xs + value ys
unfolding add_loop
value-add_loop [] [] h = refl
value-add_loop [] (y ∷ ys) h = absurd (omega arith)
value-add_loop (x ∷ xs) [] h = absurd (omega arith)
value-add_loop (x ∷ xs) (y ∷ ys) h =
    let s = x + y + (add_loop xs ys).1 in
    rw
      (
        weight-congr (add_loop xs ys).0 xs (length-add_loop xs ys (omega arith)),
        ← weight-congr xs ys (omega arith),
      )
      (omega (
        arith,
        value-add_loop xs ys (omega arith),
        ap (λ (t : ℕ). t * weight xs) (div-add-mod s 256),
      ))

-- On 256-bit operands, `add_in_place` leaves a 256-bit array that stands for the sum modulo 2 ^ 256.
pub value-add_in_place :
    {xs ys : Bytes}
    → IsU256 xs
    → IsU256 ys
    → IsU256 (add_in_place xs ys) × (value (add_in_place xs ys) ≡ (value xs + value ys) % 2 ^ 256)
unfolding add_in_place
value-add_in_place {xs} {ys} h k =
    let same : length xs ≡ length ys = omega arith in
    let res : IsU256 (add_loop xs ys).0 = record {
      size = omega (arith, length-add_loop xs ys same);
      bytes = bytes-add_loop xs ys h.bytes;
    } in
    (
      res,
      mod_of_split _ _ (add_loop xs ys).1 (2 ^ 256) (IsU256-lt res)
          (rw (← IsU256-weight h) (value-add_loop xs ys same)),
    )
