-- ===== src/ArrayUtils/Div.antt =====
-- The number of `div_in_place` (arrayutils.rs).
use native.Mathlib.Nat.{div-add-mod, div-eq_of_lt-le, mod-eq_of_lt, div-lt_iff_lt-mul}
use bitcoin_svm_bridge.Prelude.{
  ℕ, suc, ◌+◌, ◌*◌, ◌/◌, ◌%◌, ◌<◌, ◌≡◌, refl, sym, ap, [], ◌∷◌, All, length, arith, ok, fail, panic,
}
use bitcoin_svm_bridge.ArrayUtils.{Bytes, div_loop, div_in_place}
use bitcoin_svm_bridge.ArrayUtils.Value.{IsByte, IsU256, weight, value, weight-congr}

length-div_loop : (xs : Bytes) (d r : ℕ) → length (div_loop xs d r) ≡ length xs
unfolding div_loop
length-div_loop [] d r = refl
length-div_loop (x ∷ xs) d r = ap suc (length-div_loop xs d ((x + r) % d * 256))

bytes-div_loop : (xs : Bytes) (d r : ℕ) → All IsByte (div_loop xs d r)
unfolding div_loop
bytes-div_loop [] d r = tt
bytes-div_loop (x ∷ xs) d r = (omega arith, bytes-div_loop xs d ((x + r) % d * 256))

-- With a remainder below the divisor, the quotient of one step fits a byte.
digit-lt : (x r d : ℕ) → x < 256 → r < d → (x + r * 256) / d < 256
digit-lt x r d hx hr = (div-lt_iff_lt-mul (omega arith)).1 (omega arith)

-- Long division, started with the remainder `r` of the bytes in front.
value-div_loop :
    (xs : Bytes) (d r : ℕ)
    → All IsByte xs
    → r < d
    → (f : ℕ) × (f < d) × (d * value (div_loop xs d (r * 256)) + f ≡ r * weight xs + value xs)
unfolding div_loop
value-div_loop [] d r h hr = (r, hr, omega arith)
value-div_loop (x ∷ xs) d r h hr =
    let val = x + r * 256 in
    let (f, hf, e) = value-div_loop xs d (val % d) h.1 (omega arith) in
    (
      f,
      hf,
      rw
          (
            weight-congr (div_loop xs d (val % d * 256)) xs (length-div_loop xs d _),
            mod-eq_of_lt (digit-lt x r d h.0 hr),
          )
          (omega (arith, e, ap (λ (t : ℕ). t * weight xs) (div-add-mod val d))),
    )

-- `div_in_place` leaves a 256-bit array that stands for the quotient rounded down, for every
-- divisor but 0.
pub value-div_in_place :
    {xs : Bytes} (d : ℕ)
    → IsU256 xs
    → 0 < d
    → (q : Bytes) × (div_in_place xs d ≡ ok q) × IsU256 q × (value q ≡ value xs / d)
unfolding div_in_place
value-div_in_place {xs} d h hd =
    let (f, hf, e) = value-div_loop xs d 0 h.bytes hd in
    (
      div_loop xs d 0,
      ground arith,
      record { size = omega (arith, length-div_loop xs d 0); bytes = bytes-div_loop xs d 0 },
      sym (div-eq_of_lt-le d (omega arith) (omega arith)),
    )

-- A division by zero panics.
pub div_in_place-zero : (xs : Bytes) → div_in_place xs 0 ≡ fail panic
unfolding div_in_place
div_in_place-zero xs = refl
