-- ===== src/ArrayUtils.antt =====
-- programs/btc-relay/src/arrayutils.rs: 256-bit numbers as arrays of 32 bytes, the most
-- significant first. An array is the list of its bytes; its length, 32 in the source's type, is a
-- hypothesis of the laws. `val & 0xFF` is `val % 256` and `val >> 8` is `val / 256`.
pub mod Value
pub mod Add
pub mod Mul
pub mod Div
pub mod Order
use bitcoin_svm_bridge.Prelude.{
  ℕ, zero, suc, ◌+◌, ◌*◌, ◌/◌, ◌%◌, List, [], ◌∷◌, Bool, true, false, Result, ok, fail, panic, ltb,
  ◌==◌, if◌then◌else◌,
}

abbrev pub Bytes : Type 0
Bytes = List ℕ

-- The loop runs from the last byte to the first: what it has done to the bytes behind the head,
-- with the remainder that it carries, comes from the recursion.
pub add_loop : Bytes → Bytes → Bytes × ℕ
add_loop [] add = ([], 0)
add_loop (a ∷ arr) [] = (a ∷ arr, 0)
add_loop (a ∷ arr) (b ∷ add) =
    let (rest, remainder) = add_loop arr add in
    let val = a + b + remainder in (val % 256 ∷ rest, val / 256)

-- The last remainder is dropped.
unfoldable pub add_in_place : Bytes → Bytes → Bytes
unfolding add_loop
add_in_place arr add = (add_loop arr add).0

pub mul_loop : Bytes → ℕ → Bytes × ℕ
mul_loop [] casted_mul = ([], 0)
mul_loop (a ∷ arr) casted_mul =
    let (rest, remainder) = mul_loop arr casted_mul in
    let val = a * casted_mul + remainder in (val % 256 ∷ rest, val / 256)

unfoldable pub mul_in_place : Bytes → ℕ → Bytes
unfolding mul_loop
mul_in_place arr multiplicator = (mul_loop arr multiplicator).0

-- From the first byte to the last; `result as u8` cuts the quotient to a byte.
pub div_loop : Bytes → ℕ → ℕ → Bytes
div_loop [] casted_div remainder = []
div_loop (a ∷ arr) casted_div remainder =
    let val = a + remainder in
    (val / casted_div) % 256 ∷ div_loop arr casted_div ((val % casted_div) * 256)

-- A division by zero panics.
unfoldable pub div_in_place : Bytes → ℕ → Result Bytes
unfolding div_loop
div_in_place arr divisor = if divisor == 0 then fail panic else ok (div_loop arr divisor 0)

unfoldable pub gte_arr : Bytes → Bytes → Bool
gte_arr [] arr2 = true
gte_arr (a ∷ arr1) [] = true
gte_arr (a ∷ arr1) (b ∷ arr2) =
    if ltb b a then true else if ltb a b then false else gte_arr arr1 arr2

unfoldable pub lte_arr : Bytes → Bytes → Bool
unfolding gte_arr
lte_arr arr1 arr2 = gte_arr arr2 arr1

unfoldable pub gt_arr : Bytes → Bytes → Bool
gt_arr [] arr2 = false
gt_arr (a ∷ arr1) [] = false
gt_arr (a ∷ arr1) (b ∷ arr2) = if ltb b a then true else if ltb a b then false else gt_arr arr1 arr2
