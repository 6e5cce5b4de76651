-- ===== src/Tests/Numbers.antt =====
-- Witnesses of the theorems on 256-bit arrays, targets, retargeting and the median.
use mathlib.Core.List.{perm_append_comm}
use bitcoin_svm_bridge.Prelude.{
  ℕ, ◌+◌, ◌-◌, ◌*◌, ◌/◌, ◌%◌, ◌^◌, ◌≤◌, ◌<◌, ◌≡◌, refl, List, [], ◌∷◌, ok, fail, panic, replicate,
  arith, ltb, leb,
}
use bitcoin_svm_bridge.ArrayUtils.{
  Bytes, add_in_place, mul_in_place, div_in_place, gt_arr, gte_arr, lte_arr,
}
use bitcoin_svm_bridge.ArrayUtils.Value.{value, IsU256}
use bitcoin_svm_bridge.ArrayUtils.Add.{value-add_in_place}
use bitcoin_svm_bridge.ArrayUtils.Mul.{value-mul_in_place}
use bitcoin_svm_bridge.ArrayUtils.Div.{value-div_in_place}
use bitcoin_svm_bridge.ArrayUtils.Order.{arr-order}
use bitcoin_svm_bridge.Utils.Target.{
  nbits_to_target, target_to_nbits, get_difficulty, max_difficulty,
}
use bitcoin_svm_bridge.Utils.Target.Compact.{nbits_size, mantissa, nbits_to_target-value}
use bitcoin_svm_bridge.Utils.Target.RoundTrip.{IsCanonical, target_to_nbits-nbits_to_target}
use bitcoin_svm_bridge.Utils.Target.Work.{get_difficulty-nbits_to_target}
use bitcoin_svm_bridge.Utils.Retarget.{compute_new_nbits}
use bitcoin_svm_bridge.Utils.Retarget.Bounds.{retarget_spec, compute_new_nbits_lem}
use bitcoin_svm_bridge.Utils.Median.{is_larger_than_median}
use bitcoin_svm_bridge.Utils.Median.Rank.{is_larger_than_median_lem}

-- 2 ^ 256 - 1
abbrev all_ones : Bytes
all_ones = replicate 32 255

abbrev threes : Bytes
threes = replicate 32 3

all_ones-IsU256 : IsU256 all_ones
all_ones-IsU256 = omega arith

threes-IsU256 : IsU256 threes
threes-IsU256 = omega arith

value-add_in_place_example :
    IsU256 (add_in_place all_ones threes)
    × (value (add_in_place all_ones threes) ≡ (value all_ones + value threes) % 2 ^ 256)
value-add_in_place_example = value-add_in_place all_ones-IsU256 threes-IsU256

value-mul_in_place_example :
    IsU256 (mul_in_place threes 1209600)
    × (value (mul_in_place threes 1209600) ≡ (value threes * 1209600) % 2 ^ 256)
value-mul_in_place_example = value-mul_in_place 1209600 threes-IsU256

value-div_in_place_example :
    (q : Bytes) × (div_in_place all_ones 1209600 ≡ ok q)
    × IsU256 q
    × (value q ≡ value all_ones / 1209600)
value-div_in_place_example = value-div_in_place 1209600 all_ones-IsU256 (omega arith)

arr-order_example :
    (gt_arr all_ones threes ≡ ltb (value threes) (value all_ones))
    × (gte_arr all_ones threes ≡ leb (value threes) (value all_ones))
    × (lte_arr all_ones threes ≡ leb (value all_ones) (value threes))
arr-order_example = arr-order all_ones-IsU256 threes-IsU256

nbits_to_target-value_example :
    (3 ≤ nbits_size 0x1b0404cb
      → nbits_size 0x1b0404cb ≤ 32
      → (t : Bytes) × (nbits_to_target 0x1b0404cb ≡ ok t)
        × IsU256 t
        × (value t ≡ mantissa 0x1b0404cb * 256 ^ (nbits_size 0x1b0404cb - 3)))
    × (32 < nbits_size 0x1b0404cb → nbits_to_target 0x1b0404cb ≡ fail panic)
nbits_to_target-value_example = nbits_to_target-value 0x1b0404cb (omega arith)

mainnet_bits-IsCanonical : IsCanonical 0x1d00ffff
mainnet_bits-IsCanonical = omega arith

target_to_nbits-nbits_to_target_example :
    (t : Bytes) × (nbits_to_target 0x1d00ffff ≡ ok t) × (target_to_nbits t ≡ 0x1d00ffff)
target_to_nbits-nbits_to_target_example =
    target_to_nbits-nbits_to_target 0x1d00ffff (omega arith) mainnet_bits-IsCanonical

get_difficulty-nbits_to_target_example :
    (t d : Bytes) × (nbits_to_target 0x1d00ffff ≡ ok t)
    × (get_difficulty t ≡ ok d)
    × IsU256 d
    × (value d ≡ value max_difficulty / value t)
get_difficulty-nbits_to_target_example =
    get_difficulty-nbits_to_target 0x1d00ffff (omega arith) mainnet_bits-IsCanonical (omega arith)

abbrev small_target : Bytes
small_target = 0 ∷ 0 ∷ 0 ∷ 0 ∷ 0 ∷ 1 ∷ replicate 26 0

small_target-IsU256 : IsU256 small_target
small_target-IsU256 = omega arith

compute_new_nbits_lem_example :
    (t : Bytes) × IsU256 t
    × (value t ≡ retarget_spec (value small_target) (1600000000 - 1599000000))
    × (compute_new_nbits 1600000000 1599000000 small_target ≡ ok (target_to_nbits t))
compute_new_nbits_lem_example =
    compute_new_nbits_lem 1600000000 1599000000 small_target-IsU256 (omega arith) (omega arith)

abbrev eleven : List ℕ
eleven = 1 ∷ 2 ∷ 3 ∷ 4 ∷ 5 ∷ 6 ∷ 7 ∷ 8 ∷ 9 ∷ 10 ∷ 11 ∷ []

is_larger_than_median_lem_example :
    is_larger_than_median (5 ∷ 6 ∷ 7 ∷ 8 ∷ 9 ∷ 10 ∷ 11 ∷ 1 ∷ 2 ∷ 3 ∷ []) 4 7 ≡ ltb 6 7
is_larger_than_median_lem_example =
    is_larger_than_median_lem (5 ∷ 6 ∷ 7 ∷ 8 ∷ 9 ∷ 10 ∷ 11 ∷ 1 ∷ 2 ∷ 3 ∷ []) 4 7 eleven refl
      (perm_append_comm (1 ∷ 2 ∷ 3 ∷ []) (4 ∷ 5 ∷ 6 ∷ 7 ∷ 8 ∷ 9 ∷ 10 ∷ 11 ∷ [])) (omega arith)
