-- ===== src/Utils/Median.antt =====
-- The timestamp rule (utils.rs): a block is later than the median of the eleven before it.
pub mod Rank
use bitcoin_svm_bridge.Prelude.{ℕ, ◌+◌, List, [], ◌∷◌, Bool, ltb, if◌then◌else◌}

-- `for i in 0..10`, on what is left of the array
pub count_smaller : List ℕ → ℕ → ℕ → ℕ
count_smaller [] curr_timestamp amt = amt
count_smaller (a ∷ arr) curr_timestamp amt =
    count_smaller arr curr_timestamp (if ltb a curr_timestamp then amt + 1 else amt)

unfoldable pub is_larger_than_median : List ℕ → ℕ → ℕ → Bool
unfolding count_smaller
is_larger_than_median arr additional curr_timestamp =
    let amt = count_smaller arr curr_timestamp 0 in
    ltb 5 (if ltb additional curr_timestamp then amt + 1 else amt)
