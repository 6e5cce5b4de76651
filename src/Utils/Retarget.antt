-- ===== src/Utils/Retarget.antt =====
-- Difficulty retargeting (utils.rs): every 2016 blocks the target is scaled by the time that the
-- last period took.
pub mod Bounds
use bitcoin_svm_bridge.Prelude.{
  ℕ, ◌+◌, ◌*◌, ◌%◌, ◌^◌, ◌/◌, List, Bool, Result, ok, ◌>>=◌, ltb, ◌==◌, if◌then◌else◌, checked_add,
  checked_sub,
}
use bitcoin_svm_bridge.ArrayUtils.{Bytes, mul_in_place, div_in_place, gt_arr}
use bitcoin_svm_bridge.Structs.{CommittedBlockHeader}
use bitcoin_svm_bridge.Utils.Target.{target_to_nbits, nbits_to_target, unrounded_max_target}

abbrev pub diff_adjustment_interval : ℕ
diff_adjustment_interval = 2016

-- two weeks in seconds
abbrev pub target_timespan : ℕ
target_timespan = 14 * 24 * 60 * 60

abbrev pub target_timespan_div_4 : ℕ
target_timespan_div_4 = target_timespan / 4

abbrev pub target_timespan_mul_4 : ℕ
target_timespan_mul_4 = target_timespan * 4

-- the two tests on the time span, one behind the other
abbrev pub clamp_timespan : ℕ → ℕ
clamp_timespan time_span =
    let raised = if ltb time_span target_timespan_div_4 then target_timespan_div_4 else time_span in
    if ltb target_timespan_mul_4 raised then target_timespan_mul_4 else raised

-- The target that the source changes in place is read by nothing afterwards but a log line.
-- The times are `u32`: a period that ends before it starts underflows.
unfoldable pub compute_new_nbits : ℕ → ℕ → Bytes → Result ℕ
compute_new_nbits prev_time start_time prev_target =
    checked_sub prev_time start_time >>= λ time_span.
    div_in_place (mul_in_place prev_target (clamp_timespan time_span)) target_timespan
    >>= λ new_target. ok (
        if gt_arr new_target unrounded_max_target
        then target_to_nbits unrounded_max_target
        else target_to_nbits new_target)

unfoldable pub should_diff_adjust : ℕ → Bool
should_diff_adjust block_height = block_height % diff_adjustment_interval == 0

unfoldable pub has_correct_difficulty_target : CommittedBlockHeader → ℕ → Result Bool
unfolding should_diff_adjust
has_correct_difficulty_target prev_committed_header current_nbits =
    let prev_nbits = prev_committed_header.header.nbits in
    checked_add 32 prev_committed_header.blockheight 1 >>= λ height.
    if should_diff_adjust height
    then (nbits_to_target prev_nbits >>= λ prev_target.
        compute_new_nbits prev_committed_header.header.timestamp
          prev_committed_header.last_diff_adjustment prev_target
        >>= λ new_nbits. ok (current_nbits == new_nbits))
    else ok (current_nbits == prev_nbits)
