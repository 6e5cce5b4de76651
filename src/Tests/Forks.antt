-- ===== src/Tests/Forks.antt =====
-- Witnesses of the theorems on forks: a main chain of two headers, a fork of one header that waits,
-- and two more headers that let it win.
use mathlib.Core.Path.{subst, fun_ext}
use bitcoin_svm_bridge.Prelude.{
  ℕ, ◌+◌, ◌==◌, ◌≡◌, refl, ap, ◌∙◌, List, [], ◌∷◌, Bool-cases, inl, inr, Result, ok, fail, panic,
  pos, true, false, bytes_eq, arith,
}
use bitcoin_svm_bridge.ArrayUtils.{Bytes, lte_arr, div_in_place, gt_arr, add_in_place}
use bitcoin_svm_bridge.Structs.{CommittedBlockHeader, get_commit_hash, get_block_hash}
use bitcoin_svm_bridge.State.{
  MainState, get_commitment, store_block_commitment, store_fork_commitment,
}
use bitcoin_svm_bridge.Utils.Target.{nbits_to_target, get_difficulty}
use bitcoin_svm_bridge.Utils.Retarget.{has_correct_difficulty_target}
use bitcoin_svm_bridge.Utils.Median.{is_larger_than_median}
use bitcoin_svm_bridge.Utils.Header.{now_ts, shift_timestamps, verify_header}
use bitcoin_svm_bridge.Program.Loop.{header_loop}
use bitcoin_svm_bridge.Program.Submit.{initialize, submit_block_headers, store_main}
use bitcoin_svm_bridge.Program.Submit.Main.{IsValid, extend}
use bitcoin_svm_bridge.Program.Submit.Accepted.{submit_block_headers_extends}
use bitcoin_svm_bridge.State.Commitment.{update}
use bitcoin_svm_bridge.Program.Fork.{ForkLoader, ForkOutcome, submit_fork_headers}
use bitcoin_svm_bridge.Program.Fork.Grown.{IsFork}
use bitcoin_svm_bridge.Program.Fork.Overwrite.{Settled}
use bitcoin_svm_bridge.Program.Fork.Course.{
  IsFresh, submit_fork_headers_opens, submit_fork_headers_continues,
}
use bitcoin_svm_bridge.Tests.{
  constant_hash, low_hash, header_at, first, first_state, first-IsValid, first_filled, result_or,
  run_main, main_ran, new_fork, new_fork_loader, outcome_or,
}

-- the main chain of two headers on top of the first one
abbrev main_state : MainState
main_state = (result_or run_main).0

extend_constant :
    (top : ℕ) (commits : List CommittedBlockHeader)
    → extend constant_hash (λ height. low_hash) top commits ≡ (λ height. low_hash)
unfolding get_commit_hash
extend_constant top [] = refl
extend_constant top (next ∷ commits) =
    ap (λ hist. extend constant_hash hist (top + 1) commits) (fun_ext same)
    ∙ extend_constant (top + 1) commits
  where
    same : (j : ℕ) → update (λ height. low_hash) (top + 1) low_hash j ≡ low_hash
    same j = elim (Bool-cases (j == top + 1)) [ inl e ↦ rw e refl | inr e ↦ rw e refl ]

main_state-IsValid : IsValid 250 (λ height. low_hash) main_state
unfolding initialize
main_state-IsValid =
    let (commits, done, _) =
      submit_block_headers_extends constant_hash (pos 1000) (low_hash ∷ low_hash ∷ [])
        (header_at 120 ∷ header_at 130 ∷ []) first first_state first-IsValid main_ran in
    subst (λ hist. IsValid 250 hist main_state) (extend_constant 250 commits) done.valid

new_fork-IsFresh : IsFresh new_fork
new_fork-IsFresh = record { size = refl; closed = refl; empty = refl }

abbrev run_open : Result ForkOutcome
run_open =
    submit_fork_headers constant_hash (pos 1000) (low_hash ∷ []) (header_at 120 ∷ []) first 0 true
      new_fork_loader main_state

open_ran : run_open ≡ ok (outcome_or run_open)
unfolding submit_fork_headers initialize get_commitment bytes_eq get_commit_hash header_loop
    get_block_hash verify_header has_correct_difficulty_target nbits_to_target lte_arr
    is_larger_than_median now_ts get_difficulty div_in_place store_block_commitment shift_timestamps
    gt_arr add_in_place store_fork_commitment store_main submit_block_headers
open_ran = refl

main_height : main_state.block_height ≡ 252
unfolding submit_fork_headers initialize get_commitment bytes_eq get_commit_hash header_loop
    get_block_hash verify_header has_correct_difficulty_target nbits_to_target lte_arr
    is_larger_than_median now_ts get_difficulty div_in_place store_block_commitment shift_timestamps
    gt_arr add_in_place store_fork_commitment store_main submit_block_headers
main_height = refl

submit_fork_headers_opens_example :
    (commits : List CommittedBlockHeader) × Settled constant_hash 250
      (λ height. low_hash)
      main_state
      first
      commits
      (outcome_or run_open)
submit_fork_headers_opens_example =
    submit_fork_headers_opens constant_hash (pos 1000) (low_hash ∷ []) 250 (header_at 120 ∷ [])
      first 0 new_fork_loader main_state main_state-IsValid refl new_fork-IsFresh first_filled
      (omega arith) (omega arith) (omega (arith, main_height)) open_ran

abbrev committed_or : Result (Bytes × CommittedBlockHeader) → CommittedBlockHeader
committed_or (ok (hash, next)) = next
committed_or (fail e) = first

-- the header that the fork's account holds behind the first submission
abbrev waiting_tip : CommittedBlockHeader
waiting_tip = committed_or (verify_header constant_hash (pos 1000) (header_at 120) first low_hash)

tip_ran :
    verify_header constant_hash (pos 1000) (header_at 120) first low_hash
    ≡ ok (low_hash, waiting_tip)
unfolding submit_fork_headers initialize get_commitment bytes_eq get_commit_hash header_loop
    get_block_hash verify_header has_correct_difficulty_target nbits_to_target lte_arr
    is_larger_than_median now_ts get_difficulty div_in_place store_block_commitment shift_timestamps
    gt_arr add_in_place store_fork_commitment store_main submit_block_headers
tip_ran = refl

waiting-IsFork : IsFork constant_hash first (waiting_tip ∷ []) (outcome_or run_open).fork
unfolding submit_fork_headers initialize get_commitment bytes_eq get_commit_hash header_loop
    get_block_hash verify_header has_correct_difficulty_target nbits_to_target lte_arr
    is_larger_than_median now_ts get_difficulty div_in_place store_block_commitment shift_timestamps
    gt_arr add_in_place store_fork_commitment store_main submit_block_headers
waiting-IsFork = record {
  buffer = record { size = refl; count = refl; held = (refl, tt) };
  start = refl;
  opened = refl;
  accepted = ((pos 1000, low_hash, tip_ran), refl, tt);
}

waiting_tip_hash :
    (outcome_or run_open).fork.tip_commit_hash ≡ get_commit_hash constant_hash waiting_tip
unfolding submit_fork_headers initialize get_commitment bytes_eq get_commit_hash header_loop
    get_block_hash verify_header has_correct_difficulty_target nbits_to_target lte_arr
    is_larger_than_median now_ts get_difficulty div_in_place store_block_commitment shift_timestamps
    gt_arr add_in_place store_fork_commitment store_main submit_block_headers
waiting_tip_hash = refl

abbrev waiting_loader : ForkLoader
waiting_loader = record { load_init = fail panic; load_mut = ok (outcome_or run_open).fork }

abbrev run_continue : Result ForkOutcome
run_continue =
    submit_fork_headers constant_hash (pos 1000) (low_hash ∷ low_hash ∷ [])
      (header_at 140 ∷ header_at 150 ∷ []) waiting_tip 0 false waiting_loader main_state

continue_ran : run_continue ≡ ok (outcome_or run_continue)
unfolding submit_fork_headers initialize get_commitment bytes_eq get_commit_hash header_loop
    get_block_hash verify_header has_correct_difficulty_target nbits_to_target lte_arr
    is_larger_than_median now_ts get_difficulty div_in_place store_block_commitment shift_timestamps
    gt_arr add_in_place store_fork_commitment store_main submit_block_headers
continue_ran = refl

-- The second submission lets the fork win.
continue_closes : (outcome_or run_continue).close ≡ true
unfolding submit_fork_headers initialize get_commitment bytes_eq get_commit_hash header_loop
    get_block_hash verify_header has_correct_difficulty_target nbits_to_target lte_arr
    is_larger_than_median now_ts get_difficulty div_in_place store_block_commitment shift_timestamps
    gt_arr add_in_place store_fork_commitment store_main submit_block_headers
continue_closes = refl

main_start : main_state.start_height ≡ 250
unfolding submit_fork_headers initialize get_commitment bytes_eq get_commit_hash header_loop
    get_block_hash verify_header has_correct_difficulty_target nbits_to_target lte_arr
    is_larger_than_median now_ts get_difficulty div_in_place store_block_commitment shift_timestamps
    gt_arr add_in_place store_fork_commitment store_main submit_block_headers
main_start = refl

first_parent : get_commit_hash constant_hash first ≡ low_hash
unfolding get_commit_hash
first_parent = refl

submit_fork_headers_continues_example :
    (commits : List CommittedBlockHeader) × Settled constant_hash 250
      (λ height. low_hash)
      main_state
      first
      (waiting_tip ∷ commits)
      (outcome_or run_continue)
    × ((outcome_or run_continue).main.fork_counter ≡ main_state.fork_counter)
submit_fork_headers_continues_example =
    submit_fork_headers_continues constant_hash (pos 1000) (low_hash ∷ low_hash ∷ []) 250
      (header_at 140 ∷ header_at 150 ∷ []) waiting_tip 0 waiting_loader main_state first
      (waiting_tip ∷ []) main_state-IsValid (omega arith)
      (record {
        parent = first_parent;
        under = omega (arith, main_height);
        low = omega (arith, main_start);
        kept = omega arith;
        near = omega (arith, main_height);
      })
      refl waiting-IsFork waiting_tip_hash (λ same. refl) continue_ran
