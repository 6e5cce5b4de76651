-- ===== src/Tests.antt =====
-- Witnesses: the theorems applied at concrete inputs.
mod Numbers
mod Chains
mod Payments
mod Parser
mod Bridges
mod Descents
mod Forks
mod Relays
mod Webs
mod Faucets
use bitcoin_svm_bridge.Prelude.{
  ℕ, zero, suc, ◌+◌, ◌-◌, ◌*◌, ◌/◌, ◌^◌, ◌%◌, ◌≤◌, ◌<◌, ◌≡◌, ◌≢◌, ◌↔◌, ◌⊎◌, refl, ap, List, [], ◌∷◌,
  ◌++◌, Bool, true, false, Option, some, Result, ok, fail, panic, ℤ, pos, bytes_eq, replicate,
  arith, ltb, leb, get_elem?, length,
}
use bitcoin_svm_bridge.ArrayUtils.{
  Bytes, add_in_place, mul_in_place, div_in_place, gt_arr, gte_arr, lte_arr, mul_loop,
}
use bitcoin_svm_bridge.ArrayUtils.Value.{value, IsU256}
use bitcoin_svm_bridge.Structs.{
  Platform, Pubkey, BlockHeader, CommittedBlockHeader, Event, store_header, store_fork,
  get_commit_hash, get_block_hash, zero_hash,
}
use bitcoin_svm_bridge.State.{
  MainState, ForkState, get_commitment, store_block_commitment, store_fork_commitment,
}
use bitcoin_svm_bridge.Utils.Target.{
  nbits_to_target, get_difficulty, target_to_nbits, max_difficulty, unrounded_max_target,
}
use bitcoin_svm_bridge.Utils.Retarget.{has_correct_difficulty_target}
use bitcoin_svm_bridge.Utils.Median.{is_larger_than_median}
use bitcoin_svm_bridge.Utils.Header.{now_ts, shift_timestamps, verify_header}
use bitcoin_svm_bridge.Program.Loop.{header_loop}
use bitcoin_svm_bridge.Program.Submit.{
  store_main, initialize, submit_block_headers, submit_short_fork_headers,
}
use bitcoin_svm_bridge.Program.Submit.Main.{IsValid, Extended}
use bitcoin_svm_bridge.Program.Submit.Initialize.{first_commited, initialize-IsValid}
use bitcoin_svm_bridge.Program.Submit.Accepted.{
  submit_block_headers_extends, submit_short_fork_headers_reorg,
}
use bitcoin_svm_bridge.Program.Fork.{ForkLoader, ForkOutcome, submit_fork_headers}
use bitcoin_svm_bridge.Program.Fork.Reorg.{SameMain, submit_fork_headers_main}

abbrev pub low_hash : Bytes
low_hash = replicate 27 1 ++ replicate 5 0

-- every hash is `low_hash`, read backwards a number below the target
abbrev pub constant_hash : Platform
constant_hash = record {
  header_to_vec = λ header. [];
  commited_to_vec = λ commited. [];
  hash = λ bytes. low_hash;
  sha256d = λ bytes. low_hash;
  find_header_topic = λ hash. hash;
  bitcoin_testnet = false;
}

abbrev pub header_at : ℕ → BlockHeader
header_at timestamp = record {
  version = 1;
  reversed_prev_blockhash = low_hash;
  merkle_root = low_hash;
  timestamp = timestamp;
  nbits = 0x1d00ffff;
  nonce = 0;
}

abbrev pub ten_timestamps : List ℕ
ten_timestamps = 100 ∷ 101 ∷ 102 ∷ 103 ∷ 104 ∷ 105 ∷ 106 ∷ 107 ∷ 108 ∷ 109 ∷ []

abbrev pub first : CommittedBlockHeader
first = first_commited (header_at 110) 250 zero_hash 0 ten_timestamps

abbrev pub first_state : MainState
first_state = (initialize constant_hash (header_at 110) 250 zero_hash 0 ten_timestamps).0

abbrev pub result_or : Result (MainState × List Event) → MainState × List Event
result_or (ok r) = r
result_or (fail e) = (first_state, [])

abbrev pub run_main : Result (MainState × List Event)
run_main =
    submit_block_headers constant_hash (pos 1000) (low_hash ∷ low_hash ∷ [])
      (header_at 120 ∷ header_at 130 ∷ []) first first_state

pub first-IsValid : IsValid 250 (λ height. low_hash) first_state
unfolding get_commit_hash
first-IsValid = initialize-IsValid constant_hash (header_at 110) 250 zero_hash 0 ten_timestamps

pub main_ran : run_main ≡ ok (result_or run_main)
unfolding submit_block_headers initialize get_commitment bytes_eq get_commit_hash header_loop
    get_block_hash verify_header has_correct_difficulty_target nbits_to_target lte_arr
    is_larger_than_median now_ts get_difficulty div_in_place store_block_commitment shift_timestamps
main_ran = refl

submit_block_headers_extends_example :
    (commits : List CommittedBlockHeader) × Extended constant_hash
      (pos 1000)
      store_header
      (header_at 120 ∷ header_at 130 ∷ [])
      (low_hash ∷ low_hash ∷ [])
      first
      250
      (λ height. low_hash)
      250
      (result_or run_main).0
      (result_or run_main).1
      commits
    × ((result_or run_main).0.fork_counter ≡ 0)
unfolding initialize
submit_block_headers_extends_example =
    submit_block_headers_extends constant_hash (pos 1000) (low_hash ∷ low_hash ∷ [])
      (header_at 120 ∷ header_at 130 ∷ []) first first_state first-IsValid main_ran

abbrev run_short_fork : Result (MainState × List Event)
run_short_fork =
    submit_short_fork_headers constant_hash (pos 1000) (low_hash ∷ []) (header_at 120 ∷ []) first
      first_state

short_fork_ran : run_short_fork ≡ ok (result_or run_short_fork)
unfolding submit_short_fork_headers initialize get_commitment bytes_eq get_commit_hash header_loop
    get_block_hash verify_header has_correct_difficulty_target nbits_to_target lte_arr
    is_larger_than_median now_ts get_difficulty div_in_place store_block_commitment shift_timestamps
    gt_arr add_in_place
short_fork_ran = refl

pub first_filled : get_commit_hash constant_hash first ≢ zero_hash
unfolding get_commit_hash
first_filled h = cc

submit_short_fork_headers_reorg_example :
    (commits : List CommittedBlockHeader) × Extended constant_hash
      (pos 1000)
      (store_fork 0)
      (header_at 120 ∷ [])
      (low_hash ∷ [])
      first
      250
      (λ height. low_hash)
      250
      (result_or run_short_fork).0
      (result_or run_short_fork).1
      commits
    × (gt_arr (result_or run_short_fork).0.chain_work zero_hash ≡ true)
    × ((result_or run_short_fork).0.fork_counter ≡ 1)
unfolding initialize
submit_short_fork_headers_reorg_example =
    submit_short_fork_headers_reorg constant_hash (pos 1000) (low_hash ∷ []) (header_at 120 ∷ [])
      first first_state 250 first-IsValid first_filled (omega arith) (omega arith) (omega arith)
      short_fork_ran

-- a fork account behind `load_init`
abbrev pub new_fork : ForkState
new_fork = record {
  initialized = 0;
  start_height = 0;
  length = 0;
  tip_commit_hash = zero_hash;
  tip_block_hash = zero_hash;
  block_commitments = replicate 250 zero_hash;
}

abbrev pub new_fork_loader : ForkLoader
new_fork_loader = record { load_init = ok new_fork; load_mut = fail panic }

abbrev run_fork : Result ForkOutcome
run_fork =
    submit_fork_headers constant_hash (pos 1000) (low_hash ∷ []) (header_at 120 ∷ []) first 0 true
      new_fork_loader first_state

abbrev pub outcome_or : Result ForkOutcome → ForkOutcome
outcome_or (ok out) = out
outcome_or (fail e) = record { main = first_state; fork = new_fork; close = false; events = [] }

fork_ran : run_fork ≡ ok (outcome_or run_fork)
unfolding submit_fork_headers initialize get_commitment bytes_eq get_commit_hash header_loop
    get_block_hash verify_header has_correct_difficulty_target nbits_to_target lte_arr
    is_larger_than_median now_ts get_difficulty div_in_place store_block_commitment shift_timestamps
    gt_arr add_in_place store_fork_commitment store_main
fork_ran = refl

submit_fork_headers_main_example :
    (((outcome_or run_fork).close ≡ true)
      × (gt_arr (outcome_or run_fork).main.chain_work zero_hash ≡ true))
    ⊎ (((outcome_or run_fork).close ≡ false) × SameMain first_state (outcome_or run_fork).main)
unfolding initialize
submit_fork_headers_main_example =
    submit_fork_headers_main constant_hash (pos 1000) (low_hash ∷ []) (header_at 120 ∷ []) first 0
      true new_fork_loader first_state fork_ran
