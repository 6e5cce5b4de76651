-- ===== src/Tests/Descents.antt =====
-- Witnesses of the theorems on the headers that the accounts have commitments of: a run with a
-- submission, a fork, and a payment.
use bitcoin_svm_bridge.Prelude.{
  ℕ, ◌<◌, ◌≡◌, refl, ap, List, [], ◌∷◌, none, bytes_eq, true, false, Result, ok, fail, pos, arith,
}
use bitcoin_svm_bridge.ArrayUtils.{gt_arr, lte_arr, div_in_place, add_in_place}
use bitcoin_svm_bridge.Structs.{
  Platform, CommittedBlockHeader, Event, get_commit_hash, get_block_hash,
}
use bitcoin_svm_bridge.State.{
  MainState, get_commitment, store_block_commitment, store_fork_commitment,
}
use bitcoin_svm_bridge.Utils.Merkle.{compute_merkle}
use bitcoin_svm_bridge.Utils.Target.{nbits_to_target, get_difficulty}
use bitcoin_svm_bridge.Utils.Retarget.{has_correct_difficulty_target}
use bitcoin_svm_bridge.Utils.Median.{is_larger_than_median}
use bitcoin_svm_bridge.Utils.Header.{now_ts, shift_timestamps, verify_header}
use bitcoin_svm_bridge.Program.Loop.{header_loop}
use bitcoin_svm_bridge.Program.Submit.{initialize, submit_block_headers}
use bitcoin_svm_bridge.Program.Fork.{submit_fork_headers}
use bitcoin_svm_bridge.Program.Fork.Stored.{blockheight-tip_of}
use bitcoin_svm_bridge.Program.Transaction.{
  bridge_mint_amount, init_big_tx_verify, finalize_tx_processing,
}
use bitcoin_svm_bridge.Program.Tree.{InTree, IsClear, TipRun}
use bitcoin_svm_bridge.Program.Bridge.{
  Bridge, run_init_big_tx_verify, run_store_tx_bytes, run_finalize_tx_processing,
  run_submit_fork_headers, submit, fork, init_big, store, finalize, Reach, here, next,
}
use bitcoin_svm_bridge.Program.Bridge.Runs.{PaidProven}
use bitcoin_svm_bridge.Program.Bridge.Sound.{IsSoundBridge}
use bitcoin_svm_bridge.Program.Bridge.Descent.{
  IsNew, reached-IsSoundBridge, deposits_fall_for_accepted,
}
use bitcoin_svm_bridge.Tests.{low_hash, header_at, ten_timestamps, first}
use bitcoin_svm_bridge.Tests.Payments.{small_crate}

-- The commitment of a header is its height, and every block has the same hash.
abbrev height_hash : Platform
height_hash = record {
  header_to_vec = λ header. low_hash;
  commited_to_vec = λ commited. commited.blockheight ∷ [];
  hash = λ bytes. bytes;
  sha256d = λ bytes. low_hash;
  find_header_topic = λ hash. hash;
  bitcoin_testnet = false;
}

same_height :
    (d : CommittedBlockHeader) → InTree height_hash first d → 250 ≡ d.blockheight → first ≡ d
same_height d ([], accepted, same) h = same
same_height d (above ∷ commits, accepted, same) h =
    let tall = blockheight-tip_of height_hash first (above ∷ commits) accepted in
    absurd (omega (arith, tall, h, ap (λ (l : CommittedBlockHeader). l.blockheight) same))

first-IsClear : (c : CommittedBlockHeader) → c ≡ first → IsClear height_hash first c
unfolding get_commit_hash
first-IsClear c e =
    rw e (record { nonzero = λ h. cc; alone = λ d in_tree h. same_height d in_tree (only h) })
  where
    only : {x y : ℕ} → x ∷ [] ≡ y ∷ [] → x ≡ y
    only h = cc

abbrev start : Bridge
start = record {
  main = (initialize height_hash (header_at 110) 250 first.chain_work 0 ten_timestamps).0;
  deposit_created = true;
  deposit = 10000;
  wallets = λ key. 1;
  tx_accounts = λ id. none;
  forks = λ id key. none;
}

start-IsNew : IsNew height_hash first start
start-IsNew = record {
  started = refl;
  no_forks = λ fork_id key. refl;
  no_tx_accounts = λ tx_id. refl;
}

abbrev or_start : Result Bridge → Bridge
or_start (ok s) = s
or_start (fail e) = start

abbrev run_submit : Result (MainState × List Event)
run_submit =
    submit_block_headers height_hash (pos 1000) (low_hash ∷ []) (header_at 120 ∷ []) first
      start.main

abbrev submitted : Result (MainState × List Event) → MainState × List Event
submitted (ok r) = r
submitted (fail e) = (start.main, [])

abbrev longer : Bridge
longer = record start { main = (submitted run_submit).0 }

abbrev run_fork : Result Bridge
run_fork =
    run_submit_fork_headers height_hash (pos 1000) (low_hash ∷ []) (header_at 120 ∷ []) first 0 true
      (ok tt) low_hash longer

abbrev run_init : Result Bridge
run_init = run_init_big_tx_verify height_hash (ok tt) low_hash 100 2 0 [] first (or_start run_fork)

abbrev run_store : Result Bridge
run_store = run_store_tx_bytes low_hash (1 ∷ 2 ∷ []) (or_start run_init)

abbrev run_finalize : Result Bridge
run_finalize = run_finalize_tx_processing small_crate low_hash low_hash (or_start run_store)

submit_ran : run_submit ≡ ok (submitted run_submit)
unfolding submit_block_headers initialize get_commitment bytes_eq get_commit_hash header_loop
    get_block_hash verify_header has_correct_difficulty_target nbits_to_target lte_arr
    is_larger_than_median now_ts get_difficulty div_in_place store_block_commitment shift_timestamps
submit_ran = refl

fork_ran : run_fork ≡ ok (or_start run_fork)
unfolding run_submit_fork_headers submit_fork_headers submit_block_headers initialize get_commitment
    bytes_eq get_commit_hash header_loop get_block_hash verify_header has_correct_difficulty_target
    nbits_to_target lte_arr is_larger_than_median now_ts get_difficulty div_in_place
    store_block_commitment store_fork_commitment shift_timestamps gt_arr add_in_place
fork_ran = refl

init_ran : run_init ≡ ok (or_start run_init)
unfolding run_submit_fork_headers submit_fork_headers submit_block_headers initialize get_commitment
    bytes_eq get_commit_hash header_loop get_block_hash verify_header has_correct_difficulty_target
    nbits_to_target lte_arr is_larger_than_median now_ts get_difficulty div_in_place
    store_block_commitment store_fork_commitment shift_timestamps gt_arr add_in_place
    run_init_big_tx_verify init_big_tx_verify compute_merkle
init_ran = refl

store_ran : run_store ≡ ok (or_start run_store)
unfolding run_submit_fork_headers submit_fork_headers submit_block_headers initialize get_commitment
    bytes_eq get_commit_hash header_loop get_block_hash verify_header has_correct_difficulty_target
    nbits_to_target lte_arr is_larger_than_median now_ts get_difficulty div_in_place
    store_block_commitment store_fork_commitment shift_timestamps gt_arr add_in_place
    run_init_big_tx_verify init_big_tx_verify compute_merkle run_store_tx_bytes
store_ran = refl

finalize_ran : run_finalize ≡ ok (or_start run_finalize)
unfolding run_submit_fork_headers submit_fork_headers submit_block_headers initialize get_commitment
    bytes_eq get_commit_hash header_loop get_block_hash verify_header has_correct_difficulty_target
    nbits_to_target lte_arr is_larger_than_median now_ts get_difficulty div_in_place
    store_block_commitment store_fork_commitment shift_timestamps gt_arr add_in_place
    run_init_big_tx_verify init_big_tx_verify compute_merkle run_store_tx_bytes
    run_finalize_tx_processing finalize_tx_processing bridge_mint_amount
finalize_ran = refl

paid_out : (or_start run_finalize).deposit < (or_start run_store).deposit
unfolding run_submit_fork_headers submit_fork_headers submit_block_headers initialize get_commitment
    bytes_eq get_commit_hash header_loop get_block_hash verify_header has_correct_difficulty_target
    nbits_to_target lte_arr is_larger_than_median now_ts get_difficulty div_in_place
    store_block_commitment store_fork_commitment shift_timestamps gt_arr add_in_place
    run_init_big_tx_verify init_big_tx_verify compute_merkle run_store_tx_bytes
    run_finalize_tx_processing finalize_tx_processing bridge_mint_amount
paid_out = omega arith

abbrev IsFirst : CommittedBlockHeader → Type 0
IsFirst c = c ≡ first

with_fork : Reach height_hash small_crate IsFirst start (or_start run_fork)
with_fork =
    next
      (next here (
        submit (pos 1000) (low_hash ∷ []) (header_at 120 ∷ []) first (submitted run_submit).0
          (submitted run_submit).1 refl submit_ran))
      (fork (pos 1000) (low_hash ∷ []) (header_at 120 ∷ []) first 0 true (ok tt) low_hash refl
        fork_ran)

on_the_way : Reach height_hash small_crate IsFirst start (or_start run_store)
on_the_way =
    next (next with_fork (init_big (ok tt) low_hash 100 2 0 [] first refl init_ran))
      (store low_hash (1 ∷ 2 ∷ []) store_ran)

reached-IsSoundBridge_example :
    (v : IsSoundBridge height_hash first (or_start run_fork)) × TipRun height_hash first v.main.tip
reached-IsSoundBridge_example =
    reached-IsSoundBridge height_hash small_crate first first-IsClear start-IsNew with_fork

deposits_fall_for_accepted_example :
    (paid : PaidProven height_hash small_crate IsFirst start
      (or_start run_store)
      (or_start run_finalize))
    × InTree height_hash first paid.proven.commited
deposits_fall_for_accepted_example =
    deposits_fall_for_accepted height_hash small_crate first first-IsClear start
      (or_start run_store) start-IsNew on_the_way (finalize low_hash low_hash finalize_ran) paid_out
