-- ===== src/Tests/Chains.antt =====
-- Witnesses of the theorems on the ring buffer, the loop, the header rules and the Merkle proofs.
use bitcoin_svm_bridge.Prelude.{
  ℕ, ◌+◌, ◌<◌, ◌≤◌, ◌≡◌, refl, List, [], ◌∷◌, ◌++◌, bytes_eq, true, ok, fail, panic, pos, replicate,
  arith,
}
use bitcoin_svm_bridge.ArrayUtils.{Bytes, lte_arr, div_in_place}
use bitcoin_svm_bridge.Utils.Target.{nbits_to_target, get_difficulty}
use bitcoin_svm_bridge.Utils.Retarget.{has_correct_difficulty_target}
use bitcoin_svm_bridge.Utils.Median.{is_larger_than_median}
use bitcoin_svm_bridge.Program.Submit.{submit_block_headers, submit_short_fork_headers}
use bitcoin_svm_bridge.Program.Submit.Complete.{submit_block_headers_succeeds}
use bitcoin_svm_bridge.ArrayUtils.{add_in_place}
use bitcoin_svm_bridge.Utils.Header.{shift_timestamps}
use bitcoin_svm_bridge.Program.Submit.Early.{submit_headers_early}
use bitcoin_svm_bridge.Structs.{
  CommittedBlockHeader, Event, get_commit_hash, get_block_hash, zero_hash,
}
use bitcoin_svm_bridge.State.{MainState, get_commitment, store_block_commitment}
use bitcoin_svm_bridge.State.Ring.{InWindow}
use bitcoin_svm_bridge.State.Commitment.{
  update, Represents, commitment_spec, get_commitment_refines, store_block_commitment-Represents,
}
use bitcoin_svm_bridge.Utils.Header.{now_ts, advance, verify_header}
use bitcoin_svm_bridge.Utils.Merkle.{compute_merkle}
use bitcoin_svm_bridge.Program.Submit.{initialize}
use bitcoin_svm_bridge.Relayer.Merkle.{Proof, to_reversed_vec, create}
use bitcoin_svm_bridge.Relayer.Merkle.Levels.{IsRoot}
use bitcoin_svm_bridge.Relayer.Merkle.Rounds.{Returns, create_loop_returns}
use bitcoin_svm_bridge.Relayer.Merkle.Verify.{compute_merkle-create}
use bitcoin_svm_bridge.Tests.{constant_hash, low_hash, header_at, first, first_state, first-IsValid}

get_commitment_refines_example :
    get_commitment first_state 250 ≡ commitment_spec first_state (λ height. low_hash) 250
unfolding initialize
get_commitment_refines_example =
    get_commitment_refines 250 first_state 250 first-IsValid.ring (omega arith) (omega arith)

store_block_commitment-Represents_example :
    (t : MainState) × (store_block_commitment 251 zero_hash first_state ≡ ok (t, true))
    × Represents 250 251 (update (λ height. low_hash) 251 zero_hash) t
    × InWindow t 251
    × InWindow t 252
    × ((h : ℕ) → InWindow first_state h → 251 < h + 250 → InWindow t h)
unfolding initialize
store_block_commitment-Represents_example =
    store_block_commitment-Represents zero_hash first-IsValid.ring first-IsValid.room (omega arith)

-- the committed header behind `first`, with a work of 1
abbrev second : CommittedBlockHeader
second = advance first (header_at 120) 251 (replicate 31 0 ++ 1 ∷ [])

compute_merkle-create_example :
    (proof : Proof) × (root : Bytes) × (create constant_hash
        (zero_hash ∷ low_hash ∷ zero_hash ∷ [])
        1
      ≡ ok proof)
    × IsRoot constant_hash (zero_hash ∷ low_hash ∷ zero_hash ∷ []) root
    × (compute_merkle constant_hash low_hash proof.position (to_reversed_vec proof) ≡ root)
compute_merkle-create_example =
    compute_merkle-create constant_hash (zero_hash ∷ low_hash ∷ zero_hash ∷ []) 1 low_hash refl

abbrev early_commited : CommittedBlockHeader
early_commited = record first { blockheight = 249 }

abbrev early_state : MainState
early_state = record first_state { block_height = 249 }

submit_headers_early_example :
    (submit_block_headers constant_hash
        (pos 1000)
        (low_hash ∷ [])
        (header_at 120 ∷ [])
        early_commited
        early_state
      ≡ fail panic)
    × (249 ≤ 249
        → submit_short_fork_headers constant_hash
            (pos 1000)
            (low_hash ∷ [])
            (header_at 120 ∷ [])
            early_commited
            early_state
          ≡ fail panic)
submit_headers_early_example =
    submit_headers_early constant_hash (pos 1000) (low_hash ∷ []) (header_at 120 ∷ [])
      early_commited early_state (omega arith) refl (omega arith)

-- the committed headers behind `first`
abbrev chain_commits : List CommittedBlockHeader
chain_commits = second ∷ []

second_accepted :
    verify_header constant_hash (pos 1000) (header_at 120) first low_hash
    ≡ ok (get_block_hash constant_hash (header_at 120), second)
unfolding get_block_hash verify_header has_correct_difficulty_target nbits_to_target lte_arr
    is_larger_than_median now_ts get_difficulty div_in_place bytes_eq shift_timestamps add_in_place
second_accepted = refl

first_parent : get_block_hash constant_hash first.header ≡ (header_at 120).reversed_prev_blockhash
unfolding get_block_hash
first_parent = refl

first_tip : get_commit_hash constant_hash first ≡ low_hash
unfolding get_commit_hash
first_tip = refl

submit_block_headers_succeeds_example :
    (t : MainState) × (events : List Event) × (submit_block_headers constant_hash
        (pos 1000)
        (low_hash ∷ [])
        (header_at 120 ∷ [])
        first
        first_state
      ≡ ok (t, events))
unfolding initialize
submit_block_headers_succeeds_example =
    submit_block_headers_succeeds constant_hash (pos 1000) (low_hash ∷ []) (header_at 120 ∷ [])
      first chain_commits first_state first-IsValid (omega arith) first_tip (omega arith) refl
      (first_parent, second_accepted, refl, tt) (omega arith) (omega arith)

create_loop_returns_example :
    (pieces : List Bytes) × Returns constant_hash (zero_hash ∷ low_hash ∷ zero_hash ∷ []) 1 pieces
create_loop_returns_example =
    create_loop_returns constant_hash (zero_hash ∷ low_hash ∷ zero_hash ∷ []) 1 refl
