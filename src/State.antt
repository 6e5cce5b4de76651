-- ===== src/State.antt =====
-- programs/btc-relay/src/state.rs: the relay's account with its ring buffer of 250 commitments, and
-- the account of a fork. Heights are `u32`. A subtraction behind a test that it cannot underflow is
-- a plain one; the others are checked.
pub mod Ring
pub mod Commitment
pub mod Fork
use bitcoin_svm_bridge.Prelude.{
  ℕ, ◌+◌, ◌-◌, ◌≤◌, ◌<◌, ◌≡◌, List, Bool, true, false, Option, Result, ok, fail, panic, ◌>>=◌,
  or_panic, checked_add, checked_sub, ltb, leb, ◌==◌, if◌then◌else◌, get_elem?, set, length,
}
use bitcoin_svm_bridge.ArrayUtils.{Bytes}
use bitcoin_svm_bridge.Structs.{zero_hash}

abbrev pub pruning_factor : ℕ
pruning_factor = 250

pub record MainState : Type 0 where
  pub start_height : ℕ
  pub last_diff_adjustment : ℕ
  pub block_height : ℕ
  pub total_blocks : ℕ
  pub fork_counter : ℕ
  pub tip_commit_hash : Bytes
  pub tip_block_hash : Bytes
  pub chain_work : Bytes
  pub block_commitments : List Bytes

-- The index for a height; `pruning_factor` stands for none.
unfoldable pub get_position : MainState → ℕ → ℕ
get_position s block_height =
    if leb s.start_height block_height
    then (let pos = block_height - s.start_height in if leb pruning_factor pos then 0 else pos)
    else (let pos = s.start_height - block_height in
        if leb pruning_factor pos then pruning_factor else pruning_factor - pos)

unfoldable pub get_commitment : MainState → ℕ → Result Bytes
unfolding get_position
get_commitment s block_height =
    if ltb s.block_height block_height
    then ok zero_hash
    else checked_sub s.block_height pruning_factor >>= λ oldest.
        if leb block_height oldest
        then ok zero_hash
        else if get_position s block_height == pruning_factor
        then ok zero_hash
        else or_panic (get_elem? s.block_commitments (get_position s block_height))

-- The index that is written is below `pruning_factor`, the size of the array.
unfoldable pub store_block_commitment : ℕ → Bytes → MainState → Result (MainState × Bool)
unfolding get_position
store_block_commitment block_height block_commitment s =
    let position = get_position s block_height in
    if position == pruning_factor
    then ok (s, false)
    else checked_add 32 s.total_blocks 1 >>= λ total. ok (
      record s {
        block_commitments = set s.block_commitments position block_commitment;
        start_height = if position == 0 then block_height else s.start_height;
        total_blocks = total;
      },
      true,
    )

pub record ForkState : Type 0 where
  pub initialized : ℕ
  pub start_height : ℕ
  pub length : ℕ
  pub tip_commit_hash : Bytes
  pub tip_block_hash : Bytes
  pub block_commitments : List Bytes

-- A write past the end of the array panics.
unfoldable pub store_fork_commitment : Bytes → ForkState → Result ForkState
store_fork_commitment block_commitment f =
    if ltb f.length (length f.block_commitments)
    then (checked_add 32 f.length 1 >>= λ n. ok (record f {
      block_commitments = set f.block_commitments f.length block_commitment;
      length = n;
    }))
    else fail panic
