-- ===== src/Program/Submit.antt =====
-- Initialisation and the three ways to submit headers (lib.rs).
pub mod Main
pub mod Accepted
pub mod Initialize
pub mod Early
pub mod Complete
use bitcoin_svm_bridge.Prelude.{
  ℕ, zero, suc, ◌+◌, ◌≡◌, List, [], ◌∷◌, ◌++◌, Bool, true, false, not, Option, none, some, Result,
  ok, fail, panic, ◌>>=◌, ◌>>◌, require, or_panic, no_headers, invalid_remaining_accounts,
  prev_block_commitment, fork_too_short, err_init, invalid_fork_id, checked_add, bytes_eq, ℤ, ◌==◌,
  if◌then◌else◌, length, get_elem?, set, replicate,
}
use bitcoin_svm_bridge.ArrayUtils.{Bytes, gt_arr}
use bitcoin_svm_bridge.Structs.{
  Platform, Pubkey, BlockHeader, CommittedBlockHeader, Event, store_header, store_fork, chain_reorg,
  get_block_hash, get_commit_hash, zero_hash,
}
use bitcoin_svm_bridge.State.{
  MainState, ForkState, get_commitment, store_block_commitment, store_fork_commitment,
}
use bitcoin_svm_bridge.Program.Loop.{Cursor, start_at, header_loop}

-- `load_init` of a new account: all its bytes are zero.
abbrev pub new_main_state : MainState
new_main_state = record {
  start_height = 0;
  last_diff_adjustment = 0;
  block_height = 0;
  total_blocks = 0;
  fork_counter = 0;
  tip_commit_hash = zero_hash;
  tip_block_hash = zero_hash;
  chain_work = zero_hash;
  block_commitments = replicate 250 zero_hash;
}

abbrev pub is_empty {ℓ} : {A : Type ℓ} → List A → Bool
is_empty [] = true
is_empty (x ∷ xs) = false

abbrev pub same_bool : Bool → Bool → Bool
same_bool true b = b
same_bool false b = not b

-- Anchor runs this once, for the account that it has just created.
unfoldable pub initialize : Platform → BlockHeader → ℕ → Bytes → ℕ → List ℕ → MainState × List Event
initialize p header block_height chain_work last_diff_adjustment prev_block_timestamps =
    let commited_header : CommittedBlockHeader = record {
      chain_work = chain_work;
      header = header;
      last_diff_adjustment = last_diff_adjustment;
      blockheight = block_height;
      prev_block_timestamps = prev_block_timestamps;
    } in
    let hash_result = get_commit_hash p commited_header in
    let block_hash = get_block_hash p header in
    (
      record {
        start_height = block_height;
        last_diff_adjustment = last_diff_adjustment;
        block_height = block_height;
        total_blocks = 1;
        fork_counter = 0;
        tip_commit_hash = hash_result;
        tip_block_hash = block_hash;
        chain_work = chain_work;
        block_commitments = set new_main_state.block_commitments 0 hash_result;
      },
      store_header block_hash hash_result commited_header ∷ [],
    )

-- a store to the main account, whose answer the instructions drop
unfoldable pub store_main : ℕ → Bytes → MainState → Result MainState
store_main height commit_hash s = store_block_commitment height commit_hash s >>= λ r. ok r.0

unfoldable pub store_on_fork : ℕ → Bytes → ForkState → Result ForkState
store_on_fork height commit_hash f = store_fork_commitment commit_hash f

-- "Update globals"
abbrev pub update_globals : {S : Type 0} → Cursor S → MainState → MainState
update_globals c s = record s {
  last_diff_adjustment = c.last_commited_header.last_diff_adjustment;
  block_height = c.block_height;
  chain_work = c.last_commited_header.chain_work;
  tip_commit_hash = c.block_commit_hash;
  tip_block_hash = c.last_block_hash;
}

module _ (p : Platform) (clock : ℤ) (remaining_accounts : List Pubkey) where
  unfoldable pub submit_block_headers :
      List BlockHeader → CommittedBlockHeader → MainState → Result (MainState × List Event)
  unfolding store_main
  submit_block_headers headers commited main = do
    require (not (is_empty headers)) no_headers
    require (length headers == length remaining_accounts) invalid_remaining_accounts
    tip ← get_commitment main main.block_height
    require (bytes_eq (get_commit_hash p commited) tip) prev_block_commitment
    c ←
        header_loop p clock store_main store_header headers remaining_accounts
          (start_at p main commited main.block_height)
    ok (update_globals c c.account, c.events)

  unfoldable pub submit_short_fork_headers :
      List BlockHeader → CommittedBlockHeader → MainState → Result (MainState × List Event)
  unfolding store_main
  submit_short_fork_headers headers commited main = do
    require (not (is_empty headers)) no_headers
    require (length headers == length remaining_accounts) invalid_remaining_accounts
    ancestor ← get_commitment main commited.blockheight
    require (bytes_eq (get_commit_hash p commited) ancestor) prev_block_commitment
    let fork_id = main.fork_counter
    c ←
        header_loop p clock store_main (store_fork fork_id) headers remaining_accounts
          (start_at p main commited commited.blockheight)
    require (gt_arr c.last_commited_header.chain_work c.account.chain_work) fork_too_short
    counter ← checked_add 64 fork_id 1
    ok (record (update_globals c c.account) { fork_counter = counter }, c.events)
