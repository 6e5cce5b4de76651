-- ===== src/Program/Fork.antt =====
-- `submit_fork_headers` and `close_fork_account` (lib.rs): a fork is kept in an account of its own
-- until its work exceeds that of the main chain.
pub mod Reorg
pub mod Stored
pub mod Grown
pub mod Overwrite
pub mod Course
use bitcoin_svm_bridge.Prelude.{
  ℕ, zero, suc, ◌+◌, List, [], ◌∷◌, ◌++◌, Bool, true, false, not, Result, ok, fail, panic, ◌>>=◌,
  ◌>>◌, require, or_panic, no_headers, invalid_remaining_accounts, prev_block_commitment, err_init,
  invalid_fork_id, checked_add, bytes_eq, ℤ, ◌==◌, if◌then◌else◌, length, get_elem?,
}
use bitcoin_svm_bridge.ArrayUtils.{Bytes, gt_arr}
use bitcoin_svm_bridge.Structs.{
  Platform, Pubkey, BlockHeader, CommittedBlockHeader, Event, store_fork, chain_reorg,
  get_block_hash, get_commit_hash,
}
use bitcoin_svm_bridge.State.{MainState, ForkState, get_commitment}
use bitcoin_svm_bridge.Program.Loop.{Cursor, start_at, header_loop}
use bitcoin_svm_bridge.Program.Submit.{
  is_empty, same_bool, store_main, store_on_fork, update_globals,
}

-- What Anchor's loader answers for the fork's account: `load_init` and `load_mut` belong to the
-- library, and each may fail.
pub record ForkLoader : Type 0 where
  pub load_init : Result ForkState
  pub load_mut : Result ForkState

-- both accounts behind the instruction, whether the fork's was closed, and the events
pub record ForkOutcome : Type 0 where
  pub main : MainState
  pub fork : ForkState
  pub close : Bool
  pub events : List Event

-- The loop that overwrites the main chain: `n` commitments are left, from index `i` on.
unfoldable pub copy_commitments : ℕ → ℕ → ForkState → MainState → Result MainState
copy_commitments zero i fork main = ok main
copy_commitments (suc n) i fork main = do
  base ← checked_add 32 fork.start_height 1
  height ← checked_add 32 base i
  commit_hash ← or_panic (get_elem? fork.block_commitments i)
  main' ← store_main height commit_hash main
  copy_commitments n (i + 1) fork main'

module _ (p : Platform) where
  -- the first submission of a fork, from a block of the main chain
  unfoldable pub open_fork :
      ℕ → CommittedBlockHeader → MainState → ForkState → Result (MainState × ForkState)
  open_fork fork_id commited main fork = do
    require (main.fork_counter == fork_id) invalid_fork_id
    counter ← checked_add 64 fork_id 1
    ancestor ← get_commitment main commited.blockheight
    require (bytes_eq (get_commit_hash p commited) ancestor) prev_block_commitment
    ok (
      record main { fork_counter = counter },
      record fork { initialized = 1; start_height = commited.blockheight },
    )

  -- a later one, from the fork's tip
  unfoldable pub continue_fork :
      CommittedBlockHeader → MainState → ForkState → Result (MainState × ForkState)
  continue_fork commited main fork = do
    require (bytes_eq (get_commit_hash p commited) fork.tip_commit_hash) prev_block_commitment
    ok (main, fork)

-- The end of the instruction: the main chain is overwritten if the fork has more work, and else the
-- fork is kept.
unfoldable pub settle_fork : ℕ → MainState → Cursor ForkState → Result ForkOutcome
unfolding copy_commitments
settle_fork fork_id main c =
    let fork = c.account in
    if gt_arr c.last_commited_header.chain_work main.chain_work
    then (copy_commitments fork.length 0 fork main >>= λ copied. ok (record {
      main = update_globals c copied;
      fork = fork;
      close = true;
      events =
          c.events
          ++ chain_reorg fork_id fork.start_height c.last_block_hash c.block_commit_hash ∷ [];
    }))
    else ok (record {
      main = main;
      fork = record fork {
        tip_block_hash = c.last_block_hash;
        tip_commit_hash = c.block_commit_hash;
      };
      close = false;
      events = c.events;
    })

module _ (p : Platform) (clock : ℤ) (remaining_accounts : List Pubkey) where
  unfoldable pub submit_fork_headers :
      List BlockHeader
      → CommittedBlockHeader
      → ℕ
      → Bool
      → ForkLoader
      → MainState
      → Result ForkOutcome
  unfolding open_fork continue_fork settle_fork store_on_fork
  submit_fork_headers headers commited fork_id init loader main = do
    require (not (is_empty headers)) no_headers
    require (length headers == length remaining_accounts) invalid_remaining_accounts
    loaded ← if init then loader.load_init else loader.load_mut
    require (same_bool init (loaded.initialized == 0)) err_init
    (main', fork) ←
        if loaded.initialized == 0
        then open_fork p fork_id commited main loaded
        else continue_fork p commited main loaded
    c ←
        header_loop p clock store_on_fork (store_fork fork_id) headers remaining_accounts
          (start_at p fork commited commited.blockheight)
    settle_fork fork_id main' c

-- `close_fork_account` has an empty body: Anchor closes the account.
