-- ===== src/Program/Loop.antt =====
-- The loop over the submitted headers, which stands in three instructions of lib.rs with the same
-- steps: they differ in where a commitment is stored and in the event.
pub mod Chain
use bitcoin_svm_bridge.Prelude.{
  ℕ, ◌+◌, List, [], ◌∷◌, ◌++◌, Option, none, some, Result, ok, fail, panic, ◌>>=◌, ◌>>◌, require,
  prev_block, checked_add, bytes_eq, ℤ,
}
use bitcoin_svm_bridge.ArrayUtils.{Bytes}
use bitcoin_svm_bridge.Structs.{
  Platform, Pubkey, BlockHeader, CommittedBlockHeader, Event, get_block_hash, get_commit_hash,
  zero_hash,
}
use bitcoin_svm_bridge.Utils.Header.{verify_header}

-- the variables of the loop, the account that it writes, and the events so far
pub record Cursor (S : Type 0) : Type 0 where
  pub account : S
  pub last_commited_header : CommittedBlockHeader
  pub last_block_hash : Bytes
  pub block_height : ℕ
  pub block_commit_hash : Bytes
  pub events : List Event

-- the variables in front of the loop
abbrev pub start_at : {S : Type 0} → Platform → S → CommittedBlockHeader → ℕ → Cursor S
start_at p account commited height = record {
  account = account;
  last_commited_header = commited;
  last_block_hash = get_block_hash p commited.header;
  block_height = height;
  block_commit_hash = zero_hash;
  events = [];
}

module _ (p : Platform) (clock : ℤ) {S : Type 0} (store : ℕ → Bytes → S → Result S)
    (event : Bytes → Bytes → CommittedBlockHeader → Event) where
  -- one round, with the account `remaining_accounts[block_cnt]`
  unfoldable pub header_step : BlockHeader → Pubkey → Cursor S → Result (Cursor S)
  header_step header key c = do
    require (bytes_eq c.last_block_hash header.reversed_prev_blockhash) prev_block
    height ← checked_add 32 c.block_height 1
    (hash, last) ← verify_header p clock header c.last_commited_header key
    let commit_hash = get_commit_hash p last
    account ← store height commit_hash c.account
    ok (record {
      account = account;
      last_commited_header = last;
      last_block_hash = hash;
      block_height = height;
      block_commit_hash = commit_hash;
      events = c.events ++ event hash commit_hash last ∷ [];
    })

  -- The instructions have tested that there are as many accounts as headers; an index out of range
  -- panics.
  unfoldable pub header_loop : List BlockHeader → List Pubkey → Cursor S → Result (Cursor S)
  unfolding header_step
  header_loop [] keys c = ok c
  header_loop (header ∷ headers) [] c = fail panic
  header_loop (header ∷ headers) (key ∷ keys) c =
      header_step header key c >>= header_loop headers keys
