-- ===== src/Utils/Header.antt =====
-- `verify_header` (utils.rs): the consensus rules for a header on top of a committed one.
pub mod Accepted
pub mod Rules
use bitcoin_svm_bridge.Prelude.{
  ℕ, ◌+◌, ◌*◌, ◌^◌, List, [], ◌∷◌, ◌++◌, Bool, Result, ok, fail, panic, ◌>>=◌, ◌>>◌, require,
  err_diff_target, invalid_header_topic, err_pow_toolow, err_timestamp_toolow,
  err_timestamp_too_high, ltb, if◌then◌else◌, checked_add, bytes_eq, reverse, ℤ, pos, negsuc,
}
use bitcoin_svm_bridge.ArrayUtils.{Bytes, add_in_place, lte_arr}
use bitcoin_svm_bridge.Structs.{Platform, Pubkey, BlockHeader, CommittedBlockHeader, get_block_hash}
use bitcoin_svm_bridge.Utils.Target.{nbits_to_target, get_difficulty}
use bitcoin_svm_bridge.Utils.Retarget.{should_diff_adjust, has_correct_difficulty_target}
use bitcoin_svm_bridge.Utils.Median.{is_larger_than_median}

-- four hours
abbrev pub max_future_blocktime : ℕ
max_future_blocktime = 4 * 60 * 60

-- The on-chain clock as a `u32`: `try_into().unwrap()` panics out of range.
unfoldable pub now_ts : ℤ → Result ℕ
now_ts (pos unix_timestamp) = if ltb unix_timestamp (2 ^ 32) then ok unix_timestamp else fail panic
now_ts (negsuc n) = fail panic

-- The loop that moves the ten timestamps down by one, and the write of the newest.
unfoldable pub shift_timestamps : List ℕ → ℕ → List ℕ
shift_timestamps [] newest = []
shift_timestamps (oldest ∷ timestamps) newest = timestamps ++ newest ∷ []

-- the committed header that the fields are set to
abbrev pub advance : CommittedBlockHeader → BlockHeader → ℕ → Bytes → CommittedBlockHeader
advance last header height difficulty = record {
  chain_work = add_in_place last.chain_work difficulty;
  header = header;
  last_diff_adjustment =
      if should_diff_adjust height then header.timestamp else last.last_diff_adjustment;
  blockheight = height;
  prev_block_timestamps = shift_timestamps last.prev_block_timestamps last.header.timestamp;
}

module _ (p : Platform) (clock : ℤ) where
  -- left out of a testnet build
  check_target : BlockHeader → CommittedBlockHeader → Result (Unit {0})
  check_target header last =
      if p.bitcoin_testnet
      then ok tt
      else (has_correct_difficulty_target last header.nbits >>= λ fits.
          require fits err_diff_target)

  -- The source changes `last_commited_header` in place; here the new value is returned beside the
  -- block hash. A failure rolls the change back with the transaction.
  unfoldable pub verify_header :
      BlockHeader → CommittedBlockHeader → Pubkey → Result (Bytes × CommittedBlockHeader)
  unfolding check_target
  verify_header header last remaining_account = do
    check_target header last
    height ← checked_add 32 last.blockheight 1
    let block_hash = get_block_hash p header
    require (bytes_eq (p.find_header_topic block_hash) remaining_account) invalid_header_topic
    target ← nbits_to_target header.nbits
    require (lte_arr (reverse block_hash) target) err_pow_toolow
    require
        (is_larger_than_median last.prev_block_timestamps last.header.timestamp header.timestamp)
        err_timestamp_toolow
    current_timestamp ← now_ts clock
    limit ← checked_add 32 current_timestamp max_future_blocktime
    require (ltb header.timestamp limit) err_timestamp_too_high
    difficulty ← get_difficulty target
    ok (block_hash, advance last header height difficulty)
