-- ===== src/Program/Submit/Initialize.antt =====
-- The account behind `initialize`.
use bitcoin_svm_bridge.Prelude.{ℕ, ◌≤◌, ◌≡◌, refl, ap, List, get_elem?, arith}
use bitcoin_svm_bridge.ArrayUtils.{Bytes}
use bitcoin_svm_bridge.Structs.{Platform, BlockHeader, CommittedBlockHeader, get_commit_hash}
use bitcoin_svm_bridge.State.{MainState, get_position}
use bitcoin_svm_bridge.Program.Submit.{initialize}
use bitcoin_svm_bridge.Program.Submit.Main.{IsValid}

abbrev pub first_commited : BlockHeader → ℕ → Bytes → ℕ → List ℕ → CommittedBlockHeader
first_commited header block_height chain_work last_diff_adjustment prev_block_timestamps = record {
  chain_work = chain_work;
  header = header;
  last_diff_adjustment = last_diff_adjustment;
  blockheight = block_height;
  prev_block_timestamps = prev_block_timestamps;
}

pub first_position :
    (s : MainState) (h : ℕ) → s.start_height ≤ h → h ≤ s.start_height → get_position s h ≡ 0
unfolding get_position
first_position s h a b = ground arith

-- The new account is valid for the chain whose only block is the one that was passed.
pub initialize-IsValid :
    (p : Platform) (header : BlockHeader) (block_height : ℕ) (chain_work : Bytes)
    (last_diff_adjustment : ℕ) (prev_block_timestamps : List ℕ)
    → IsValid block_height
        (λ height. get_commit_hash p (
          first_commited header block_height chain_work last_diff_adjustment prev_block_timestamps))
        (initialize p header block_height chain_work last_diff_adjustment prev_block_timestamps).0
unfolding initialize get_position
initialize-IsValid p header block_height chain_work last_diff_adjustment prev_block_timestamps =
    record {
      ring = record {
        size = refl;
        entries = λ h a b c w.
            ap (get_elem? account.block_commitments)
              (first_position account h (omega arith) (omega arith));
      };
      here = record { low = omega arith; high = omega arith };
      room = record { low = omega arith; high = omega arith };
      tip = refl;
      kept = omega arith;
    }
  where
    account : MainState
    account =
        (initialize p header block_height chain_work last_diff_adjustment prev_block_timestamps).0
