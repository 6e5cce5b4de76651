-- ===== src/Program/Tree/Start.antt =====
-- The account behind `initialize` (lib.rs), and the headers that an instruction on transactions takes.
use bitcoin_svm_bridge.Prelude.{
  [], require-eq-ok_tt, get_elem?, block_confirmations, checked_sub, leb, ℕ, ◌≤◌, ◌≡◌, refl, sym,
  ap, ◌∙◌, List, ok, All-set, All-replicate, inl, inr, bind_ok, require_ok, checked_add,
  bytes_eq→eq, replicate, arith,
}
use bitcoin_svm_bridge.ArrayUtils.{Bytes}
use bitcoin_svm_bridge.Structs.{
  Platform, BlockHeader, CommittedBlockHeader, get_commit_hash, zero_hash,
}
use bitcoin_svm_bridge.State.{MainState, get_commitment, get_position}
use bitcoin_svm_bridge.Program.Loop.Chain.{}
use bitcoin_svm_bridge.Program.Submit.{initialize}
use bitcoin_svm_bridge.Program.Submit.Initialize.{first_commited, first_position}
use bitcoin_svm_bridge.Program.Tree.{IsClear, InTree, IsKnown, IsSound}
use bitcoin_svm_bridge.Program.Transaction.{check_commited}
use bitcoin_svm_bridge.Program.Tree.Submit.{get_commitment-InTree}

-- Behind `initialize`, the first header is the one that was passed.
pub initialize-IsSound :
    (p : Platform) (header : BlockHeader) (block_height : ℕ) (chain_work : Bytes)
    (last_diff_adjustment : ℕ) (prev_block_timestamps : List ℕ)
    → (v : IsSound p
        (first_commited header block_height chain_work last_diff_adjustment prev_block_timestamps)
        (initialize p header block_height chain_work last_diff_adjustment prev_block_timestamps).0)
      × (v.tip
          ≡ first_commited header block_height chain_work last_diff_adjustment
              prev_block_timestamps)
unfolding initialize get_position
initialize-IsSound p header block_height chain_work last_diff_adjustment prev_block_timestamps = (
  record {
    size = refl;
    known =
        All-set (IsKnown p first) (replicate 250 zero_hash) 0 (get_commit_hash p first)
          (All-replicate (IsKnown p first) 250 zero_hash (inl refl))
          (inr (first, ([], tt, refl), refl));
    ahead = omega arith;
    at_tip = λ near.
        ap (get_elem? account.block_commitments)
          (first_position account block_height (omega arith) (omega arith));
    tip = first;
    in_tree = ([], tt, refl);
    commit = refl;
    height = refl;
    work = refl;
    block_hash = refl;
  },
  refl,
)
  where
    first : CommittedBlockHeader
    first = first_commited header block_height chain_work last_diff_adjustment prev_block_timestamps

    account : MainState
    account =
        (initialize p header block_height chain_work last_diff_adjustment prev_block_timestamps).0

-- A committed header that passes the tests of an instruction on transactions is in the tree, not above
-- the tip.
pub check_commited-InTree :
    (p : Platform) (first : CommittedBlockHeader) (confirmations : ℕ)
    (commited : CommittedBlockHeader) (s : MainState)
    → IsClear p first commited
    → IsSound p first s
    → check_commited p confirmations commited s ≡ ok tt
    → InTree p first commited × (commited.blockheight ≤ s.block_height)
unfolding check_commited
check_commited-InTree p first confirmations commited s clear v h =
    bind_ok (checked_sub s.block_height commited.blockheight) _ h λ depth e0 h0.
      bind_ok (checked_add 32 depth 1) _ h0 λ count e1 h1.
        require_ok (leb confirmations count) block_confirmations _ h1 λ e2 h2.
          bind_ok (get_commitment s commited.blockheight) _ h2 λ stored e3 h3.
            get_commitment-InTree p first s commited.blockheight commited clear v
              (e3 ∙ ap ok (sym (bytes_eq→eq _ _ (require-eq-ok_tt _ _ h3))))
