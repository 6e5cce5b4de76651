-- ===== src/Program/Bridge/Descent.antt =====
-- From the account behind `initialize` (lib.rs) on, over any number of steps: which headers the
-- accounts of the program have commitments of.
use bitcoin_svm_bridge.Prelude.{ℕ, ◌<◌, ◌≡◌, sym, ◌∙◌, none, some}
use bitcoin_svm_bridge.ArrayUtils.{Bytes}
use bitcoin_svm_bridge.Structs.{Platform, Pubkey, CommittedBlockHeader}
use bitcoin_svm_bridge.State.{ForkState}
use bitcoin_svm_bridge.Program.Submit.{initialize}
use bitcoin_svm_bridge.Program.Transaction.{BitcoinCrate}
use bitcoin_svm_bridge.Program.Tree.{IsClear, TipRun, at_first, behind, InTree, IsSound}
use bitcoin_svm_bridge.Program.Tree.Submit.{}
use bitcoin_svm_bridge.Program.Tree.Start.{initialize-IsSound, check_commited-InTree}
use bitcoin_svm_bridge.Program.Tree.Forks.Submitted.{}
use bitcoin_svm_bridge.Program.Bridge.{Bridge, Step, Reach, here, next}
use bitcoin_svm_bridge.Program.Bridge.Steps.{}
use bitcoin_svm_bridge.Program.Bridge.Runs.{PaidProven, deposits_fall_for_proven}
use bitcoin_svm_bridge.Program.Bridge.Sound.{IsSoundBridge, Step-IsSoundBridge}

-- The accounts before the first instruction but `initialize`.
pub record IsNew (p : Platform) (first : CommittedBlockHeader) (s : Bridge) : Type 0 where
  pub started :
      s.main
      ≡ (initialize p first.header first.blockheight first.chain_work first.last_diff_adjustment
          first.prev_block_timestamps).0
  pub no_forks : (fork_id : ℕ) (key : Pubkey) → s.forks fork_id key ≡ none
  pub no_tx_accounts : (tx_id : Bytes) → s.tx_accounts tx_id ≡ none

module _ (p : Platform) {Transaction : Type 0} (b : BitcoinCrate Transaction)
    (first : CommittedBlockHeader) {Passed : CommittedBlockHeader → Type 0}
    (clear : (c : CommittedBlockHeader) → Passed c → IsClear p first c) where
  IsNew-IsSoundBridge :
      (s : Bridge) → IsNew p first s → (v : IsSoundBridge p first s) × (v.main.tip ≡ first)
  IsNew-IsSoundBridge s new =
      let (main, tip) = at_start s new.started in
      (
        record {
          main = main;
          forks = λ fork_id key f h. absurd (nothing (sym (new.no_forks fork_id key) ∙ h));
        },
        tip,
      )
    where
      nothing : {f : ForkState} → none ≡ some f → ⊥
      nothing e = cc

      at_start :
          (s : Bridge)
          → s.main
            ≡ (initialize p first.header first.blockheight first.chain_work
                first.last_diff_adjustment first.prev_block_timestamps).0
          → (m : IsSound p first s.main) × (m.tip ≡ first)
      at_start s e = rw e (
          initialize-IsSound p first.header first.blockheight first.chain_work
            first.last_diff_adjustment first.prev_block_timestamps)

  -- From the account behind `initialize` on, with no forks, over any number of steps: every entry of
  -- the main account's buffer is zeros or the commitment of a header that descends from the first one
  -- by accepted headers; the tip is such a header, with the height, the work and the hashes that the
  -- account keeps; and the account of every fork stands for accepted headers on top of such a header.
  -- The tip came from the first header by steps that each left it, extended it by accepted headers, or
  -- replaced it by a header that descends from the first one and has strictly more work. This asks of
  -- each committed header that is passed to an instruction that its commitment is not zero, and not
  -- that of another header which descends from the first one.
  pub reached-IsSoundBridge :
      {s t : Bridge}
      → IsNew p first s
      → Reach p b Passed s t
      → (v : IsSoundBridge p first t) × TipRun p first v.main.tip
  reached-IsSoundBridge new here = let (v, tip) = IsNew-IsSoundBridge _ new in (v, rw tip at_first)
  reached-IsSoundBridge new (next r st) =
      let (v, run) = reached-IsSoundBridge new r in
      let (v', tip_step) = Step-IsSoundBridge p b first clear _ v st in (v', behind run tip_step)

  -- From the account behind `initialize` on, with no forks and no accounts of big transactions, over
  -- any number of steps: a step after which the deposits are lower pays for a transaction whose id
  -- was proven, by a Merkle proof, against a header that descends from the first one by accepted
  -- headers. It takes ten lamports for each satoshi that the transaction sends to the receiver's
  -- deposit script, gives as much to the receiver, and changes no other wallet. This asks of each
  -- committed header that is passed to an instruction that its commitment is not zero, and not that
  -- of another header which descends from the first one.
  pub deposits_fall_for_accepted :
      (s t : Bridge) {u : Bridge}
      → IsNew p first s
      → Reach p b Passed s t
      → Step p b Passed t u
      → u.deposit < t.deposit
      → (paid : PaidProven p b Passed s t u) × InTree p first paid.proven.commited
  deposits_fall_for_accepted s t new r st less =
      let paid = deposits_fall_for_proven p b Passed s t new.no_tx_accounts r st less in
      let (moment, _) = reached-IsSoundBridge new paid.proven.before in
      let proven = paid.proven in
      let (in_tree, _) =
        check_commited-InTree p first proven.proven.confirmations proven.commited proven.moment.main
          (clear proven.commited proven.passed) moment.main proven.proven.commitment in
      (paid, in_tree)
