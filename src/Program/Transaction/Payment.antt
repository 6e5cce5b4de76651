-- ===== src/Program/Transaction/Payment.antt =====
-- What a successful payment has verified, and what it moves.
use bitcoin_svm_bridge.Prelude.{
  ℕ, ◌+◌, ◌≤◌, ◌≡◌, ◌≢◌, ◌∙◌, List, some, ok, block_confirmations, prev_block_commitment,
  merkle_root_mismatch, checked_add, checked_sub, checked_add-eq-ok, checked_sub-eq-ok, bytes_eq→eq,
  leb, leb→le, bind_ok, require_ok, require-eq-ok_tt, arith,
}
use bitcoin_svm_bridge.ArrayUtils.{Bytes}
use bitcoin_svm_bridge.Structs.{Platform, Pubkey, CommittedBlockHeader, get_commit_hash, zero_hash}
use bitcoin_svm_bridge.State.{MainState, get_commitment}
use bitcoin_svm_bridge.State.Commitment.{History}
use bitcoin_svm_bridge.Utils.Merkle.{compute_merkle}
use bitcoin_svm_bridge.Program.Submit.Main.{IsValid}
use bitcoin_svm_bridge.Program.Submit.Accepted.{get_commitment-kept}
use bitcoin_svm_bridge.Program.Transaction.{init_big_tx_verify}
use bitcoin_svm_bridge.Program.Transaction.{
  BitcoinCrate, expected_script_pubkey, Lamports, check_commited, check_merkle, verify_small_tx,
  finalize_tx_processing,
}
use bitcoin_svm_bridge.Program.Transaction.Payout.{
  deposited, Paid, verify_small_tx-eq-ok, finalize_tx_processing-eq-ok,
}

-- The committed header is in the chain, deep enough, and the Merkle proof leads to its root.
pub record Included (p : Platform) (hist : History) (main : MainState) (confirmations : ℕ)
    (tx_id : Bytes) (tx_index : ℕ) (proof : List Bytes) (commited : CommittedBlockHeader)
    : Type 0 where
  pub in_chain : get_commit_hash p commited ≡ hist commited.blockheight
  pub below_tip : commited.blockheight ≤ main.block_height
  pub deep : commited.blockheight + confirmations ≤ main.block_height + 1
  pub in_block : compute_merkle p tx_id tx_index proof ≡ commited.header.merkle_root

module _ (p : Platform) where
  check_commited-eq-ok :
      {lo : ℕ} {hist : History} (confirmations : ℕ) (commited : CommittedBlockHeader)
      (main : MainState)
      → IsValid lo hist main
      → lo ≤ commited.blockheight
      → get_commit_hash p commited ≢ zero_hash
      → check_commited p confirmations commited main ≡ ok tt
      → (get_commit_hash p commited ≡ hist commited.blockheight)
        × (commited.blockheight ≤ main.block_height)
        × (commited.blockheight + confirmations ≤ main.block_height + 1)
  unfolding check_commited
  check_commited-eq-ok confirmations commited main v above filled h =
      bind_ok (checked_sub main.block_height commited.blockheight) _ h λ depth e0 h0.
        bind_ok (checked_add 32 depth 1) _ h0 λ count e1 h1.
          require_ok (leb confirmations count) block_confirmations _ h1 λ e2 h2.
            bind_ok (get_commitment main commited.blockheight) _ h2 λ stored e3 h3.
              let named = bytes_eq→eq _ _ (require-eq-ok_tt _ prev_block_commitment h3) in
              let (place, below, _) = get_commitment-kept v above (λ e. filled (named ∙ e)) e3 in
              let (rest, _) = checked_sub-eq-ok main.block_height commited.blockheight e0 in
              let (sum, _) = checked_add-eq-ok 32 depth 1 e1 in
              (named ∙ place, below, omega (arith, rest, sum, leb→le _ _ e2))

  module _ {Transaction : Type 0} (b : BitcoinCrate Transaction) where
    -- On a valid account, every `verify_small_tx` that succeeds decodes a transaction that a Merkle
    -- proof shows in a block of the main chain with the confirmations that were asked for, and moves ten
    -- lamports for each satoshi that the transaction sends to the receiver's deposit script, a
    -- positive number, from the deposits to the receiver. The committed header stands in the
    -- part of the chain that the account represents, and its commitment is not zero.
    pub verify_small_tx_pays :
        {lo : ℕ} {hist : History} (tx_bytes : Bytes) (confirmations tx_index : ℕ)
        (proof : List Bytes) (commited : CommittedBlockHeader) (receiver : Pubkey)
        (main : MainState) (l : Lamports) {t : Lamports}
        → IsValid lo hist main
        → lo ≤ commited.blockheight
        → get_commit_hash p commited ≢ zero_hash
        → verify_small_tx p b tx_bytes confirmations tx_index proof commited receiver main l ≡ ok t
        → (bitcoin_tx : Transaction) × (b.consensus_decode tx_bytes ≡ some bitcoin_tx)
          × Included p hist main confirmations (b.compute_txid bitcoin_tx) tx_index proof commited
          × Paid (deposited (expected_script_pubkey b receiver) (b.output bitcoin_tx)) l t
    unfolding check_merkle
    verify_small_tx_pays tx_bytes confirmations tx_index proof commited receiver main l v above
          filled h =
        let (bitcoin_tx, decoded, commitment, inclusion, paid) =
          verify_small_tx-eq-ok b p tx_bytes confirmations tx_index proof commited receiver main l
            h in
        let (place, below, deep) =
          check_commited-eq-ok confirmations commited main v above filled commitment in
        (
          bitcoin_tx,
          decoded,
          record {
            in_chain = place;
            below_tip = below;
            deep = deep;
            in_block = bytes_eq→eq _ _ (require-eq-ok_tt _ merkle_root_mismatch inclusion);
          },
          paid,
        )

    -- Where `init_big_tx_verify` for an id succeeded on a valid account, every later
    -- `finalize_tx_processing` for that id that succeeds decodes, from the bytes stored meanwhile, a
    -- transaction with this id, which a Merkle proof shows in a block of the main chain, and moves
    -- ten lamports for each satoshi that it sends to the receiver's deposit script, a positive number.
    -- The conditions on the committed header are those of `verify_small_tx`.
    pub finalize_tx_processing_pays :
        {lo : ℕ} {hist : History} (tx_id : Bytes) (confirmations tx_index : ℕ) (proof : List Bytes)
        (commited : CommittedBlockHeader) (main : MainState) (tx_bytes : Bytes) (receiver : Pubkey)
        (l : Lamports) {started : Bytes} {t : Lamports}
        → IsValid lo hist main
        → lo ≤ commited.blockheight
        → get_commit_hash p commited ≢ zero_hash
        → init_big_tx_verify p tx_id confirmations tx_index proof commited main ≡ ok started
        → finalize_tx_processing b tx_id tx_bytes receiver l ≡ ok t
        → (bitcoin_tx : Transaction) × (b.consensus_decode tx_bytes ≡ some bitcoin_tx)
          × (b.compute_txid bitcoin_tx ≡ tx_id)
          × Included p hist main confirmations tx_id tx_index proof commited
          × Paid (deposited (expected_script_pubkey b receiver) (b.output bitcoin_tx)) l t
    unfolding init_big_tx_verify check_merkle
    finalize_tx_processing_pays tx_id confirmations tx_index proof commited main tx_bytes receiver l
          v above filled g h =
        bind_ok (check_commited p confirmations commited main) _ g λ done commitment g0.
          bind_ok (check_merkle p tx_id tx_index proof commited) _ g0 λ proved inclusion g1.
            let (bitcoin_tx, decoded, named, paid) =
              finalize_tx_processing-eq-ok b tx_id tx_bytes receiver l h in
            let (place, below, deep) =
              check_commited-eq-ok confirmations commited main v above filled commitment in
            (
              bitcoin_tx,
              decoded,
              named,
              record {
                in_chain = place;
                below_tip = below;
                deep = deep;
                in_block = bytes_eq→eq _ _ (require-eq-ok_tt _ merkle_root_mismatch inclusion);
              },
              paid,
            )
