-- ===== src/Program/Transaction/Replay.antt =====
-- Payments of one transaction more than once.
use bitcoin_svm_bridge.Prelude.{
  ℕ, ◌≡◌, refl, List, ok, or_panic, no_deposit_outputs, bind_ok, require_ok, ltb,
}
use bitcoin_svm_bridge.ArrayUtils.{Bytes}
use bitcoin_svm_bridge.Structs.{Platform, Pubkey, CommittedBlockHeader}
use bitcoin_svm_bridge.State.{MainState}
use bitcoin_svm_bridge.Program.Transaction.{
  BitcoinCrate, bridge_mint_amount, Lamports, pay, check_commited, check_merkle, verify_small_tx,
}

module _ (p : Platform) {Transaction : Type 0} (b : BitcoinCrate Transaction) where
  -- Where `verify_small_tx` succeeded once, the same call with the same main account pays the same
  -- amount again from any balances that have room for it: nothing but the balances limits how
  -- often a transaction is paid for.
  pub verify_small_tx_repeats :
      (tx_bytes : Bytes) (confirmations tx_index : ℕ) (proof : List Bytes)
      (commited : CommittedBlockHeader) (receiver : Pubkey) (main : MainState) (l : Lamports)
      {t : Lamports}
      → verify_small_tx p b tx_bytes confirmations tx_index proof commited receiver main l ≡ ok t
      → (amount : ℕ) × (pay amount l ≡ ok t)
        × ((again : Lamports)
            → verify_small_tx p b tx_bytes confirmations tx_index proof commited receiver main again
              ≡ pay amount again)
  unfolding verify_small_tx
  verify_small_tx_repeats tx_bytes confirmations tx_index proof commited receiver main l h =
      bind_ok (check_commited p confirmations commited main) _ h λ done e0 h0.
        bind_ok (or_panic (b.consensus_decode tx_bytes)) _ h0 λ bitcoin_tx e1 h1.
          bind_ok (bridge_mint_amount b bitcoin_tx receiver) _ h1 λ amount e2 h2.
            require_ok (ltb 0 amount) no_deposit_outputs _ h2 λ e3 h3.
              bind_ok (check_merkle p (b.compute_txid bitcoin_tx) tx_index proof commited) _ h3
                λ proved e4 h4. (amount, h4, λ again. rw (e0, e1, e2, e3, e4) refl)
