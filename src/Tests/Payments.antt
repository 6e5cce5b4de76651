-- ===== src/Tests/Payments.antt =====
-- Witnesses of the theorems on payments, and runs of `block_height`.
use bitcoin_svm_bridge.Prelude.{ℕ, ◌≡◌, refl, [], ◌∷◌, bytes_eq, some, ok, arith}
use bitcoin_svm_bridge.Structs.{get_commit_hash}
use bitcoin_svm_bridge.State.{get_commitment}
use bitcoin_svm_bridge.Utils.Merkle.{compute_merkle}
use bitcoin_svm_bridge.Program.Submit.{initialize}
use bitcoin_svm_bridge.Program.Transaction.Replay.{verify_small_tx_repeats}
use bitcoin_svm_bridge.Program.Transaction.{pay}
use bitcoin_svm_bridge.Program.Transaction.{
  BitcoinCrate, expected_script_pubkey, bridge_mint_amount, Lamports, verify_small_tx,
  init_big_tx_verify, finalize_tx_processing, store_tx_bytes, block_height,
}
use bitcoin_svm_bridge.Program.Transaction.Payout.{deposited, Paid}
use bitcoin_svm_bridge.Program.Transaction.Payment.{
  Included, verify_small_tx_pays, finalize_tx_processing_pays,
}
use bitcoin_svm_bridge.Tests.{
  constant_hash, low_hash, first, first_state, first-IsValid, first_filled,
}

-- one transaction, with two outputs to the deposit script and one to another
abbrev pub small_crate : BitcoinCrate ℕ
small_crate = record {
  consensus_decode = λ bytes. some 1;
  compute_txid = λ bitcoin_tx. low_hash;
  output = λ bitcoin_tx.
      record { script_pubkey = 5 ∷ []; value = 100 }
      ∷ record { script_pubkey = 6 ∷ []; value = 1000 }
      ∷ record { script_pubkey = 5 ∷ []; value = 20 }
      ∷ [];
  hash160 = λ bytes. bytes;
  p2wsh_script_pubkey = λ steps. 5 ∷ [];
}

abbrev before : Lamports
before = record { deposit_account = 10000; mint_receiver = 1 }

abbrev behind : Lamports
behind = record { deposit_account = 8800; mint_receiver = 1201 }

small_ran :
    verify_small_tx constant_hash small_crate [] 1 0 [] first low_hash first_state before
    ≡ ok behind
unfolding verify_small_tx initialize get_commitment bytes_eq get_commit_hash bridge_mint_amount
    compute_merkle
small_ran = refl

verify_small_tx_pays_example :
    (bitcoin_tx : ℕ) × (small_crate.consensus_decode [] ≡ some bitcoin_tx)
    × Included constant_hash
        (λ height. low_hash)
        first_state
        1
        (small_crate.compute_txid bitcoin_tx)
        0
        []
        first
    × Paid
        (deposited (expected_script_pubkey small_crate low_hash) (small_crate.output bitcoin_tx))
        before
        behind
verify_small_tx_pays_example =
    verify_small_tx_pays constant_hash small_crate [] 1 0 [] first low_hash first_state before
      first-IsValid (omega arith) first_filled small_ran

verify_small_tx_repeats_example :
    (amount : ℕ) × (pay amount before ≡ ok behind)
    × ((again : Lamports)
        → verify_small_tx constant_hash small_crate [] 1 0 [] first low_hash first_state again
          ≡ pay amount again)
verify_small_tx_repeats_example =
    verify_small_tx_repeats constant_hash small_crate [] 1 0 [] first low_hash first_state before
      small_ran

init_ran : init_big_tx_verify constant_hash low_hash 1 0 [] first first_state ≡ ok []
unfolding init_big_tx_verify initialize get_commitment bytes_eq get_commit_hash compute_merkle
init_ran = refl

finalize_ran :
    finalize_tx_processing small_crate low_hash (store_tx_bytes (1 ∷ []) []) low_hash before
    ≡ ok behind
unfolding finalize_tx_processing bytes_eq bridge_mint_amount
finalize_ran = refl

finalize_tx_processing_pays_example :
    (bitcoin_tx : ℕ) × (small_crate.consensus_decode (1 ∷ []) ≡ some bitcoin_tx)
    × (small_crate.compute_txid bitcoin_tx ≡ low_hash)
    × Included constant_hash (λ height. low_hash) first_state 1 low_hash 0 [] first
    × Paid
        (deposited (expected_script_pubkey small_crate low_hash) (small_crate.output bitcoin_tx))
        before
        behind
finalize_tx_processing_pays_example =
    finalize_tx_processing_pays constant_hash small_crate low_hash 1 0 [] first first_state (1 ∷ [])
      low_hash before first-IsValid (omega arith) first_filled init_ran finalize_ran

height_reached : block_height 250 3 first_state ≡ ok tt
unfolding block_height initialize
height_reached = refl
