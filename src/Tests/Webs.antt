-- ===== src/Tests/Webs.antt =====
-- Witnesses of the theorems on the relayer's HTTP server and on its first instruction.
use bitcoin_svm_bridge.Prelude.{ℕ, ◌^◌, ◌<◌, ◌≡◌, refl, List, [], ◌∷◌, some, ok}
use bitcoin_svm_bridge.ArrayUtils.{Bytes}
use bitcoin_svm_bridge.Structs.{Pubkey}
use bitcoin_svm_bridge.Program.Transaction.{bridge_mint_amount, check_merkle}
use bitcoin_svm_bridge.Program.Transaction.Payout.{deposited}
use bitcoin_svm_bridge.Relayer.Node.{Call, done}
use bitcoin_svm_bridge.Relayer.Interaction.{InitializeArgs, VerifySmallTxArgs}
use bitcoin_svm_bridge.Relayer.Web.{
  ChainTip, Texts, relayed, deposit_address, relay_tx_web_api, get_deposit_address,
  run_init_program,
}
use bitcoin_svm_bridge.Relayer.Web.Served.{
  get_deposit_address-bridge_mint_amount, relay_tx_web_api_relays,
}
use bitcoin_svm_bridge.Relayer.Web.Started.{HasStarted, run_init_program-HasStarted}
use bitcoin_svm_bridge.Tests.{constant_hash, low_hash, first_state}
use bitcoin_svm_bridge.Tests.Payments.{small_crate}
use bitcoin_svm_bridge.Tests.Relays.{ticking, solana, account, account_read, mined}

-- texts that stand for themselves
abbrev texts : Texts
texts = record {
  txid_from_str = λ text. some text;
  pubkey_from_str = λ text. some text;
  p2wsh_address = λ script. 5 ∷ [];
}

abbrev client : Pubkey → VerifySmallTxArgs → Call ℕ Bytes
client receiver args = done (9 ∷ [])

get_deposit_address-bridge_mint_amount_example :
    (address script : Bytes) × (get_deposit_address small_crate texts low_hash
      ≡ deposit_address address)
    × (some address ≡ some script)
    × ((bitcoin_tx : ℕ)
        → deposited script (small_crate.output bitcoin_tx) < 2 ^ 64
        → bridge_mint_amount small_crate bitcoin_tx low_hash
          ≡ ok (deposited script (small_crate.output bitcoin_tx)))
get_deposit_address-bridge_mint_amount_example =
    get_deposit_address-bridge_mint_amount small_crate texts (λ text. some text) (λ script. refl)
      low_hash low_hash refl

relay_tx_web_api_relays_example :
    (args : VerifySmallTxArgs) × (relay_tx_web_api constant_hash texts solana ticking client
        (3 ∷ [])
        low_hash
      ≡ ok (relayed (9 ∷ [])))
    × (args.tx_bytes ≡ 7 ∷ [])
    × (check_merkle constant_hash
          (3 ∷ [])
          args.tx_index
          args.reversed_merkle_proof
          args.commited_header
        ≡ ok tt)
relay_tx_web_api_relays_example =
    relay_tx_web_api_relays constant_hash texts solana ticking client (3 ∷ []) low_hash (3 ∷ [])
      (7 ∷ []) account low_hash 2 first_state refl refl refl account_read mined

-- the constructor of a client
abbrev made : Call ℕ (Unit {0})
made = done tt

abbrev tips : Call ℕ (List ChainTip)
tips = done (record { hash = 250 ∷ []; height = 250 } ∷ [])

abbrev starter : InitializeArgs → Call ℕ Bytes
starter args = done (8 ∷ [])

started : run_init_program made made made tips ticking starter ≡ done (8 ∷ [])
unfolding run_init_program
started = refl

run_init_program-HasStarted_example :
    HasStarted constant_hash made made made tips ticking starter (8 ∷ [])
run_init_program-HasStarted_example =
    run_init_program-HasStarted constant_hash made made made tips ticking starter started
