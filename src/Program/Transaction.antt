-- ===== src/Program/Transaction.antt =====
-- The instructions that verify transactions and pay out (lib.rs), with `bridge_deposit_script` and
-- `bridge_mint_amount` (utils.rs). Amounts are `u64`.
pub mod Payout
pub mod Payment
pub mod Replay
use bitcoin_svm_bridge.Prelude.{
  ℕ, ◌+◌, List, [], ◌∷◌, ◌++◌, Bool, true, false, Option, none, some, Result, ok, fail, panic,
  ◌>>=◌, ◌>>◌, require, or_panic, block_confirmations, prev_block_commitment, no_deposit_outputs,
  merkle_root_mismatch, invalid_blockheight, checked_add, checked_sub, checked_mul, bytes_eq, ltb,
  leb, ◌==◌, if◌then◌else◌,
}
use bitcoin_svm_bridge.ArrayUtils.{Bytes}
use bitcoin_svm_bridge.Structs.{Platform, Pubkey, CommittedBlockHeader, get_commit_hash}
use bitcoin_svm_bridge.State.{MainState, get_commitment}
use bitcoin_svm_bridge.Utils.Merkle.{compute_merkle}

pub record TxOut : Type 0 where
  pub script_pubkey : Bytes
  pub value : ℕ

-- the steps of the script builder
pub data BuilderStep : Type 0 where
  push_slice : Bytes → BuilderStep
  op_drop op_hash160 op_equalverify op_checksig : BuilderStep

-- What is taken from the `bitcoin` crate: its transactions with their decoding, ids and outputs, and
-- the hash160 of a public key; `p2wsh_script_pubkey` is the output script of the address of a built
-- script on the network that the source names.
pub record BitcoinCrate (Transaction : Type 0) : Type 0 where
  pub consensus_decode : Bytes → Option Transaction
  pub compute_txid : Transaction → Bytes
  pub output : Transaction → List TxOut
  pub hash160 : Bytes → Bytes
  pub p2wsh_script_pubkey : List BuilderStep → Bytes

-- the bytes of the hexadecimal constant
abbrev pub bitcoin_deposit_pubkey : Bytes
bitcoin_deposit_pubkey =
    0x02 ∷ 0x88 ∷ 0xe6 ∷ 0x4b ∷ 0x7f ∷ 0xd0 ∷ 0xbc ∷ 0xda ∷ 0xf5 ∷ 0xc0 ∷ 0x08 ∷ 0x1d ∷ 0x06 ∷ 0x8f
    ∷ 0x6a ∷ 0x6f ∷ 0x7b ∷ 0x6e ∷ 0xa0 ∷ 0x03 ∷ 0x6e ∷ 0xba ∷ 0xbf ∷ 0x3d ∷ 0xaa ∷ 0xbc ∷ 0x74
    ∷ 0xc2 ∷ 0xc7 ∷ 0xe1 ∷ 0x19 ∷ 0x1e ∷ 0x2d ∷ []

abbrev pub bridge_deposit_script : Bytes → Bytes → List BuilderStep
bridge_deposit_script solana_pub bitcoin_pubkey_hash =
    push_slice solana_pub
    ∷ op_drop
    ∷ op_hash160
    ∷ push_slice bitcoin_pubkey_hash
    ∷ op_equalverify
    ∷ op_checksig
    ∷ []

-- `filter` and `fold` in one walk
unfoldable pub sum_outputs : Bytes → List TxOut → ℕ → Result ℕ
sum_outputs expected [] total = ok total
sum_outputs expected (out ∷ outs) total =
    if bytes_eq out.script_pubkey expected
    then (checked_add 64 total out.value >>= λ sum. sum_outputs expected outs sum)
    else sum_outputs expected outs total

-- the lamports of the two accounts that an instruction pays between
pub record Lamports : Type 0 where
  pub deposit_account : ℕ
  pub mint_receiver : ℕ

module _ {Transaction : Type 0} (b : BitcoinCrate Transaction) where
  abbrev pub expected_script_pubkey : Pubkey → Bytes
  expected_script_pubkey solana_pub =
      b.p2wsh_script_pubkey (bridge_deposit_script solana_pub (b.hash160 bitcoin_deposit_pubkey))

  unfoldable pub bridge_mint_amount : Transaction → Pubkey → Result ℕ
  unfolding sum_outputs
  bridge_mint_amount bitcoin_tx solana_pub =
      sum_outputs (expected_script_pubkey solana_pub) (b.output bitcoin_tx) 0

-- The payment at the end of both instructions: ten lamports for a satoshi.
unfoldable pub pay : ℕ → Lamports → Result Lamports
pay amount_to_transfer l = do
  sol_amount ← checked_mul 64 amount_to_transfer 10
  left ← checked_sub l.deposit_account sol_amount
  received ← checked_add 64 l.mint_receiver sol_amount
  ok (record { deposit_account = left; mint_receiver = received })

module _ (p : Platform) where
  -- the tests that `verify_small_tx` and `init_big_tx_verify` start with
  unfoldable pub check_commited : ℕ → CommittedBlockHeader → MainState → Result (Unit {0})
  check_commited confirmations commited main = do
    depth ← checked_sub main.block_height commited.blockheight
    count ← checked_add 32 depth 1
    require (leb confirmations count) block_confirmations
    stored ← get_commitment main commited.blockheight
    require (bytes_eq (get_commit_hash p commited) stored) prev_block_commitment

  unfoldable pub check_merkle : Bytes → ℕ → List Bytes → CommittedBlockHeader → Result (Unit {0})
  check_merkle tx_id tx_index proof commited =
      require (bytes_eq (compute_merkle p tx_id tx_index proof) commited.header.merkle_root)
        merkle_root_mismatch

  module _ {Transaction : Type 0} (b : BitcoinCrate Transaction) where
    unfoldable pub verify_small_tx :
        Bytes
        → ℕ
        → ℕ
        → List Bytes
        → CommittedBlockHeader
        → Pubkey
        → MainState
        → Lamports
        → Result Lamports
    unfolding check_commited check_merkle pay
    verify_small_tx tx_bytes confirmations tx_index proof commited receiver main l = do
      check_commited confirmations commited main
      bitcoin_tx ← or_panic (b.consensus_decode tx_bytes)
      amount ← bridge_mint_amount b bitcoin_tx receiver
      require (ltb 0 amount) no_deposit_outputs
      check_merkle (b.compute_txid bitcoin_tx) tx_index proof commited
      pay amount l

  -- The account of the new address starts empty.
  unfoldable pub init_big_tx_verify :
      Bytes → ℕ → ℕ → List Bytes → CommittedBlockHeader → MainState → Result Bytes
  unfolding check_commited check_merkle
  init_big_tx_verify tx_id confirmations tx_index proof commited main = do
    check_commited confirmations commited main
    check_merkle tx_id tx_index proof commited
    ok []

module _ {Transaction : Type 0} (b : BitcoinCrate Transaction) where
  -- `tx_bytes` is what the account at the address of `tx_id` holds; `assert_eq!` panics.
  unfoldable pub finalize_tx_processing : Bytes → Bytes → Pubkey → Lamports → Result Lamports
  unfolding pay
  finalize_tx_processing tx_id tx_bytes receiver l = do
    bitcoin_tx ← or_panic (b.consensus_decode tx_bytes)
    or_panic (if bytes_eq tx_id (b.compute_txid bitcoin_tx) then some tt else none)
    amount ← bridge_mint_amount b bitcoin_tx receiver
    require (ltb 0 amount) no_deposit_outputs
    pay amount l

-- `extend`
abbrev pub store_tx_bytes : Bytes → Bytes → Bytes
store_tx_bytes bytes tx_bytes = tx_bytes ++ bytes

-- the `match` on the operation
abbrev pub compare_height : ℕ → ℕ → ℕ → Bool
compare_height operation block_height value =
    if operation == 0
    then ltb block_height value
    else if operation == 1
    then leb block_height value
    else if operation == 2
    then ltb value block_height
    else if operation == 3
    then leb value block_height
    else if operation == 4
    then block_height == value
    else false

unfoldable pub block_height : ℕ → ℕ → MainState → Result (Unit {0})
block_height value operation main =
    require (compare_height operation main.block_height value) invalid_blockheight
