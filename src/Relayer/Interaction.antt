-- ===== src/Relayer/Interaction.antt =====
-- block_relayer/src/relay_program_interaction.rs: the arguments of the instructions that the relayer
-- sends. As its README says, the relayer runs in the profile of `cargo run`, where an overflow panics.
pub mod Timestamps
pub mod Rebuilt
pub mod Sent
use bitcoin_svm_bridge.Prelude.{
  ℕ, zero, suc, ◌+◌, ◌-◌, ◌^◌, ◌%◌, List, [], ◌∷◌, Option, none, some, Bool, true, false, bytes_eq,
  if◌then◌else◌, checked_sub, ltb, leb, length, take, set, replicate, map,
}
use bitcoin_svm_bridge.ArrayUtils.{Bytes}
use bitcoin_svm_bridge.Structs.{
  Platform, Pubkey, BlockHeader, CommittedBlockHeader, zero_hash, get_block_hash,
}
use bitcoin_svm_bridge.State.{MainState}
use bitcoin_svm_bridge.Relayer.Merkle.{Proof, create, to_reversed_vec}
use bitcoin_svm_bridge.Relayer.Node.{
  Call, done, error, crash, ◌>>=◌, map_err, ok_or, or_crash, Header, Block, BlockInfo,
  TransactionInfo, BitcoinRpc, Solana, yona_block_header,
}

module _ {E : Type 0} (rpc : BitcoinRpc E) where
  -- The loop over the ten blocks before a height, from round `i` on; the array is filled from its end.
  unfoldable pub fill_timestamps : ℕ → ℕ → ℕ → List ℕ → Call E (List ℕ)
  fill_timestamps zero height i timestamps = done timestamps
  fill_timestamps (suc rounds) height i timestamps = do
    above ← or_crash (checked_sub height i)
    before ← or_crash (checked_sub above 1)
    prev_block_hash ← rpc.get_block_hash before
    block ← rpc.get_block prev_block_hash
    fill_timestamps rounds height (i + 1) (set timestamps (9 - i) block.header.time)

  unfoldable pub reconstruct_commited_header : Bytes → ℕ → ℕ → Call E CommittedBlockHeader
  unfolding fill_timestamps
  reconstruct_commited_header hash height last_diff_adjustment = do
    header ← rpc.get_block_header hash
    prev_block_timestamps ← fill_timestamps 10 height 0 (replicate 10 0)
    done (record {
      chain_work = zero_hash;
      header = yona_block_header header;
      last_diff_adjustment = last_diff_adjustment;
      blockheight = height;
      prev_block_timestamps = prev_block_timestamps;
    })

-- the arguments of `initialize`
pub record InitializeArgs : Type 0 where
  pub data_header : BlockHeader
  pub block_height : ℕ
  pub chain_work : Bytes
  pub last_diff_adjustment : ℕ
  pub prev_block_timestamps : List ℕ

-- the instruction that `init_program` sends
unfoldable pub init_program : Block → ℕ → InitializeArgs
init_program block block_height = record {
  data_header = yona_block_header block.header;
  block_height = block_height;
  chain_work = zero_hash;
  last_diff_adjustment = block.header.time;
  prev_block_timestamps = replicate 10 block.header.time;
}

-- the arguments of `submit_block_headers`, with the accounts behind the instruction
pub record SubmitBlockArgs : Type 0 where
  pub remaining_accounts : List Pubkey
  pub headers : List BlockHeader
  pub commited_header : CommittedBlockHeader

-- the instruction that `submit_block` sends
unfoldable pub submit_block : Platform → Block → CommittedBlockHeader → SubmitBlockArgs
submit_block p block commited_header =
    let header = yona_block_header block.header in
    record {
      remaining_accounts = p.find_header_topic (get_block_hash p header) ∷ [];
      headers = header ∷ [];
      commited_header = commited_header;
    }

-- `A` are the errors of Solana's client, `E` those of the node's.
pub data RelayTxError (A E : Type 0) : Type 0 where
  anchor : A → RelayTxError A E
  bitcoin_rpc : E → RelayTxError A E
  tx_is_not_included_to_block : RelayTxError A E
  could_not_find_txid_in_block : RelayTxError A E

-- the arguments of `verify_small_tx`
pub record VerifySmallTxArgs : Type 0 where
  pub tx_bytes : Bytes
  pub confirmations : ℕ
  pub tx_index : ℕ
  pub reversed_merkle_proof : List Bytes
  pub commited_header : CommittedBlockHeader

-- `iter().position(..)`, from the index `i` on
abbrev pub position : Bytes → List Bytes → ℕ → Option ℕ
position tx_id [] i = none
position tx_id (in_block ∷ txs) i =
    let later = position tx_id txs (i + 1) in if bytes_eq in_block tx_id then some i else later

-- the main account from its first 8128 bytes; a shorter account panics
unfoldable pub load_main_state :
    {A : Type 0} → (Bytes → Call A MainState) → Bytes → Call A MainState
load_main_state try_deserialize account =
    if leb 8128 (length account) then try_deserialize (take 8128 account) else crash

module _ (p : Platform) {A E : Type 0} (solana : Solana A) (rpc : BitcoinRpc E) where
  -- the instruction that `relay_tx` sends
  unfoldable pub relay_tx : Bytes → Call (RelayTxError A E) VerifySmallTxArgs
  relay_tx tx_id = do
    raw_account ← map_err anchor solana.get_account
    main_state ← map_err anchor (load_main_state solana.try_deserialize_unchecked raw_account)
    transaction ← map_err bitcoin_rpc (rpc.get_raw_transaction_info tx_id)
    block_hash ← ok_or tx_is_not_included_to_block transaction.blockhash
    block_info ← map_err bitcoin_rpc (rpc.get_block_info block_hash)
    commited_header ← map_err bitcoin_rpc (
        reconstruct_commited_header rpc block_hash (block_info.height % 2 ^ 32)
          main_state.last_diff_adjustment)
    tx_pos ← ok_or could_not_find_txid_in_block (position tx_id block_info.tx 0)
    proof ← or_crash (create p block_info.tx tx_pos)
    done (record {
      tx_bytes = transaction.hex;
      confirmations = 1;
      tx_index = tx_pos % 2 ^ 32;
      reversed_merkle_proof = to_reversed_vec proof;
      commited_header = commited_header;
    })
