-- ===== src/Structs.antt =====
-- programs/btc-relay/src/structs.rs and events.rs: the headers, their hashes and the events.
-- What the program takes from its libraries is the record `Platform`.
use bitcoin_svm_bridge.Prelude.{ℕ, List, Bool, replicate}
use bitcoin_svm_bridge.ArrayUtils.{Bytes}

abbrev pub Pubkey : Type 0
Pubkey = Bytes

-- `[0; 32]`
abbrev pub zero_hash : Bytes
zero_hash = replicate 32 0

pub record BlockHeader : Type 0 where
  pub version : ℕ
  pub reversed_prev_blockhash : Bytes
  pub merkle_root : Bytes
  pub timestamp : ℕ
  pub nbits : ℕ
  pub nonce : ℕ

pub record CommittedBlockHeader : Type 0 where
  pub chain_work : Bytes
  pub header : BlockHeader
  pub last_diff_adjustment : ℕ
  pub blockheight : ℕ
  pub prev_block_timestamps : List ℕ

-- The code that is not in the repository: the serialisation that Anchor derives (writing to a
-- vector does not fail), SHA-256, Bitcoin's double SHA-256 of the `bitcoin` crate, and the address
-- that Solana derives from the seeds "header" and a block hash; and the compile-time feature
-- `bitcoin_testnet`.
pub record Platform : Type 0 where
  pub header_to_vec : BlockHeader → Bytes
  pub commited_to_vec : CommittedBlockHeader → Bytes
  pub hash : Bytes → Bytes
  pub sha256d : Bytes → Bytes
  pub find_header_topic : Bytes → Pubkey
  pub bitcoin_testnet : Bool

pub data Event : Type 0 where
  store_header : (block_hash commit_hash : Bytes) (header : CommittedBlockHeader) → Event
  store_fork :
      (fork_id : ℕ) (block_hash commit_hash : Bytes) (header : CommittedBlockHeader) → Event
  chain_reorg : (fork_id start_height : ℕ) (tip_block_hash tip_commit_hash : Bytes) → Event

module _ (p : Platform) where
  -- Double SHA-256 of the serialised header.
  unfoldable pub get_block_hash : BlockHeader → Bytes
  get_block_hash h = p.hash (p.hash (p.header_to_vec h))

  -- The fingerprint that the ring buffer keeps.
  unfoldable pub get_commit_hash : CommittedBlockHeader → Bytes
  get_commit_hash h = p.hash (p.commited_to_vec h)
