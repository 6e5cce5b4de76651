-- ===== src/Relayer/Interaction/Sent.antt =====
-- The proof that `relay_tx` sends, and the relay program's check of it.
use native.Mathlib.Nat.{zero-add}
use bitcoin_svm_bridge.Prelude.{
  bind_ok, ok-injective, ltb, ℕ, suc, ◌+◌, ◌^◌, ◌%◌, ◌≤◌, ◌<◌, ◌≡◌, refl, sym, ap, List, [], ◌∷◌,
  some, ok, bytes_eq, bytes_eq→eq, eq→bytes_eq, length, get_elem?, arith, Bool-cases, inl, inr,
}
use bitcoin_svm_bridge.ArrayUtils.{Bytes}
use bitcoin_svm_bridge.Structs.{Platform, CommittedBlockHeader, zero_hash}
use bitcoin_svm_bridge.State.{MainState}
use bitcoin_svm_bridge.Program.Transaction.{check_merkle}
use bitcoin_svm_bridge.Relayer.Merkle.{Proof, create, create_loop, to_reversed_vec}
use bitcoin_svm_bridge.Relayer.Merkle.Levels.{IsRoot, leaf, node}
use bitcoin_svm_bridge.Relayer.Merkle.Verify.{compute_merkle-create}
use bitcoin_svm_bridge.Relayer.Node.{done, Header, BlockInfo, BitcoinRpc, Solana, yona_block_header}
use bitcoin_svm_bridge.Relayer.Interaction.Timestamps.{HasBlock, times_before, fill_timestamps_lem}
use bitcoin_svm_bridge.Relayer.Interaction.{
  reconstruct_commited_header, position, load_main_state, VerifySmallTxArgs, relay_tx,
}

-- What the node answers for a transaction that stands in a block: its data, the block with the
-- transaction at the place `place`, the block's header with the Merkle root, and the blocks before it.
pub record IsMined {E : Type 0} (p : Platform) (rpc : BitcoinRpc E) (tx_id hex : Bytes) (place : ℕ)
    : Type 0 where
  pub block_hash : Bytes
  pub info : BlockInfo
  pub header : Header
  pub raw :
      rpc.get_raw_transaction_info tx_id ≡ done (record { hex = hex; blockhash = some block_hash })
  pub block_info : rpc.get_block_info block_hash ≡ done info
  pub block_header : rpc.get_block_header block_hash ≡ done header
  pub listed : position tx_id info.tx 0 ≡ some place
  pub root : IsRoot p info.tx header.merkle_root
  pub few : length info.tx < 2 ^ 32
  pub tall : 10 ≤ info.height
  pub height : info.height < 2 ^ 32
  pub times : ℕ → ℕ
  pub before : (h : ℕ) → h < info.height → HasBlock rpc h (times h)

IsRoot-unique :
    (p : Platform) {hashes : List Bytes} {x y : Bytes}
    → IsRoot p hashes x
    → IsRoot p hashes y
    → x ≡ y
IsRoot-unique p (leaf a) (leaf _) = refl
IsRoot-unique p (node a b hashes root r) (node _ _ _ root' r') = IsRoot-unique p r r'

-- The place that is found is one of the transaction's.
position-get_elem? :
    (tx_id : Bytes) (txs : List Bytes) (i place : ℕ)
    → position tx_id txs i ≡ some place
    → (k : ℕ) × (place ≡ i + k) × (get_elem? txs k ≡ some tx_id) × (k < length txs)
position-get_elem? tx_id [] i place h = cc
position-get_elem? tx_id (in_block ∷ txs) i place h = elim (Bool-cases (bytes_eq in_block tx_id)) [
  | inl e ↦
      let here : some i ≡ some place = rw e at h in
      (0, found here, ap some (bytes_eq→eq _ _ e), omega arith)
  | inr e ↦
      let (k, there, at, below) = position-get_elem? tx_id txs (i + 1) place (rw e at h) in
      (suc k, omega arith, at, omega arith)
]
  where
    found : some i ≡ some place → place ≡ i + 0
    found e = grind (arith, e)

create-position :
    (p : Platform) (txids : List Bytes) (place : ℕ) {proof : Proof}
    → create p txids place ≡ ok proof
    → proof.position ≡ place
unfolding create
create-position p txids place h = elim (Bool-cases (ltb place (length txids))) [
  | inl e ↦
      bind_ok (create_loop p (length txids) txids place) _ (rw e at h)
        λ pieces e0 h0. ap (λ (x : Proof). x.position) (sym (ok-injective h0))
  | inr e ↦ cc (rw e at h)
]

module _ (p : Platform) {A E : Type 0} (solana : Solana A) (rpc : BitcoinRpc E) where
  -- For every transaction that the node reports in a block of a height between 10 and 2^32, with the
  -- blocks before it, and while the main account can be read: `relay_tx` sends an instruction with the
  -- transaction's data whose Merkle proof, for its header and index, passes the relay program's check
  -- for the transaction's id.
  pub relay_tx-check_merkle :
      (tx_id hex account : Bytes) (place : ℕ) (main : MainState)
      → solana.get_account ≡ done account
      → load_main_state solana.try_deserialize_unchecked account ≡ done main
      → IsMined p rpc tx_id hex place
      → (args : VerifySmallTxArgs) × (relay_tx p solana rpc tx_id ≡ done args)
        × (args.tx_bytes ≡ hex)
        × (check_merkle p tx_id args.tx_index args.reversed_merkle_proof args.commited_header
            ≡ ok tt)
  unfolding relay_tx reconstruct_commited_header check_merkle
  relay_tx-check_merkle tx_id hex account place main got read mined =
      let (k, there, at, below) = position-get_elem? tx_id mined.info.tx 0 place mined.listed in
      let timestamps = times_before mined.times mined.info.height 10 in
      let filled = fill_timestamps_lem rpc mined.info.height mined.times mined.before mined.tall in
      let (proof, root, made, is_root, path) =
        compute_merkle-create p mined.info.tx place tx_id (rw there (rw (zero-add k) at)) in
      let short : mined.info.height % 2 ^ 32 ≡ mined.info.height = omega (arith, mined.height) in
      let index : place % 2 ^ 32 ≡ proof.position =
        omega (arith, create-position p mined.info.tx place made, mined.few, there, below) in
      let commited_header : CommittedBlockHeader = record {
        chain_work = zero_hash;
        header = yona_block_header mined.header;
        last_diff_adjustment = main.last_diff_adjustment;
        blockheight = mined.info.height;
        prev_block_timestamps = timestamps;
      } in
      (
        record {
          tx_bytes = hex;
          confirmations = 1;
          tx_index = place % 2 ^ 32;
          reversed_merkle_proof = to_reversed_vec proof;
          commited_header = commited_header;
        },
        rw
            (
              got, read, mined.raw, mined.block_info, mined.block_header, short, filled,
              mined.listed, made,
            )
            refl,
        refl,
        rw (index, path, eq→bytes_eq _ _ (IsRoot-unique p is_root mined.root)) refl,
      )
