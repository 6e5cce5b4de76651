-- ===== src/Utils/Merkle.antt =====
-- `compute_merkle` (utils.rs): the root that a transaction id and a Merkle proof lead to.
use bitcoin_svm_bridge.Prelude.{ℕ, ◌/◌, List, [], ◌∷◌, ◌++◌, ◌==◌, if◌then◌else◌, bit_and}
use bitcoin_svm_bridge.ArrayUtils.{Bytes}
use bitcoin_svm_bridge.Structs.{Platform}

module _ (p : Platform) where
  -- the loop over the pieces of the proof
  unfoldable pub merkle_loop : List Bytes → ℕ → Bytes → Bytes
  merkle_loop [] tx_index current_hash = current_hash
  merkle_loop (piece ∷ proof) tx_index current_hash =
      let bytes =
        if bit_and tx_index 0x1 == 0 then current_hash ++ piece else piece ++ current_hash in
      merkle_loop proof (tx_index / 2) (p.sha256d bytes)

  -- For an empty proof the source returns the id at once, as the loop does.
  unfoldable pub compute_merkle : Bytes → ℕ → List Bytes → Bytes
  unfolding merkle_loop
  compute_merkle reversed_txid tx_index [] = reversed_txid
  compute_merkle reversed_txid tx_index (piece ∷ proof) =
      merkle_loop (piece ∷ proof) tx_index reversed_txid
