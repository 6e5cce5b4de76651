-- ===== src/Relayer/Merkle/Verify.antt =====
-- `Proof::create` of the relayer (merkle.rs) and `compute_merkle` of the relay program (utils.rs).
use bitcoin_svm_bridge.Prelude.{
  ℕ, zero, suc, ◌/◌, ◌%◌, ◌≤◌, ◌≡◌, refl, sym, ◌∙◌, List, [], ◌∷◌, true, some, ok, ltb, length,
  get_elem?, arith, bit_and, bit_and_mask,
}
use bitcoin_svm_bridge.ArrayUtils.{Bytes}
use bitcoin_svm_bridge.Structs.{Platform}
use bitcoin_svm_bridge.Utils.Merkle.{merkle_loop, compute_merkle}
use bitcoin_svm_bridge.Relayer.Merkle.{Proof, to_reversed_vec, sibling, create_loop, create}
use bitcoin_svm_bridge.Relayer.Merkle.Levels.{
  parents, IsRoot, leaf, node, pair_hashes-padded, length-parents, joined, sibling_lem, pad-eq,
  some-injective,
}

module _ (p : Platform) where
  -- A tree has one root.
  pub IsRoot-unique :
      (hashes : List Bytes) (r r' : Bytes) → IsRoot p hashes r → IsRoot p hashes r' → r ≡ r'
  IsRoot-unique [] r r' h h' = elim h [ ]
  IsRoot-unique (a ∷ []) r r' (leaf _) (leaf _) = refl
  IsRoot-unique (a ∷ b ∷ hashes) r r' (node _ _ _ _ h) (node _ _ _ _ h') =
      IsRoot-unique (parents p (a ∷ b ∷ hashes)) r r' h h'

  parity : (n : ℕ) → bit_and n 1 ≡ n % 2
  parity n = bit_and_mask 1 n

  pub sibling-half : (offset : ℕ) → sibling offset / 2 ≡ offset / 2
  sibling-half offset = ground arith

  -- the path of `offset` up a level: the loop's round on it
  merkle_loop_round :
      (piece : Bytes) (pieces : List Bytes) (offset : ℕ) (current : Bytes)
      → merkle_loop p (piece ∷ pieces) offset current
        ≡ merkle_loop p pieces (offset / 2) (joined p offset current piece)
  unfolding merkle_loop
  merkle_loop_round piece pieces offset current = rw (parity offset) refl

  create_loop_lem :
      (fuel : ℕ) (hashes : List Bytes) (offset : ℕ) (current : Bytes)
      → length hashes ≤ fuel
      → get_elem? hashes offset ≡ some current
      → (pieces : List Bytes) × (root : Bytes) × (create_loop p fuel hashes offset ≡ ok pieces)
        × IsRoot p hashes root
        × (merkle_loop p pieces offset current ≡ root)
  unfolding create_loop merkle_loop
  create_loop_lem zero [] offset current enough at = cc
  create_loop_lem zero (a ∷ hashes) offset current enough at = absurd (omega arith)
  create_loop_lem (suc fuel) [] offset current enough at = cc
  create_loop_lem (suc fuel) (a ∷ []) zero current enough at =
      ([], a, refl, leaf a, sym (some-injective at))
  create_loop_lem (suc fuel) (a ∷ []) (suc offset) current enough at = cc
  create_loop_lem (suc fuel) (a ∷ b ∷ hashes) offset current enough at =
      let level = a ∷ b ∷ hashes in
      let more : ltb 1 (length level) ≡ true = ground arith in
      let (piece, beside, above) = sibling_lem p level offset current at in
      let (pieces, root, made, is_root, path) =
        create_loop_lem fuel (parents p level) (offset / 2) (joined p offset current piece)
          (omega (arith, length-parents p level)) above in
      (
        piece ∷ pieces,
        root,
        rw (more, pad-eq level, beside, pair_hashes-padded p level, sibling-half offset, made) refl,
        node a b hashes root is_root,
        merkle_loop_round piece pieces offset current ∙ path,
      )

  compute_merkle_lem :
      (txid : Bytes) (position : ℕ) (proof : List Bytes)
      → compute_merkle p txid position proof ≡ merkle_loop p proof position txid
  unfolding compute_merkle merkle_loop
  compute_merkle_lem txid position [] = refl
  compute_merkle_lem txid position (piece ∷ proof) = refl

  in_range :
      (hashes : List Bytes) (offset : ℕ) {current : Bytes}
      → get_elem? hashes offset ≡ some current
      → ltb offset (length hashes) ≡ true
  in_range [] offset h = cc
  in_range (a ∷ hashes) zero h = ground arith
  in_range (a ∷ hashes) (suc offset) h = ground (arith, in_range hashes offset h)

  -- For every transaction of a block: `Proof::create` returns a proof, and the relay program's check
  -- of the transaction's id and position with that proof computes the root of the Merkle tree.
  pub compute_merkle-create :
      (txids : List Bytes) (position : ℕ) (txid : Bytes)
      → get_elem? txids position ≡ some txid
      → (proof : Proof) × (root : Bytes) × (create p txids position ≡ ok proof)
        × IsRoot p txids root
        × (compute_merkle p txid proof.position (to_reversed_vec proof) ≡ root)
  unfolding create
  compute_merkle-create txids position txid at =
      let below : ltb position (length txids) ≡ true = in_range txids position at in
      let (pieces, root, made, is_root, path) =
        create_loop_lem (length txids) txids position txid (omega arith) at in
      (
        record { proof = pieces; position = position },
        root,
        rw (below, made) refl,
        is_root,
        compute_merkle_lem txid position pieces ∙ path,
      )
