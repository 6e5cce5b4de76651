-- ===== src/Relayer/Merkle/Rounds.antt =====
-- How many rounds the loop of `Proof::create` (merkle.rs) takes.
use native.Mathlib.Nat.{pow-suc}
use bitcoin_svm_bridge.Prelude.{
  ℕ, zero, suc, ◌+◌, ◌*◌, ◌/◌, ◌^◌, ◌≤◌, ◌<◌, ◌≡◌, refl, List, [], ◌∷◌, true, some, ok, ltb, length,
  get_elem?, arith,
}
use bitcoin_svm_bridge.ArrayUtils.{Bytes}
use bitcoin_svm_bridge.Structs.{Platform}
use bitcoin_svm_bridge.Relayer.Merkle.{sibling, create_loop}
use bitcoin_svm_bridge.Relayer.Merkle.Levels.{
  parents, padded, pair_hashes-padded, length-parents, sibling_lem, pad-eq,
}
use bitcoin_svm_bridge.Relayer.Merkle.Verify.{sibling-half}

module _ (p : Platform) where
  -- The loop returns from these hashes with these pieces, on every fuel that is at least their number.
  pub record Returns (hashes : List Bytes) (offset : ℕ) (pieces : List Bytes) : Type 0 where
    pub enough : (fuel : ℕ) → length hashes ≤ fuel → create_loop p fuel hashes offset ≡ ok pieces
    pub deep : length hashes ≤ 2 ^ length pieces
    pub shallow : 2 ^ length pieces < 2 * length hashes

  one_more :
      (fuel : ℕ) (a b : Bytes) (hashes pieces : List Bytes) (offset : ℕ) {piece : Bytes}
      → get_elem? (padded (a ∷ b ∷ hashes)) (sibling offset) ≡ some piece
      → Returns (parents p (a ∷ b ∷ hashes)) (offset / 2) pieces
      → length (a ∷ b ∷ hashes) ≤ fuel
      → create_loop p fuel (a ∷ b ∷ hashes) offset ≡ ok (piece ∷ pieces)
  unfolding create_loop
  one_more zero a b hashes pieces offset beside r enough = absurd (omega arith)
  one_more (suc fuel) a b hashes pieces offset beside r enough =
      let level = a ∷ b ∷ hashes in
      let more : ltb 1 (length level) ≡ true = ground arith in
      let made = r.enough fuel (omega (arith, length-parents p level)) in
      rw (more, pad-eq level, beside, pair_hashes-padded p level, sibling-half p offset, made) refl

  two_above :
      (n m : ℕ) (pieces : List Bytes)
      → 2 ≤ n
      → m ≡ (n + 1) / 2
      → 2 ^ length pieces < 2 * m
      → 2 ^ suc (length pieces) < 2 * n
  two_above n m [] some_node half h = omega (arith, pow-suc 2 0)
  two_above n m (piece ∷ pieces) some_node half h =
      omega (arith, pow-suc 2 (length pieces), pow-suc 2 (suc (length pieces)))

  one_round :
      (a b : Bytes) (hashes pieces : List Bytes) (offset : ℕ) {current : Bytes}
      → get_elem? (a ∷ b ∷ hashes) offset ≡ some current
      → Returns (parents p (a ∷ b ∷ hashes)) (offset / 2) pieces
      → (piece : Bytes) × Returns (a ∷ b ∷ hashes) offset (piece ∷ pieces)
  one_round a b hashes pieces offset {current} at r =
      let level = a ∷ b ∷ hashes in
      let (piece, beside, above) = sibling_lem p level offset current at in
      let half = length-parents p level in
      (
        piece,
        record {
          enough = λ fuel. one_more fuel a b hashes pieces offset beside r;
          deep = omega (arith, r.deep, half, pow-suc 2 (length pieces));
          shallow = two_above (length level) _ pieces (omega arith) half r.shallow;
        },
      )

  rounds :
      (n : ℕ) (hashes : List Bytes) (offset : ℕ) {current : Bytes}
      → length hashes ≤ n
      → get_elem? hashes offset ≡ some current
      → (pieces : List Bytes) × Returns hashes offset pieces
  unfolding create_loop
  rounds n [] offset small at = cc
  rounds zero (a ∷ hashes) offset small at = absurd (omega arith)
  rounds (suc n) (a ∷ []) offset small at =
      ([], record { enough = alone; deep = omega arith; shallow = omega arith })
    where
      alone : (fuel : ℕ) → 1 ≤ fuel → create_loop p fuel (a ∷ []) offset ≡ ok []
      alone zero h = absurd (omega arith)
      alone (suc fuel) h = refl
  rounds (suc n) (a ∷ b ∷ hashes) offset {current} small at =
      let level = a ∷ b ∷ hashes in
      let (_, _, above) = sibling_lem p level offset current at in
      let (pieces, r) =
        rounds n (parents p level) (offset / 2) (omega (arith, length-parents p level)) above in
      let (piece, r') = one_round a b hashes pieces offset at r in (piece ∷ pieces, r')

  -- For every transaction of a block, the loop of `Proof::create` returns, on every fuel that is at least the
  -- number of the transactions with the same pieces: one for each level of the tree, so that 2 to
  -- the power of their number is at least the number of transactions, and less than twice as much.
  pub create_loop_returns :
      (txids : List Bytes) (position : ℕ) {txid : Bytes}
      → get_elem? txids position ≡ some txid
      → (pieces : List Bytes) × Returns txids position pieces
  create_loop_returns txids position at = rounds (length txids) txids position (omega arith) at
