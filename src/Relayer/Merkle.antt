-- ===== src/Relayer/Merkle.antt =====
-- block_relayer/src/merkle.rs: the Merkle proof of a transaction of a block. A panic of the process
-- is the failure `panic`.
pub mod Levels
pub mod Verify
pub mod Rounds
use bitcoin_svm_bridge.Prelude.{
  ℕ, zero, suc, ◌+◌, ◌-◌, ◌/◌, ◌%◌, List, [], ◌∷◌, ◌++◌, Option, none, some, Result, ok, fail,
  panic, ◌>>=◌, or_panic, ltb, ◌==◌, if◌then◌else◌, length, get_elem?,
}
use bitcoin_svm_bridge.ArrayUtils.{Bytes}
use bitcoin_svm_bridge.Structs.{Platform}

pub record Proof : Type 0 where
  pub proof : List Bytes
  pub position : ℕ

-- `last()`
abbrev pub last? {ℓ} : {A : Type ℓ} → List A → Option A
last? [] = none
last? (x ∷ []) = some x
last? (x ∷ y ∷ xs) = last? (y ∷ xs)

-- the level with its last node repeated if their number is odd
unfoldable pub pad : List Bytes → Result (List Bytes)
pad hashes =
    if length hashes % 2 == 0
    then ok hashes
    else (or_panic (last? hashes) >>= λ last. ok (hashes ++ last ∷ []))

abbrev pub sibling : ℕ → ℕ
sibling offset = if offset % 2 == 0 then offset + 1 else offset - 1

module _ (p : Platform) where
  -- `chunks(2)` with the hash of each pair; `pair[1]` panics on a chunk of one
  pub pair_hashes : List Bytes → Result (List Bytes)
  pair_hashes [] = ok []
  pair_hashes (left ∷ []) = fail panic
  pair_hashes (left ∷ right ∷ hashes) =
      pair_hashes hashes >>= λ rest. ok (p.sha256d (left ++ right) ∷ rest)

  -- The `while` loop on fuel: it returns the pieces that the rounds push. Each round halves the
  -- level, so a fuel of its length is enough.
  unfoldable pub create_loop : ℕ → List Bytes → ℕ → Result (List Bytes)
  unfolding pad pair_hashes
  create_loop zero hashes offset = fail panic
  create_loop (suc fuel) hashes offset =
      let round = pad hashes >>= λ padded. or_panic (get_elem? padded (sibling offset)) >>= λ piece.
      pair_hashes padded >>= λ parents.
      create_loop fuel parents (sibling offset / 2) >>= λ rest. ok (piece ∷ rest) in
      if ltb 1 (length hashes) then round else ok []

  -- `Proof::create`; its `assert!` panics.
  unfoldable pub create : List Bytes → ℕ → Result Proof
  unfolding create_loop
  create txids position =
      if ltb position (length txids)
      then (create_loop (length txids) txids position >>= λ pieces.
          ok (record { proof = pieces; position = position }))
      else fail panic

-- The nodes are in the byte order that the relay program reads.
abbrev pub to_reversed_vec : Proof → List Bytes
to_reversed_vec proof = proof.proof
