-- ===== src/Relayer/Interaction/Timestamps.antt =====
-- The ten timestamps that `reconstruct_commited_header` reads, against the times of the node's blocks.
use bitcoin_svm_bridge.Prelude.{
  ℕ, zero, suc, ◌+◌, ◌-◌, ◌≤◌, ◌<◌, ◌≡◌, ◌↔◌, ◌∙◌, refl, List, [], ◌∷◌, set, replicate, checked_sub,
  ok, arith, Bool-cases, inl, inr, ltb, ltb→lt,
}
use bitcoin_svm_bridge.ArrayUtils.{Bytes}
use bitcoin_svm_bridge.Structs.{zero_hash}
use bitcoin_svm_bridge.Program.Submit.Initialize.{first_commited}
use bitcoin_svm_bridge.Relayer.Node.{done, Header, Block, BitcoinRpc, yona_block_header}
use bitcoin_svm_bridge.Relayer.Interaction.{fill_timestamps, reconstruct_commited_header}

-- a height at which the node answers with a block of this time
pub record HasBlock {E : Type 0} (rpc : BitcoinRpc E) (height time : ℕ) : Type 0 where
  pub hash : Bytes
  pub block : Block
  pub named : rpc.get_block_hash height ≡ done hash
  pub found : rpc.get_block hash ≡ done block
  pub at : block.header.time ≡ time

-- the times of the `n` blocks before a height, the lowest first
abbrev pub times_before : (ℕ → ℕ) → ℕ → ℕ → List ℕ
times_before time height zero = []
times_before time height (suc n) = time (height - suc n) ∷ times_before time height n

cons-injective : {x y : ℕ} {xs ys : List ℕ} → x ∷ xs ≡ y ∷ ys → (x ≡ y) × (xs ≡ ys)
cons-injective h = (cc, cc)

-- They are all the same just if every one of them is.
pub times_before-replicate :
    (time : ℕ → ℕ) (height n same : ℕ)
    → (times_before time height n ≡ replicate n same)
      ↔ ((k : ℕ) → k < n → time (height - suc k) ≡ same)
times_before-replicate time height n same = (all n, each n)
  where
    all :
        (n : ℕ)
        → times_before time height n ≡ replicate n same
        → (k : ℕ) → k < n
        → time (height - suc k) ≡ same
    all zero e k below = omega arith
    all (suc n) e k below = elim (Bool-cases (ltb k n)) [
      | inl h ↦ all n (cons-injective e).1 k (ltb→lt k n h)
      | inr h ↦ let last : k ≡ n = ground arith in rw last (cons-injective e).0
    ]

    each :
        (n : ℕ)
        → ((k : ℕ) → k < n → time (height - suc k) ≡ same)
        → times_before time height n ≡ replicate n same
    each zero h = refl
    each (suc n) h = rw (h n (omega arith), each n (λ k below. h k (omega arith))) refl

checked_sub_of_le : (a b : ℕ) → b ≤ a → checked_sub a b ≡ ok (a - b)
checked_sub_of_le a b h = ground arith

module _ {E : Type 0} (rpc : BitcoinRpc E) (height : ℕ) (time : ℕ → ℕ)
    (before : (h : ℕ) → h < height → HasBlock rpc h (time h)) where
  fill_timestamps_step :
      (rounds i : ℕ) (timestamps : List ℕ)
      → i < height
      → fill_timestamps rpc (suc rounds) height i timestamps
        ≡ fill_timestamps rpc rounds height (i + 1) (set timestamps (9 - i) (time (height - suc i)))
  unfolding fill_timestamps
  fill_timestamps_step rounds i timestamps below =
      let there = before (height - suc i) (omega arith) in
      let previous : height - i - 1 ≡ height - suc i = omega arith in
      rw
        (
          checked_sub_of_le height i (omega arith),
          checked_sub_of_le (height - i) 1 (omega arith),
          previous,
          there.named,
          there.found,
          there.at,
        )
        refl

  pub fill_timestamps_lem :
      10 ≤ height
      → fill_timestamps rpc 10 height 0 (replicate 10 0) ≡ done (times_before time height 10)
  unfolding fill_timestamps
  fill_timestamps_lem tall =
      let ts0 : List ℕ = replicate 10 0 in
      let ts1 = set ts0 9 (time (height - 1)) in
      let ts2 = set ts1 8 (time (height - 2)) in
      let ts3 = set ts2 7 (time (height - 3)) in
      let ts4 = set ts3 6 (time (height - 4)) in
      let ts5 = set ts4 5 (time (height - 5)) in
      let ts6 = set ts5 4 (time (height - 6)) in
      let ts7 = set ts6 3 (time (height - 7)) in
      let ts8 = set ts7 2 (time (height - 8)) in
      let ts9 = set ts8 1 (time (height - 9)) in
      let ts10 = set ts9 0 (time (height - 10)) in
      fill_timestamps_step 9 0 ts0 (omega arith)
      ∙ fill_timestamps_step 8 1 ts1 (omega arith)
      ∙ fill_timestamps_step 7 2 ts2 (omega arith)
      ∙ fill_timestamps_step 6 3 ts3 (omega arith)
      ∙ fill_timestamps_step 5 4 ts4 (omega arith)
      ∙ fill_timestamps_step 4 5 ts5 (omega arith)
      ∙ fill_timestamps_step 3 6 ts6 (omega arith)
      ∙ fill_timestamps_step 2 7 ts7 (omega arith)
      ∙ fill_timestamps_step 1 8 ts8 (omega arith)
      ∙ fill_timestamps_step 0 9 ts9 (omega arith)

  -- the header that is rebuilt
  pub reconstruct_lem :
      (hash : Bytes) (header : Header) (last_diff_adjustment : ℕ)
      → 10 ≤ height
      → rpc.get_block_header hash ≡ done header
      → reconstruct_commited_header rpc hash height last_diff_adjustment
        ≡ done (
            first_commited
              (yona_block_header header)
              height
              zero_hash
              last_diff_adjustment
              (times_before time height 10))
  unfolding reconstruct_commited_header
  reconstruct_lem hash header last_diff_adjustment tall named =
      rw (named, fill_timestamps_lem tall) refl
