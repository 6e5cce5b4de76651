-- ===== src/Program/Tree.antt =====
-- The headers that descend from the first one by accepted headers, and the accounts whose commitments
-- are all of such headers. Nothing is said of the order in which a commitment got there.
pub mod Stores
pub mod Submit
pub mod Start
pub mod Forks
use bitcoin_svm_bridge.Prelude.{
  Option, none, true, false, or_panic, bind_ok, ok-injective, Bool-cases, checked_sub, ltb, leb,
  ◌==◌, ℕ, ◌+◌, ◌≤◌, ◌<◌, ◌≡◌, ◌≢◌, ◌⊎◌, inl, inr, refl, sym, ap, ◌∙◌, List, [], ◌∷◌, ◌++◌, some,
  All, All-get_elem?, ok, fail, panic, length, arith,
}
use bitcoin_svm_bridge.ArrayUtils.{Bytes, gt_arr}
use bitcoin_svm_bridge.Structs.{
  Platform, CommittedBlockHeader, get_block_hash, get_commit_hash, zero_hash,
}
use bitcoin_svm_bridge.State.{pruning_factor, MainState, get_position, get_commitment}
use bitcoin_svm_bridge.State.Ring.{slot}
use bitcoin_svm_bridge.Program.Loop.Chain.{tip_of, tip_of-append}
use bitcoin_svm_bridge.Program.Fork.Stored.{Accepted, Accepted-append}

module _ (p : Platform) (first : CommittedBlockHeader) where
  -- There is a chain of accepted headers from the first one to this one.
  abbrev pub InTree : CommittedBlockHeader → Type 0
  InTree c =
      (commits : List CommittedBlockHeader) × Accepted p first commits × (tip_of first commits ≡ c)

  -- The commitment of this header is not zero, and no other header of the tree has it.
  pub record IsClear (c : CommittedBlockHeader) : Type 0 where
    pub nonzero : get_commit_hash p c ≢ zero_hash
    pub alone :
        (d : CommittedBlockHeader) → InTree d → get_commit_hash p c ≡ get_commit_hash p d → c ≡ d

  -- zeros, or the commitment of such a header
  abbrev pub IsKnown : Bytes → Type 0
  IsKnown x = (x ≡ zero_hash) ⊎ ((c : CommittedBlockHeader) × InTree c × (x ≡ get_commit_hash p c))

  -- The main account: its commitments, and its tip with the height, the work and the hashes. The place
  -- of the tip's height holds the tip's commitment, if the height still has a place.
  pub record IsSound (s : MainState) : Type 0 where
    pub size : length s.block_commitments ≡ 250
    pub known : All IsKnown s.block_commitments
    pub ahead : s.block_height < s.start_height + 250
    pub at_tip :
        s.start_height < s.block_height + 250 → slot s s.block_height ≡ some s.tip_commit_hash
    pub tip : CommittedBlockHeader
    pub in_tree : InTree tip
    pub commit : s.tip_commit_hash ≡ get_commit_hash p tip
    pub height : s.block_height ≡ tip.blockheight
    pub work : s.chain_work ≡ tip.chain_work
    pub block_hash : s.tip_block_hash ≡ get_block_hash p tip.header

  -- What a step may do to the tip: nothing, a chain of accepted headers on top of it, or another header of
  -- the tree with strictly more work.
  pub data TipStep (tip next_tip : CommittedBlockHeader) : Type 0 where
    stays : next_tip ≡ tip → TipStep tip next_tip
    extends :
        (commits : List CommittedBlockHeader)
        → Accepted p tip commits
        → next_tip ≡ tip_of tip commits
        → TipStep tip next_tip
    overtakes :
        InTree next_tip → gt_arr next_tip.chain_work tip.chain_work ≡ true → TipStep tip next_tip

  -- any number of them, from the first header on
  pub data TipRun : CommittedBlockHeader → Type 0 where
    at_first : TipRun first
    behind :
        {tip next_tip : CommittedBlockHeader} → TipRun tip → TipStep tip next_tip → TipRun next_tip

  pub tip_of-InTree :
      (last : CommittedBlockHeader) (commits : List CommittedBlockHeader)
      → InTree last
      → Accepted p last commits
      → InTree (tip_of last commits)
  tip_of-InTree last commits (before, accepted, same) a = (
    before ++ commits,
    Accepted-append p first before commits accepted (rw same a),
    tip_of-append first before commits ∙ ap (λ l. tip_of l commits) same,
  )

  -- All headers of the chain are in the tree.
  pub Accepted-InTree :
      (last : CommittedBlockHeader) (commits : List CommittedBlockHeader)
      → InTree last
      → Accepted p last commits
      → All InTree commits
  Accepted-InTree last [] t a = tt
  Accepted-InTree last (next ∷ commits) t (here, link, a) =
      let child = tip_of-InTree last (next ∷ []) t (here, link, tt) in
      (child, Accepted-InTree next commits child a)

  pub InTree-of_IsKnown :
      (c : CommittedBlockHeader) → IsClear c → IsKnown (get_commit_hash p c) → InTree c
  InTree-of_IsKnown c clear (inl e) = absurd (clear.nonzero e)
  InTree-of_IsKnown c clear (inr (d, in_tree, e)) = rw (clear.alone d in_tree e) in_tree

found_lem : (o : Option Bytes) {x : Bytes} → or_panic o ≡ ok x → o ≡ some x
found_lem none h = cc
found_lem (some y) h = ap some (ok-injective h)

-- What `get_commitment` answers, if not zeros, stands at the place of the height.
pub get_commitment-slot :
    (s : MainState) (h : ℕ) {x : Bytes}
    → get_commitment s h ≡ ok x
    → x ≢ zero_hash
    → (slot s h ≡ some x) × (h ≤ s.block_height) × (s.start_height < h + 250)
unfolding get_commitment
get_commitment-slot s h {x} e filled = elim (Bool-cases (ltb s.block_height h)) [
  | inl above ↦ absurd (filled (sym (ok-injective (rw above at e))))
  | inr below ↦
      bind_ok (checked_sub s.block_height pruning_factor) _ (rw below at e) λ oldest e0 h0.
        elim (Bool-cases (leb h oldest)) [
          | inl old ↦ absurd (filled (sym (ok-injective (rw old at h0))))
          | inr young ↦ elim (Bool-cases (get_position s h == pruning_factor)) [
            | inl no_place ↦ absurd (filled (sym (ok-injective (rw (young, no_place) at h0))))
            | inr place ↦ (
              found_lem (slot s h) (rw (young, place) at h0),
              ground (arith, below),
              window place,
            )
          ]
        ]
]
  where
    window : (get_position s h == pruning_factor) ≡ false → s.start_height < h + 250
    window place = ground (arith, place)
