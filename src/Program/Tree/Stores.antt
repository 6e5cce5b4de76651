-- ===== src/Program/Tree/Stores.antt =====
-- Stores of commitments of known headers, whether the height has a place in the ring buffer or not.
use native.Mathlib.Nat.{add-zero}
use bitcoin_svm_bridge.Prelude.{
  ℕ, suc, ◌+◌, ◌≤◌, ◌<◌, ◌≡◌, inl, inr, refl, ◌∙◌, List, [], ◌∷◌, some, ok, All, All-set, bind_ok,
  ok-injective, length, length-set, Bool-cases, leb, leb→le, arith,
}
use bitcoin_svm_bridge.ArrayUtils.{Bytes}
use bitcoin_svm_bridge.Structs.{Platform, CommittedBlockHeader, get_commit_hash, zero_hash}
use bitcoin_svm_bridge.State.{MainState, get_position, store_block_commitment}
use bitcoin_svm_bridge.State.Ring.{InWindow, slot, stored, slot-stored_self}
use bitcoin_svm_bridge.Program.Loop.Chain.{store_all, commit_of}
use bitcoin_svm_bridge.Program.Submit.{store_main}
use bitcoin_svm_bridge.Program.Submit.Main.{store_main-eq-ok, SameGlobals}
use bitcoin_svm_bridge.Program.Tree.{InTree, IsKnown}

-- A height that has left the buffer has no place, and its store changes nothing.
store_main_old :
    (h : ℕ) (c : Bytes) (s : MainState) {t : MainState}
    → h + 250 ≤ s.start_height
    → store_main h c s ≡ ok t
    → t ≡ s
unfolding store_main store_block_commitment get_position
store_main_old h c s old e = ground (arith, e)

SameGlobals-refl : (s : MainState) → SameGlobals s s
SameGlobals-refl s = record {
  last_diff_adjustment = refl;
  block_height = refl;
  fork_counter = refl;
  tip_commit_hash = refl;
  tip_block_hash = refl;
  chain_work = refl;
}

SameGlobals-trans : {s t u : MainState} → SameGlobals s t → SameGlobals t u → SameGlobals s u
SameGlobals-trans g h = record {
  last_diff_adjustment = h.last_diff_adjustment ∙ g.last_diff_adjustment;
  block_height = h.block_height ∙ g.block_height;
  fork_counter = h.fork_counter ∙ g.fork_counter;
  tip_commit_hash = h.tip_commit_hash ∙ g.tip_commit_hash;
  tip_block_hash = h.tip_block_hash ∙ g.tip_block_hash;
  chain_work = h.chain_work ∙ g.chain_work;
}

SameGlobals-stored : (s : MainState) (h : ℕ) (c : Bytes) → SameGlobals s (stored s h c)
SameGlobals-stored s h c = record {
  last_diff_adjustment = refl;
  block_height = refl;
  fork_counter = refl;
  tip_commit_hash = refl;
  tip_block_hash = refl;
  chain_work = refl;
}

-- The place of the height holds the commitment, if the height has a place.
abbrev pub AtPlace : MainState → ℕ → Bytes → Type 0
AtPlace s h c = s.start_height < h + 250 → slot s h ≡ some c

module _ (p : Platform) (first : CommittedBlockHeader) where
  -- what a run of stores needs, and keeps, of the account
  pub record Holds (top : ℕ) (s : MainState) : Type 0 where
    pub size : length s.block_commitments ≡ 250
    pub known : All (IsKnown p first) s.block_commitments
    pub ahead : top < s.start_height + 250

  stored-Holds :
      (top : ℕ) (c : Bytes) (s : MainState)
      → Holds top s
      → IsKnown p first c
      → s.start_height < top + 1 + 250
      → Holds (top + 1) (stored s (top + 1) c)
        × (s.start_height ≤ (stored s (top + 1) c).start_height)
  unfolding get_position
  stored-Holds top c s h known near = (
    record {
      size = omega (arith, length-set s.block_commitments (get_position s (top + 1)) c, h.size);
      known =
          All-set (IsKnown p first) s.block_commitments (get_position s (top + 1)) c h.known known;
      ahead = ground (arith, h.ahead, near);
    },
    ground (arith, h.ahead, near),
  )

  store_main-Holds :
      (top : ℕ) (c : Bytes) (s : MainState) {t : MainState}
      → Holds top s
      → IsKnown p first c
      → store_main (top + 1) c s ≡ ok t
      → Holds (top + 1) t
        × AtPlace t (top + 1) c
        × (s.start_height ≤ t.start_height)
        × SameGlobals s t
  store_main-Holds top c s {t} h known e = elim (Bool-cases (leb (top + 1 + 250) s.start_height)) [
    | inl old ↦
        let le = leb→le _ _ old in
        rw (store_main_old (top + 1) c s le e) (
          record { size = h.size; known = h.known; ahead = omega (arith, h.ahead) },
          λ near. absurd (omega arith),
          omega arith,
          SameGlobals-refl s,
        )
    | inr young ↦
        let near : s.start_height < top + 1 + 250 = ground (arith, young) in
        let w : InWindow s (top + 1) = record { low = near; high = omega (arith, h.ahead) } in
        let (holds, up) = stored-Holds top c s h known near in
        rw (store_main-eq-ok (top + 1) c s w e) (
          holds,
          λ place. slot-stored_self s (top + 1) c h.size w,
          up,
          SameGlobals-stored s (top + 1) c,
        )
  ]

  store_all-Holds :
      (top : ℕ) (c : Bytes) (commits : List CommittedBlockHeader) (s : MainState) {t : MainState}
      → Holds top s
      → AtPlace s top c
      → All (InTree p first) commits
      → store_all p store_main top commits s ≡ ok t
      → Holds (top + length commits) t
        × AtPlace t (top + length commits) (commit_of p c commits)
        × (s.start_height ≤ t.start_height)
        × SameGlobals s t
  store_all-Holds top c [] s h at all e =
      rw (← ok-injective e, add-zero) (h, at, omega arith, SameGlobals-refl s)
  store_all-Holds top c (next ∷ commits) s h at (in_tree, all) e =
      bind_ok (store_main (top + 1) (get_commit_hash p next) s) _ e λ s' e0 rest.
        let (h', at', up, g) =
          store_main-Holds top (get_commit_hash p next) s h (inr (next, in_tree, refl)) e0 in
        let (h'', at'', up', g') =
          store_all-Holds (top + 1) (get_commit_hash p next) commits s' h' at' all rest in
        rw (shifted top (length commits))
          (h'', at'', omega (arith, up, up'), SameGlobals-trans g g')
    where
      shifted : (n m : ℕ) → n + suc m ≡ n + 1 + m
      shifted n m = omega arith

  -- The same, from a height whose own place may hold anything, for at least one header.
  pub store_all-AtPlace :
      (top : ℕ) (commits : List CommittedBlockHeader) (s : MainState) {t : MainState}
      → Holds top s
      → 0 < length commits
      → All (InTree p first) commits
      → store_all p store_main top commits s ≡ ok t
      → Holds (top + length commits) t
        × AtPlace t (top + length commits) (commit_of p zero_hash commits)
        × (s.start_height ≤ t.start_height)
        × SameGlobals s t
  store_all-AtPlace top [] s h some_commit all e = elim some_commit [ ]
  store_all-AtPlace top (next ∷ commits) s h some_commit (in_tree, all) e =
      bind_ok (store_main (top + 1) (get_commit_hash p next) s) _ e λ s' e0 rest.
        let (h', at', up, g) =
          store_main-Holds top (get_commit_hash p next) s h (inr (next, in_tree, refl)) e0 in
        let (h'', at'', up', g') =
          store_all-Holds (top + 1) (get_commit_hash p next) commits s' h' at' all rest in
        let shifted : top + suc (length commits) ≡ top + 1 + length commits = omega arith in
        rw shifted (h'', at'', omega (arith, up, up'), SameGlobals-trans g g')
