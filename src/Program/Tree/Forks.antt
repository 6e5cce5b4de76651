-- ===== src/Program/Tree/Forks.antt =====
-- Submissions to a fork (lib.rs): the accounts of forks whose headers are all in the tree, and what a
-- submission leaves of them and of the main account.
pub mod Submitted
use bitcoin_svm_bridge.Prelude.{
  ◌>>=◌, ℕ, ◌+◌, ◌<◌, ◌≤◌, ◌≡◌, refl, sym, ap, ◌∙◌, List, [], ◌++◌, true, false, not, ok,
  no_headers, invalid_remaining_accounts, prev_block_commitment, err_init, invalid_fork_id, inl,
  inr, checked_add, bind_ok, require_ok, ok-injective, bytes_eq, bytes_eq→eq, ℤ, ◌==◌,
  if◌then◌else◌, length, Bool-cases, arith,
}
use bitcoin_svm_bridge.ArrayUtils.{gt_arr}
use bitcoin_svm_bridge.Structs.{
  Platform, Pubkey, BlockHeader, CommittedBlockHeader, store_fork, get_commit_hash,
}
use bitcoin_svm_bridge.State.{MainState, ForkState, get_commitment, get_position}
use bitcoin_svm_bridge.Program.Loop.{Cursor, start_at, header_loop}
use bitcoin_svm_bridge.Program.Loop.Chain.{tip_of, header_loop-Ran}
use bitcoin_svm_bridge.Program.Submit.{is_empty, same_bool, store_on_fork, update_globals}
use bitcoin_svm_bridge.Program.Submit.Main.{is_empty-pos}
use bitcoin_svm_bridge.Program.Fork.{
  ForkLoader, ForkOutcome, copy_commitments, open_fork, continue_fork, settle_fork,
  submit_fork_headers,
}
use bitcoin_svm_bridge.Program.Fork.Stored.{copy_commitments-store_all, length-hashes_of}
use bitcoin_svm_bridge.Program.Fork.Course.{IsFresh, continue_fork-eq-ok}
use bitcoin_svm_bridge.Program.Fork.Grown.{IsFork, HasGrown, loop-HasGrown}
use bitcoin_svm_bridge.Program.Tree.{
  IsClear, TipStep, stays, overtakes, InTree, IsSound, tip_of-InTree,
}
use bitcoin_svm_bridge.Program.Tree.Submit.{IsSound-of_stores, get_commitment-InTree}

module _ (p : Platform) (first : CommittedBlockHeader) where
  -- The account of a fork: accepted headers on top of a header of the tree, which is not above the heights
  -- that a buffer with this start has.
  pub record IsSoundFork (start : ℕ) (f : ForkState) : Type 0 where
    pub ancestor : CommittedBlockHeader
    pub commits : List CommittedBlockHeader
    pub in_tree : InTree p first ancestor
    pub fork : IsFork p ancestor commits f
    pub near : ancestor.blockheight < start + 250
    pub tip : f.tip_commit_hash ≡ get_commit_hash p (tip_of ancestor commits)

  -- The buffer may have moved on since.
  pub IsSoundFork-later :
      {start later : ℕ} (f : ForkState) → start ≤ later → IsSoundFork start f → IsSoundFork later f
  IsSoundFork-later f up v = record {
    ancestor = v.ancestor;
    commits = v.commits;
    in_tree = v.in_tree;
    fork = v.fork;
    near = omega (arith, v.near, up);
    tip = v.tip;
  }

  -- What a submission leaves: a sound main account, whose start has not moved back and whose tip has made a
  -- step, and a sound account of the fork unless it is closed.
  pub record LeavesSound (main : MainState) (tip : CommittedBlockHeader) (out : ForkOutcome)
      : Type 0 where
    pub sound : IsSound p first out.main
    pub up : main.start_height ≤ out.main.start_height
    pub tip_step : TipStep p first tip sound.tip
    pub fork : out.close ≡ false → IsSoundFork out.main.start_height out.fork

-- The end of a submission that made the fork the headers `both` on top of `ancestor`.
module _ (p : Platform) (first : CommittedBlockHeader) (fork_id : ℕ)
    (ancestor : CommittedBlockHeader) (both : List CommittedBlockHeader) (main : MainState)
    (c : Cursor ForkState) (v : IsSound p first main) (in_tree : InTree p first ancestor)
    (near : ancestor.blockheight < main.start_height + 250) (g : HasGrown p ancestor both c) where
  copied_lem :
      {copied : MainState}
      → copy_commitments c.account.length 0 c.account main ≡ ok copied
      → (v' : IsSound p first (update_globals c copied)) × (main.start_height ≤ copied.start_height)
        × (v'.tip ≡ c.last_commited_header)
  copied_lem {copied} h =
      let count : c.account.length ≡ length both = g.fork.buffer.count ∙ length-hashes_of p both in
      let start : c.account.start_height + 0 ≡ ancestor.blockheight = omega (arith, g.fork.start) in
      let stores =
        copy_commitments-store_all p 0 both c.account main g.fork.buffer.held
          (ap (λ n. copy_commitments n 0 c.account main) (sym count) ∙ h) in
      let (sound, up, tip, _) =
        IsSound-of_stores p first ancestor both main c copied.fork_counter
          (record { size = v.size; known = v.known; ahead = near }) in_tree g.fork.accepted
          g.some_commit (rw start at stores) g.tip g.tip_hash g.commit g.tall in
      (sound, up, tip ∙ sym g.tip)

  pub settle_fork-LeavesSound :
      {out : ForkOutcome} → settle_fork fork_id main c ≡ ok out → LeavesSound p first main v.tip out
  unfolding settle_fork
  settle_fork-LeavesSound h =
      elim (Bool-cases (gt_arr c.last_commited_header.chain_work main.chain_work)) [
        | inl e ↦
            bind_ok (copy_commitments c.account.length 0 c.account main) _ (rw e at h)
              λ copied e0 h0.
                let (sound, up, tip) = copied_lem e0 in
                let more = rw (v.work, ← tip) at e in
                rw (← ok-injective h0) (record {
                  sound = sound;
                  up = up;
                  tip_step = overtakes sound.in_tree more;
                  fork = λ no. absurd (closed no);
                })
        | inr e ↦ rw (← ok-injective (rw e at h)) (record {
          sound = v;
          up = omega arith;
          tip_step = stays refl;
          fork = λ waits. record {
            ancestor = ancestor;
            commits = both;
            in_tree = in_tree;
            fork = record {
              buffer = record {
                size = g.fork.buffer.size;
                count = g.fork.buffer.count;
                held = g.fork.buffer.held;
              };
              start = g.fork.start;
              opened = g.fork.opened;
              accepted = g.fork.accepted;
            };
            near = near;
            tip = g.commit;
          };
        })
      ]
    where
      closed : true ≡ false → ⊥
      closed e = cc
