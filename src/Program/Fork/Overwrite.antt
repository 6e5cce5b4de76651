-- ===== src/Program/Fork/Overwrite.antt =====
-- A fork from its first submission to the reorganisation: what its account stands for in between, and
-- what the main chain is behind it.
use bitcoin_svm_bridge.Prelude.{
  ℕ, ◌+◌, ◌≤◌, ◌<◌, ◌≡◌, inl, inr, refl, sym, ap, ◌∙◌, List, true, false, ok, bind_ok, ok-injective,
  length, Bool-cases, arith,
}
use bitcoin_svm_bridge.ArrayUtils.{gt_arr}
use bitcoin_svm_bridge.Structs.{Platform, CommittedBlockHeader, get_block_hash, get_commit_hash}
use bitcoin_svm_bridge.State.{MainState, ForkState}
use bitcoin_svm_bridge.State.Ring.{InWindow, SameRing}
use bitcoin_svm_bridge.State.Commitment.{History, Represents-rewind, Represents-same}
use bitcoin_svm_bridge.Program.Loop.{Cursor}
use bitcoin_svm_bridge.Program.Loop.Chain.{tip_of}
use bitcoin_svm_bridge.Program.Submit.{update_globals}
use bitcoin_svm_bridge.Program.Submit.Main.{IsValid, IsValid-of_stores, extend}
use bitcoin_svm_bridge.Program.Fork.{ForkOutcome, copy_commitments, settle_fork}
use bitcoin_svm_bridge.Program.Fork.Reorg.{SameMain}
use bitcoin_svm_bridge.Program.Fork.Stored.{Accepted, length-hashes_of, copy_commitments-store_all}
use bitcoin_svm_bridge.Program.Fork.Grown.{IsFork, HasGrown}

module _ (p : Platform) where
  -- Where the ancestor stands in the main chain, as far as the account represents it.
  pub record Stands (lo : ℕ) (hist : History) (main : MainState) (ancestor : CommittedBlockHeader)
      : Type 0 where
    pub parent : get_commit_hash p ancestor ≡ hist ancestor.blockheight
    pub under : ancestor.blockheight ≤ main.block_height
    pub low : main.start_height < ancestor.blockheight + 250
    pub kept : lo ≤ ancestor.blockheight
    pub near : main.block_height < lo + 250

  -- The main chain has become the headers `commits` on top of `ancestor`.
  pub record Overwritten (lo : ℕ) (hist : History) (main : MainState)
      (ancestor : CommittedBlockHeader) (commits : List CommittedBlockHeader) (t : MainState)
      : Type 0 where
    pub accepted : Accepted p ancestor commits
    pub valid : IsValid lo (extend p hist ancestor.blockheight commits) t
    pub height : t.block_height ≡ ancestor.blockheight + length commits
    pub work : t.chain_work ≡ (tip_of ancestor commits).chain_work
    pub more : gt_arr t.chain_work main.chain_work ≡ true
    pub block_hash : t.tip_block_hash ≡ get_block_hash p (tip_of ancestor commits).header
    pub commit_hash : t.tip_commit_hash ≡ get_commit_hash p (tip_of ancestor commits)

  -- The two outcomes: the fork's account stays, with its headers, or the main chain is overwritten.
  pub data Settled (lo : ℕ) (hist : History) (main : MainState) (ancestor : CommittedBlockHeader)
      (commits : List CommittedBlockHeader) (out : ForkOutcome) : Type 0 where
    waiting :
        out.close ≡ false
        → IsFork p ancestor commits out.fork
        → out.fork.tip_commit_hash ≡ get_commit_hash p (tip_of ancestor commits)
        → SameMain main out.main
        → Settled lo hist main ancestor commits out
    replaced :
        out.close ≡ true
        → Overwritten lo hist main ancestor commits out.main
        → Settled lo hist main ancestor commits out

-- The end of a submission that made the fork the headers `both`.
module _ (p : Platform) {lo : ℕ} {hist : History} (lo' fork_id : ℕ)
    (ancestor : CommittedBlockHeader) (both : List CommittedBlockHeader) (main main' : MainState)
    (c : Cursor ForkState) (valid : IsValid lo hist main) (above : lo ≤ lo')
    (stands : Stands p lo' hist main ancestor) (same_main : SameMain main main')
    (g : HasGrown p ancestor both c) where
  Overwritten-of_copy :
      {copied : MainState}
      → gt_arr c.last_commited_header.chain_work main.chain_work ≡ true
      → copy_commitments c.account.length 0 c.account main' ≡ ok copied
      → Overwritten p lo' hist main ancestor both (update_globals c copied)
  Overwritten-of_copy {copied} more h =
      let count : c.account.length ≡ length both = g.fork.buffer.count ∙ length-hashes_of p both in
      let start : c.account.start_height + 0 ≡ ancestor.blockheight = omega (arith, g.fork.start) in
      let stores =
        copy_commitments-store_all p 0 both c.account main' g.fork.buffer.held
          (ap (λ n. copy_commitments n 0 c.account main') (sym count) ∙ h) in
      let ring =
        Represents-rewind lo' ancestor.blockheight valid.ring above stands.under stands.near in
      let start_same : main'.start_height ≡ main.start_height =
        ap (λ (s : MainState). s.start_height) same_main in
      let ring_same : SameRing main main' = record {
        start = start_same;
        commitments = ap (λ (s : MainState). s.block_commitments) same_main;
      } in
      let here : InWindow main' ancestor.blockheight = record {
        low = omega (arith, stands.low, start_same);
        high = omega (arith, valid.here.high, stands.under, start_same);
      } in
      let room : InWindow main' (ancestor.blockheight + 1) = record {
        low = omega (arith, stands.low, start_same);
        high = omega (arith, valid.room.high, stands.under, start_same);
      } in
      record {
        accepted = g.fork.accepted;
        valid =
            IsValid-of_stores p ancestor both main' (Represents-same ring_same ring) here room
              stands.kept g.some_commit (rw start at stores)
              (record { start = refl; commitments = refl }) g.tall g.commit;
        height = g.tall;
        work = ap (λ (l : CommittedBlockHeader). l.chain_work) g.tip;
        more = more;
        block_hash =
            g.tip_hash ∙ ap (λ (l : CommittedBlockHeader). get_block_hash p l.header) g.tip;
        commit_hash = g.commit;
      }

  pub settle_fork-Settled :
      {out : ForkOutcome}
      → settle_fork fork_id main' c ≡ ok out
      → Settled p lo' hist main ancestor both out
  unfolding settle_fork
  settle_fork-Settled h =
      let same_work : main'.chain_work ≡ main.chain_work =
        ap (λ (s : MainState). s.chain_work) same_main in
      elim (Bool-cases (gt_arr c.last_commited_header.chain_work main'.chain_work)) [
        | inl e ↦
            bind_ok (copy_commitments c.account.length 0 c.account main') _ (rw e at h)
              λ copied e0 h0.
                rw (← ok-injective h0) (replaced refl (Overwritten-of_copy (rw same_work at e) e0))
        | inr e ↦ rw (← ok-injective (rw e at h)) (
            waiting refl
              (record {
                buffer = record {
                  size = g.fork.buffer.size;
                  count = g.fork.buffer.count;
                  held = g.fork.buffer.held;
                };
                start = g.fork.start;
                opened = g.fork.opened;
                accepted = g.fork.accepted;
              })
              g.commit same_main)
      ]
