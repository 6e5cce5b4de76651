-- ===== src/Program/Fork/Grown.antt =====
-- One submission to a fork, once its loop has run: what the fork's account then stands for.
use mathlib.Core.Path.{subst}
use bitcoin_svm_bridge.Prelude.{
  ℕ, ◌+◌, ◌<◌, ◌≡◌, refl, sym, ap, ◌∙◌, List, [], ◌∷◌, ◌++◌, ℤ, length, length-append, arith,
}
use bitcoin_svm_bridge.Structs.{
  Platform, Pubkey, BlockHeader, CommittedBlockHeader, store_fork, get_block_hash, get_commit_hash,
  zero_hash,
}
use bitcoin_svm_bridge.State.{ForkState}
use bitcoin_svm_bridge.State.Fork.{Buffer}
use bitcoin_svm_bridge.Program.Loop.{Cursor, start_at}
use bitcoin_svm_bridge.Program.Loop.Chain.{tip_of-append, Ran, tip_of, commit_of_pos, length-Chain}
use bitcoin_svm_bridge.Program.Submit.{store_on_fork}
use bitcoin_svm_bridge.Program.Fork.Stored.{
  Accepted, Accepted-of_Chain, Accepted-append, blockheight-tip_of, hashes_of, store_all-Buffer,
}

module _ (p : Platform) where
  -- The account of a fork of the headers `commits` on top of `ancestor`.
  pub record IsFork (ancestor : CommittedBlockHeader) (commits : List CommittedBlockHeader)
      (f : ForkState) : Type 0 where
    pub buffer : Buffer (hashes_of p commits) f
    pub start : f.start_height ≡ ancestor.blockheight
    pub opened : f.initialized ≡ 1
    pub accepted : Accepted p ancestor commits

  -- The cursor behind a loop that made the fork the headers `commits` on top of `ancestor`.
  pub record HasGrown (ancestor : CommittedBlockHeader) (commits : List CommittedBlockHeader)
      (c : Cursor ForkState) : Type 0 where
    pub fork : IsFork ancestor commits c.account
    pub some_commit : 0 < length commits
    pub tip : c.last_commited_header ≡ tip_of ancestor commits
    pub tip_hash : c.last_block_hash ≡ get_block_hash p c.last_commited_header.header
    pub commit : c.block_commit_hash ≡ get_commit_hash p (tip_of ancestor commits)
    pub tall : c.block_height ≡ ancestor.blockheight + length commits

  hashes_of-append :
      (commits more : List CommittedBlockHeader)
      → hashes_of p (commits ++ more) ≡ hashes_of p commits ++ hashes_of p more
  hashes_of-append [] more = refl
  hashes_of-append (next ∷ commits) more =
      ap (◌∷◌ (get_commit_hash p next)) (hashes_of-append commits more)

-- The loop from the fork `fork` of the headers `before` on.
module _ (p : Platform) (clock : ℤ) (keys : List Pubkey) (fork_id : ℕ) (headers : List BlockHeader)
    (ancestor commited : CommittedBlockHeader) (before new : List CommittedBlockHeader)
    (fork : ForkState) (c : Cursor ForkState) (some_header : 0 < length headers)
    (f : IsFork p ancestor before fork) (named : commited ≡ tip_of ancestor before)
    (ran : Ran p clock store_on_fork
      (store_fork fork_id)
      headers
      keys
      (start_at p fork commited commited.blockheight)
      c
      new) where
  both_Accepted : Accepted p ancestor (before ++ new)
  both_Accepted = Accepted-append p ancestor before new f.accepted (
      subst (λ (l : CommittedBlockHeader). Accepted p l new) named
        (Accepted-of_Chain p clock commited headers keys new ran.chain))

  some_new : 0 < length new
  some_new = omega (arith, length-Chain p clock commited headers keys new ran.chain)

  grown : IsFork p ancestor (before ++ new) c.account
  grown =
      let (buffer, start, init) =
        store_all-Buffer p commited.blockheight (hashes_of p before) new fork f.buffer ran.stores in
      record {
        buffer = rw (hashes_of-append p before new) buffer;
        start = start ∙ f.start;
        opened = init ∙ f.opened;
        accepted = both_Accepted;
      }

  new_tip : c.last_commited_header ≡ tip_of ancestor (before ++ new)
  new_tip = ran.tip ∙ ap (λ l. tip_of l new) named ∙ sym (tip_of-append ancestor before new)

  new_commit : c.block_commit_hash ≡ get_commit_hash p (tip_of ancestor (before ++ new))
  new_commit =
      ran.commit
      ∙ commit_of_pos p zero_hash commited new some_new
      ∙ ap (get_commit_hash p) (sym ran.tip ∙ new_tip)

  tall : c.block_height ≡ ancestor.blockheight + length (before ++ new)
  tall = omega (
    arith,
    ran.height,
    length-Chain p clock commited headers keys new ran.chain,
    length-append before new,
    blockheight-tip_of p ancestor before f.accepted,
    ap (λ (l : CommittedBlockHeader). l.blockheight) named,
  )

  pub loop-HasGrown : HasGrown p ancestor (before ++ new) c
  loop-HasGrown = record {
    fork = grown;
    some_commit = omega (arith, some_new, length-append before new);
    tip = new_tip;
    tip_hash = ran.tip_hash;
    commit = new_commit;
    tall = tall;
  }
