-- ===== src/Program/Fork/Reorg.antt =====
-- When a submission to a fork changes the main chain.
use bitcoin_svm_bridge.Prelude.{
  ℕ, ◌≡◌, ◌⊎◌, inl, inr, refl, ap, List, Bool, true, false, not, ok, no_headers,
  invalid_remaining_accounts, prev_block_commitment, err_init, invalid_fork_id, checked_add,
  bind_ok, require_ok, ok-injective, bytes_eq, ℤ, ◌==◌, if◌then◌else◌, length, Bool-cases,
}
use bitcoin_svm_bridge.ArrayUtils.{gt_arr}
use bitcoin_svm_bridge.Structs.{
  Platform, Pubkey, BlockHeader, CommittedBlockHeader, store_fork, get_commit_hash,
}
use bitcoin_svm_bridge.State.{MainState, ForkState, get_commitment}
use bitcoin_svm_bridge.Program.Loop.{Cursor, start_at, header_loop}
use bitcoin_svm_bridge.Program.Submit.{is_empty, same_bool, store_on_fork}
use bitcoin_svm_bridge.Program.Fork.{
  ForkLoader, ForkOutcome, copy_commitments, open_fork, continue_fork, settle_fork,
  submit_fork_headers,
}

-- Only the counter of forks may differ.
abbrev pub SameMain : MainState → MainState → Type 0
SameMain s t = t ≡ record s { fork_counter = t.fork_counter }

module _ (p : Platform) where
  open_fork-main :
      (fork_id : ℕ) (commited : CommittedBlockHeader) (main : MainState) (fork : ForkState)
      {r : MainState × ForkState}
      → open_fork p fork_id commited main fork ≡ ok r
      → SameMain main r.0
  unfolding open_fork
  open_fork-main fork_id commited main fork h =
      require_ok (main.fork_counter == fork_id) invalid_fork_id _ h λ e0 h0.
        bind_ok (checked_add 64 fork_id 1) _ h0 λ counter e1 h1.
          bind_ok (get_commitment main commited.blockheight) _ h1 λ ancestor e2 h2.
            require_ok (bytes_eq (get_commit_hash p commited) ancestor) prev_block_commitment _ h2
              λ e3 h3. rw (← ok-injective h3) refl

  continue_fork-main :
      (commited : CommittedBlockHeader) (main : MainState) (fork : ForkState)
      {r : MainState × ForkState}
      → continue_fork p commited main fork ≡ ok r
      → SameMain main r.0
  unfolding continue_fork
  continue_fork-main commited main fork h =
      require_ok (bytes_eq (get_commit_hash p commited) fork.tip_commit_hash) prev_block_commitment
        _ h λ e0 h0. rw (← ok-injective h0) refl

  enter_fork-main :
      (fork_id : ℕ) (commited : CommittedBlockHeader) (main : MainState) (fork : ForkState)
      {r : MainState × ForkState}
      → (if fork.initialized == 0
          then open_fork p fork_id commited main fork
          else continue_fork p commited main fork)
        ≡ ok r
      → SameMain main r.0
  enter_fork-main fork_id commited main fork h = elim (Bool-cases (fork.initialized == 0)) [
    | inl e ↦ open_fork-main fork_id commited main fork (rw e at h)
    | inr e ↦ continue_fork-main commited main fork (rw e at h)
  ]

settle_fork-main :
    (fork_id : ℕ) (main : MainState) (c : Cursor ForkState) {out : ForkOutcome}
    → settle_fork fork_id main c ≡ ok out
    → ((out.close ≡ true) × (gt_arr out.main.chain_work main.chain_work ≡ true))
      ⊎ ((out.close ≡ false) × (out.main ≡ main))
unfolding settle_fork
settle_fork-main fork_id main c h =
    elim (Bool-cases (gt_arr c.last_commited_header.chain_work main.chain_work)) [
      | inl e ↦
          bind_ok (copy_commitments c.account.length 0 c.account main) _ (rw e at h)
            λ copied e0 h0. inl (rw (← ok-injective h0) (refl, e))
      | inr e ↦ inr (rw (← ok-injective (rw e at h)) (refl, refl))
    ]

module _ (p : Platform) (clock : ℤ) (keys : List Pubkey) where
  -- A `submit_fork_headers` that succeeds either closes the fork's account, and the main chain has
  -- strictly more work than before, or keeps it open, and then the main account is the same but for
  -- the counter of forks.
  pub submit_fork_headers_main :
      (headers : List BlockHeader) (commited : CommittedBlockHeader) (fork_id : ℕ) (init : Bool)
      (loader : ForkLoader) (main : MainState) {out : ForkOutcome}
      → submit_fork_headers p clock keys headers commited fork_id init loader main ≡ ok out
      → ((out.close ≡ true) × (gt_arr out.main.chain_work main.chain_work ≡ true))
        ⊎ ((out.close ≡ false) × SameMain main out.main)
  unfolding submit_fork_headers
  submit_fork_headers_main headers commited fork_id init loader main h =
      require_ok (not (is_empty headers)) no_headers _ h λ e0 h0.
        require_ok (length headers == length keys) invalid_remaining_accounts _ h0 λ e1 h1.
          bind_ok (if init then loader.load_init else loader.load_mut) _ h1 λ loaded e2 h2.
            require_ok (same_bool init (loaded.initialized == 0)) err_init _ h2 λ e3 h3.
              bind_ok
                (if loaded.initialized == 0
                  then open_fork p fork_id commited main loaded
                  else continue_fork p commited main loaded)
                _ h3
                λ (main', fork) e4 h4.
                  bind_ok
                    (header_loop p clock store_on_fork (store_fork fork_id) headers keys
                      (start_at p fork commited commited.blockheight))
                    _ h4
                    λ c e5 h5.
                      let same = enter_fork-main p fork_id commited main loaded e4 in
                      elim (settle_fork-main fork_id main' c h5) [
                        | inl (e, more) ↦
                            inl (e, rw (ap (λ (s : MainState). s.chain_work) same) at more)
                        | inr (e, kept) ↦ inr (e, rw kept same)
                      ]
