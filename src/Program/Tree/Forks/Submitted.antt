-- ===== src/Program/Tree/Forks/Submitted.antt =====
-- `submit_fork_headers` (lib.rs) on sound accounts.
use bitcoin_svm_bridge.Prelude.{
  ◌>>=◌, ℕ, ◌+◌, ◌<◌, ◌≤◌, ◌≡◌, refl, sym, ap, ◌∙◌, List, [], ◌++◌, true, false, not, ok,
  no_headers, invalid_remaining_accounts, prev_block_commitment, err_init, invalid_fork_id,
  checked_add, bind_ok, require_ok, ok-injective, bytes_eq, bytes_eq→eq, ℤ, ◌==◌, if◌then◌else◌,
  length, arith,
}
use bitcoin_svm_bridge.Structs.{
  Platform, Pubkey, BlockHeader, CommittedBlockHeader, store_fork, get_commit_hash,
}
use bitcoin_svm_bridge.State.{MainState, ForkState, get_commitment, get_position}
use bitcoin_svm_bridge.Program.Loop.{start_at, header_loop}
use bitcoin_svm_bridge.Program.Loop.Chain.{tip_of, header_loop-Ran}
use bitcoin_svm_bridge.Program.Submit.{is_empty, same_bool, store_on_fork}
use bitcoin_svm_bridge.Program.Submit.Main.{is_empty-pos}
use bitcoin_svm_bridge.Program.Fork.{
  ForkLoader, ForkOutcome, open_fork, continue_fork, settle_fork, submit_fork_headers,
}
use bitcoin_svm_bridge.Program.Fork.Course.{IsFresh, continue_fork-eq-ok}
use bitcoin_svm_bridge.Program.Fork.Grown.{IsFork, loop-HasGrown}
use bitcoin_svm_bridge.Program.Tree.{IsClear, InTree, IsSound, tip_of-InTree}
use bitcoin_svm_bridge.Program.Tree.Submit.{get_commitment-InTree}
use bitcoin_svm_bridge.Program.Tree.Forks.{IsSoundFork, LeavesSound, settle_fork-LeavesSound}

module _ (p : Platform) (first : CommittedBlockHeader) where
  counted :
      (main : MainState) (counter : ℕ)
      → (v : IsSound p first main)
      → (v' : IsSound p first (record main { fork_counter = counter })) × (v'.tip ≡ v.tip)
  unfolding get_position
  counted main counter v = (
    record {
      size = v.size;
      known = v.known;
      ahead = v.ahead;
      at_tip = v.at_tip;
      tip = v.tip;
      in_tree = v.in_tree;
      commit = v.commit;
      height = v.height;
      work = v.work;
      block_hash = v.block_hash;
    },
    refl,
  )

  -- The first submission starts an empty fork on a header of the tree.
  open_fork-InTree :
      (fork_id : ℕ) (commited : CommittedBlockHeader) (main : MainState) (fork : ForkState)
      {r : MainState × ForkState}
      → IsClear p first commited
      → (v : IsSound p first main) → IsFresh fork
      → open_fork p fork_id commited main fork ≡ ok r
      → ((v' : IsSound p first r.0) × (v'.tip ≡ v.tip))
        × InTree p first commited
        × (commited.blockheight ≤ main.block_height)
        × IsFork p commited [] r.1
        × (r.0.start_height ≡ main.start_height)
  unfolding open_fork
  open_fork-InTree fork_id commited main fork clear v new h =
      require_ok (main.fork_counter == fork_id) invalid_fork_id _ h λ e0 h0.
        bind_ok (checked_add 64 fork_id 1) _ h0 λ counter e1 h1.
          bind_ok (get_commitment main commited.blockheight) _ h1 λ ancestor e2 h2.
            require_ok (bytes_eq (get_commit_hash p commited) ancestor) prev_block_commitment _ h2
              λ e3 h3.
                let (in_tree, under) =
                  get_commitment-InTree p first main commited.blockheight commited clear v
                    (e2 ∙ ap ok (sym (bytes_eq→eq _ _ e3))) in
                (
                  rw (← ok-injective h3) (counted main counter v),
                  in_tree,
                  under,
                  rw (← ok-injective h3) (record {
                    buffer = record { size = new.size; count = new.empty; held = tt };
                    start = refl;
                    opened = refl;
                    accepted = tt;
                  }),
                  rw (← ok-injective h3) refl,
                )

  module _ (clock : ℤ) (keys : List Pubkey) (headers : List BlockHeader)
      (commited : CommittedBlockHeader) (fork_id : ℕ) (main : MainState) where
    -- the loop and the end, from a fork of the headers `before` on top of `ancestor`
    finished :
        (ancestor : CommittedBlockHeader) (before : List CommittedBlockHeader) (main' : MainState)
        (fork : ForkState) {out : ForkOutcome}
        → not (is_empty headers) ≡ true
        → (v' : IsSound p first main') → InTree p first ancestor
        → ancestor.blockheight < main'.start_height + 250
        → IsFork p ancestor before fork
        → commited ≡ tip_of ancestor before
        → (header_loop p clock store_on_fork
              (store_fork fork_id)
              headers
              keys
              (start_at p fork commited commited.blockheight)
            >>= settle_fork fork_id main')
          ≡ ok out
        → LeavesSound p first main' v'.tip out
    finished ancestor before main' fork some_header v in_tree near f named h =
        bind_ok
          (header_loop p clock store_on_fork (store_fork fork_id) headers keys
            (start_at p fork commited commited.blockheight))
          _ h
          λ c e0 h0.
            let (commits, ran) =
              header_loop-Ran p clock store_on_fork (store_fork fork_id) headers keys _ refl e0 in
            settle_fork-LeavesSound p first fork_id ancestor (before ++ commits) main' c v in_tree
              near
              (loop-HasGrown p clock keys fork_id headers ancestor commited before commits fork c
                (is_empty-pos headers some_header) f named ran)
              h0

    -- With `init`, on a new account.
    pub submit_fork_headers-LeavesSound_new :
        (loader : ForkLoader) {fork : ForkState} {out : ForkOutcome}
        → IsClear p first commited
        → (v : IsSound p first main) → loader.load_init ≡ ok fork
        → IsFresh fork
        → submit_fork_headers p clock keys headers commited fork_id true loader main ≡ ok out
        → LeavesSound p first main v.tip out
    unfolding submit_fork_headers
    submit_fork_headers-LeavesSound_new loader {fork} clear v loads new h =
        require_ok (not (is_empty headers)) no_headers _ h λ e0 h0.
          require_ok (length headers == length keys) invalid_remaining_accounts _ h0 λ e1 h1.
            let h2 = rw (loads, new.closed) at h1 in
            bind_ok (open_fork p fork_id commited main fork) _ h2 λ (main', fork') e2 h3.
              let ((v', same_tip), in_tree, under, f, same) =
                open_fork-InTree fork_id commited main fork clear v new e2 in
              let left =
                finished commited [] main' fork' e0 v' in_tree (omega (arith, under, v.ahead, same))
                  f refl h3 in
              record {
                sound = left.sound;
                tip_step = rw same_tip at left.tip_step;
                up = omega (arith, left.up, same);
                fork = left.fork;
              }

    -- Without `init`, on the account of a sound fork.
    pub submit_fork_headers-LeavesSound_old :
        (loader : ForkLoader) {fork : ForkState} {out : ForkOutcome}
        → IsClear p first commited
        → (v : IsSound p first main) → loader.load_mut ≡ ok fork
        → IsSoundFork p first main.start_height fork
        → submit_fork_headers p clock keys headers commited fork_id false loader main ≡ ok out
        → LeavesSound p first main v.tip out
    unfolding submit_fork_headers
    submit_fork_headers-LeavesSound_old loader {fork} clear v loads f h =
        require_ok (not (is_empty headers)) no_headers _ h λ e0 h0.
          require_ok (length headers == length keys) invalid_remaining_accounts _ h0 λ e1 h1.
            require_ok (same_bool false (fork.initialized == 0)) err_init _ (rw loads at h1)
              λ e2 h2.
                bind_ok
                  (if fork.initialized == 0
                    then open_fork p fork_id commited main fork
                    else continue_fork p commited main fork)
                  _ h2
                  λ (main', fork') e3 h3.
                    let (at_tip, same) =
                      continue_fork-eq-ok p fork_id commited main fork f.fork.opened e3 in
                    let same_main = ap (λ (r : MainState × ForkState). r.0) same in
                    let same_fork = ap (λ (r : MainState × ForkState). r.1) same in
                    finished f.ancestor f.commits main fork e0 v f.in_tree f.near f.fork
                      (clear.alone _
                        (tip_of-InTree p first f.ancestor f.commits f.in_tree f.fork.accepted)
                        (at_tip ∙ f.tip))
                      (rw (same_main, same_fork) at h3)
