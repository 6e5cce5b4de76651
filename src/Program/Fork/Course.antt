-- ===== src/Program/Fork/Course.antt =====
-- What a submission to a fork does that succeeds: the first one, and every later one.
use bitcoin_svm_bridge.ArrayUtils.{Bytes, gt_arr}
use bitcoin_svm_bridge.Prelude.{
  zero, suc, or_panic, get_elem?, Bool-cases, inl, inr, ℕ, ◌+◌, ◌≤◌, ◌<◌, ◌≡◌, ◌≢◌, refl, sym, ap,
  ◌∙◌, List, Bool, Result, [], ◌++◌, true, false, not, ok, no_headers, invalid_remaining_accounts,
  prev_block_commitment, err_init, invalid_fork_id, checked_add, bind_ok, require_ok, ok-injective,
  bytes_eq, bytes_eq→eq, ℤ, ◌==◌, if◌then◌else◌, length, arith,
}
use bitcoin_svm_bridge.Structs.{
  Platform, Pubkey, BlockHeader, CommittedBlockHeader, store_fork, get_commit_hash, zero_hash,
}
use bitcoin_svm_bridge.State.{MainState, ForkState, get_commitment, store_block_commitment}
use bitcoin_svm_bridge.State.Commitment.{History}
use bitcoin_svm_bridge.Program.Loop.{Cursor, start_at, header_loop}
use bitcoin_svm_bridge.Program.Loop.Chain.{tip_of, header_loop-Ran}
use bitcoin_svm_bridge.Program.Submit.{is_empty, same_bool, store_main, store_on_fork}
use bitcoin_svm_bridge.Program.Submit.Main.{IsValid, is_empty-pos}
use bitcoin_svm_bridge.Program.Submit.Accepted.{get_commitment-kept}
use bitcoin_svm_bridge.Program.Fork.{
  ForkLoader, ForkOutcome, copy_commitments, settle_fork, open_fork, continue_fork,
  submit_fork_headers,
}
use bitcoin_svm_bridge.Program.Fork.Reorg.{SameMain}
use bitcoin_svm_bridge.Program.Fork.Grown.{IsFork, loop-HasGrown}
use bitcoin_svm_bridge.Program.Fork.Overwrite.{Stands, Settled, settle_fork-Settled}

-- the account that `load_init` answers for a new fork: all zeros
pub record IsFresh (f : ForkState) : Type 0 where
  pub size : length f.block_commitments ≡ 250
  pub closed : f.initialized ≡ 0
  pub empty : f.length ≡ 0

module _ (p : Platform) {lo : ℕ} {hist : History} where
  open_fork-eq-ok :
      (fork_id lo' : ℕ) (commited : CommittedBlockHeader) (main : MainState) (fork : ForkState)
      {r : MainState × ForkState}
      → IsValid lo hist main
      → IsFresh fork
      → get_commit_hash p commited ≢ zero_hash
      → lo ≤ lo'
      → lo' ≤ commited.blockheight
      → main.block_height < lo' + 250
      → open_fork p fork_id commited main fork ≡ ok r
      → Stands p lo' hist main commited × IsFork p commited [] r.1 × SameMain main r.0
  unfolding open_fork
  open_fork-eq-ok fork_id lo' commited main fork v new filled above below near h =
      require_ok (main.fork_counter == fork_id) invalid_fork_id _ h λ e0 h0.
        bind_ok (checked_add 64 fork_id 1) _ h0 λ counter e1 h1.
          bind_ok (get_commitment main commited.blockheight) _ h1 λ ancestor e2 h2.
            require_ok (bytes_eq (get_commit_hash p commited) ancestor) prev_block_commitment _ h2
              λ e3 h3.
                let named = bytes_eq→eq _ _ e3 in
                let (parent, under, low) =
                  get_commitment-kept v (omega arith) (λ e. filled (named ∙ e)) e2 in
                (
                  record {
                    parent = named ∙ parent;
                    under = under;
                    low = low;
                    kept = below;
                    near = near;
                  },
                  rw (← ok-injective h3) (record {
                    buffer = record { size = new.size; count = new.empty; held = tt };
                    start = refl;
                    opened = refl;
                    accepted = tt;
                  }),
                  rw (← ok-injective h3) refl,
                )

pub continue_fork-eq-ok :
    (p : Platform) (fork_id : ℕ) (commited : CommittedBlockHeader) (main : MainState)
    (fork : ForkState) {r : MainState × ForkState}
    → fork.initialized ≡ 1
    → (if fork.initialized == 0
        then open_fork p fork_id commited main fork
        else continue_fork p commited main fork)
      ≡ ok r
    → (get_commit_hash p commited ≡ fork.tip_commit_hash) × (r ≡ (main, fork))
unfolding continue_fork
continue_fork-eq-ok p fork_id commited main fork opened h =
    require_ok (bytes_eq (get_commit_hash p commited) fork.tip_commit_hash) prev_block_commitment _
      (continued (fork.initialized == 0) _ (rw opened refl) h)
      λ e0 h0. (bytes_eq→eq _ _ e0, sym (ok-injective h0))
  where
    continued :
        (c : Bool) (x : Result (MainState × ForkState)) {y : Result (MainState × ForkState)}
        {r : MainState × ForkState}
        → c ≡ false
        → (if c then x else y) ≡ ok r
        → y ≡ ok r
    continued c x e h = rw e at h

store_main-fork_counter :
    (h : ℕ) (c : Bytes) (s : MainState) {t : MainState}
    → store_main h c s ≡ ok t
    → t.fork_counter ≡ s.fork_counter
unfolding store_main store_block_commitment
store_main-fork_counter h c s e = ground (arith, e)

-- The end of a submission leaves the counter of forks alone, whether or not the fork wins.
copy_commitments-fork_counter :
    (n i : ℕ) (fork : ForkState) (main : MainState) {t : MainState}
    → copy_commitments n i fork main ≡ ok t
    → t.fork_counter ≡ main.fork_counter
unfolding copy_commitments
copy_commitments-fork_counter zero i fork main h =
    ap (λ (s : MainState). s.fork_counter) (sym (ok-injective h))
copy_commitments-fork_counter (suc n) i fork main h =
    bind_ok (checked_add 32 fork.start_height 1) _ h λ base e0 h0.
      bind_ok (checked_add 32 base i) _ h0 λ height e1 h1.
        bind_ok (or_panic (get_elem? fork.block_commitments i)) _ h1 λ commit_hash e2 h2.
          bind_ok (store_main height commit_hash main) _ h2 λ main' e3 h3.
            copy_commitments-fork_counter n (i + 1) fork main' h3
            ∙ store_main-fork_counter height commit_hash main e3

settle_fork-fork_counter :
    (fork_id : ℕ) (main : MainState) (c : Cursor ForkState) {out : ForkOutcome}
    → settle_fork fork_id main c ≡ ok out
    → out.main.fork_counter ≡ main.fork_counter
unfolding settle_fork
settle_fork-fork_counter fork_id main c h =
    elim (Bool-cases (gt_arr c.last_commited_header.chain_work main.chain_work)) [
      | inl e ↦
          bind_ok (copy_commitments c.account.length 0 c.account main) _ (rw e at h) λ copied e0 h0.
            rw (← ok-injective h0)
              (copy_commitments-fork_counter c.account.length 0 c.account main e0)
      | inr e ↦ rw (← ok-injective (rw e at h)) refl
    ]

module _ (p : Platform) (clock : ℤ) (keys : List Pubkey) {lo : ℕ} {hist : History} (lo' : ℕ)
    (headers : List BlockHeader) (commited : CommittedBlockHeader) (fork_id : ℕ)
    (loader : ForkLoader) (main : MainState) where
  -- On a valid account and a new account for the fork, every `submit_fork_headers` with `init` that
  -- succeeds has accepted a chain of headers on top of the committed one. Either the fork's account
  -- then stands for this chain and the main account is the same but for the counter of forks, or the
  -- chain has strictly more work than the main chain and has replaced the blocks above the committed
  -- header, and the main account is valid for it. The committed header stands in the part of the
  -- chain that the account represents, and its commitment is not zero; the main account stays right
  -- from any height on that is less than 250 below the old tip.
  pub submit_fork_headers_opens :
      {fork : ForkState} {out : ForkOutcome}
      → IsValid lo hist main
      → loader.load_init ≡ ok fork
      → IsFresh fork
      → get_commit_hash p commited ≢ zero_hash
      → lo ≤ lo'
      → lo' ≤ commited.blockheight
      → main.block_height < lo' + 250
      → submit_fork_headers p clock keys headers commited fork_id true loader main ≡ ok out
      → (commits : List CommittedBlockHeader) × Settled p lo' hist main commited commits out
  unfolding submit_fork_headers
  submit_fork_headers_opens {fork} v loads new filled above below near h =
      require_ok (not (is_empty headers)) no_headers _ h λ e0 h0.
        require_ok (length headers == length keys) invalid_remaining_accounts _ h0 λ e1 h1.
          let h2 = rw (loads, new.closed) at h1 in
          bind_ok (open_fork p fork_id commited main fork) _ h2 λ (main', fork') e2 h3.
            bind_ok
              (header_loop p clock store_on_fork (store_fork fork_id) headers keys
                (start_at p fork' commited commited.blockheight))
              _ h3
              λ c e3 h4.
                let (commits, ran) =
                  header_loop-Ran p clock store_on_fork (store_fork fork_id) headers keys _ refl
                    e3 in
                let (stands, f, same) =
                  open_fork-eq-ok p fork_id lo' commited main fork v new filled above below near
                    e2 in
                (
                  commits,
                  settle_fork-Settled p lo' fork_id commited commits main main' c v above stands
                      same
                      (loop-HasGrown p clock keys fork_id headers commited commited [] commits fork'
                        c (is_empty-pos headers e0) f refl ran)
                      h4,
                )

  -- On a valid account and the account of a fork that stands for the headers `before` on top of
  -- `ancestor`, every `submit_fork_headers` without `init` that succeeds has accepted a chain of
  -- headers on top of the last of them. Either the fork's account then stands for both together and the
  -- main account is the same, or both together have strictly more work than the main chain and have
  -- replaced the blocks above the ancestor, and the main account is valid for them; the counter of
  -- forks stays in both cases. This asks that the ancestor is still a block of the main chain, not
  -- above its tip and less than 250 below the start of the buffer, which the code tests in the first
  -- submission only; that the account is right from a height `lo'` on, which is not above the
  -- ancestor and less than 250 below the tip; and that the committed header has the commitment of the
  -- fork's last header only if it is that header.
  pub submit_fork_headers_continues :
      (ancestor : CommittedBlockHeader) (before : List CommittedBlockHeader) {fork : ForkState}
      {out : ForkOutcome}
      → IsValid lo hist main
      → lo ≤ lo'
      → Stands p lo' hist main ancestor
      → loader.load_mut ≡ ok fork
      → IsFork p ancestor before fork
      → fork.tip_commit_hash ≡ get_commit_hash p (tip_of ancestor before)
      → (get_commit_hash p commited ≡ get_commit_hash p (tip_of ancestor before)
          → commited ≡ tip_of ancestor before)
      → submit_fork_headers p clock keys headers commited fork_id false loader main ≡ ok out
      → (commits : List CommittedBlockHeader) × Settled p lo' hist main ancestor
          (before ++ commits)
          out
        × (out.main.fork_counter ≡ main.fork_counter)
  unfolding submit_fork_headers
  submit_fork_headers_continues ancestor before {fork} v above stands loads f tip no_collision h =
      require_ok (not (is_empty headers)) no_headers _ h λ e0 h0.
        require_ok (length headers == length keys) invalid_remaining_accounts _ h0 λ e1 h1.
          require_ok (same_bool false (fork.initialized == 0)) err_init _ (rw loads at h1) λ e2 h2.
            bind_ok
              (if fork.initialized == 0
                then open_fork p fork_id commited main fork
                else continue_fork p commited main fork)
              _ h2
              λ (main', fork') e3 h3.
                let (at_tip, same) = continue_fork-eq-ok p fork_id commited main fork f.opened e3 in
                bind_ok
                  (header_loop p clock store_on_fork (store_fork fork_id) headers keys
                    (start_at p fork' commited commited.blockheight))
                  _ h3
                  λ c e4 h4.
                    let (commits, ran) =
                      header_loop-Ran p clock store_on_fork (store_fork fork_id) headers keys _ refl
                        e4 in
                    let same_main = ap (λ (r : MainState × ForkState). r.0) same in
                    let same_fork = ap (λ (r : MainState × ForkState). r.1) same in
                    (
                      commits,
                      settle_fork-Settled p lo' fork_id ancestor (before ++ commits) main main' c v
                          above stands (rw same_main refl)
                          (loop-HasGrown p clock keys fork_id headers ancestor commited before
                            commits fork' c (is_empty-pos headers e0) (rw same_fork f)
                            (no_collision (at_tip ∙ tip)) ran)
                          h4,
                      settle_fork-fork_counter fork_id main' c h4
                          ∙ ap (λ (s : MainState). s.fork_counter) same_main,
                    )
