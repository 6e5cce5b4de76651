-- ===== src/Program/Tree/Submit.antt =====
-- Submissions to the main chain (lib.rs) on an account of known headers.
use bitcoin_svm_bridge.Prelude.{
  ℕ, ◌+◌, ◌≤◌, ◌<◌, ◌≡◌, refl, sym, ap, ◌∙◌, List, some, ok, not, All-get_elem?, no_headers,
  invalid_remaining_accounts, prev_block_commitment, fork_too_short, bind_ok, require_ok,
  ok-injective, checked_add, bytes_eq, bytes_eq→eq, ℤ, ◌==◌, length, arith,
}
use bitcoin_svm_bridge.ArrayUtils.{Bytes, gt_arr}
use bitcoin_svm_bridge.Structs.{
  Platform, Pubkey, BlockHeader, CommittedBlockHeader, Event, store_header, store_fork,
  get_block_hash, get_commit_hash, zero_hash,
}
use bitcoin_svm_bridge.State.{MainState, get_commitment, get_position}
use bitcoin_svm_bridge.State.Ring.{slot}
use bitcoin_svm_bridge.Program.Loop.{Cursor, start_at, header_loop}
use bitcoin_svm_bridge.Program.Loop.Chain.{
  Ran, tip_of, commit_of_pos, length-Chain, store_all, header_loop-Ran,
}
use bitcoin_svm_bridge.Program.Submit.{
  is_empty, store_main, update_globals, submit_block_headers, submit_short_fork_headers,
}
use bitcoin_svm_bridge.Program.Submit.Main.{is_empty-pos}
use bitcoin_svm_bridge.Program.Fork.Stored.{Accepted, Accepted-of_Chain, blockheight-tip_of}
use bitcoin_svm_bridge.Program.Tree.{
  IsClear, TipStep, extends, overtakes, InTree, IsKnown, IsSound, tip_of-InTree, Accepted-InTree,
  InTree-of_IsKnown, get_commitment-slot,
}
use bitcoin_svm_bridge.Program.Tree.Stores.{Holds, store_all-AtPlace}

some-injective : {x y : Bytes} → some x ≡ some y → x ≡ y
some-injective e = cc

module _ (p : Platform) (first : CommittedBlockHeader) where
  -- The account behind the stores of accepted headers on top of one of the tree, once its globals are
  -- those of a cursor on the last of them.
  pub IsSound-of_stores :
      {S : Type 0} (last : CommittedBlockHeader) (commits : List CommittedBlockHeader)
      (s : MainState) {t : MainState} (c : Cursor S) (counter : ℕ)
      → Holds p first last.blockheight s
      → InTree p first last
      → Accepted p last commits
      → 0 < length commits
      → store_all p store_main last.blockheight commits s ≡ ok t
      → c.last_commited_header ≡ tip_of last commits
      → c.last_block_hash ≡ get_block_hash p c.last_commited_header.header
      → c.block_commit_hash ≡ get_commit_hash p (tip_of last commits)
      → c.block_height ≡ last.blockheight + length commits
      → (v : IsSound p first (record (update_globals c t) { fork_counter = counter }))
        × (s.start_height ≤ t.start_height)
        × (v.tip ≡ tip_of last commits)
        × (t.chain_work ≡ s.chain_work)
  unfolding get_position
  IsSound-of_stores last commits s {t} c counter h in_tree accepted some_commit stores tip hash
        commit tall =
      let (holds, at, up, same) =
        store_all-AtPlace p first last.blockheight commits s h some_commit
          (Accepted-InTree p first last commits in_tree accepted) stores in
      (
        record {
          size = holds.size;
          known = holds.known;
          ahead = rw tall holds.ahead;
          at_tip = λ near.
              ap (slot t) tall
              ∙ at (rw tall at near)
              ∙ ap some (commit_of_pos p zero_hash last commits some_commit ∙ sym commit);
          tip = c.last_commited_header;
          in_tree = rw tip (tip_of-InTree p first last commits in_tree accepted);
          commit = rw tip commit;
          height =
              tall
              ∙ sym (blockheight-tip_of p last commits accepted)
              ∙ ap (λ (l : CommittedBlockHeader). l.blockheight) (sym tip);
          work = refl;
          block_hash = hash;
        },
        up,
        tip,
        same.chain_work,
      )

  -- A header whose commitment the account answers is of the tree.
  pub get_commitment-InTree :
      (s : MainState) (h : ℕ) (c : CommittedBlockHeader)
      → IsClear p first c
      → IsSound p first s
      → get_commitment s h ≡ ok (get_commit_hash p c)
      → InTree p first c × (h ≤ s.block_height)
  get_commitment-InTree s h c clear v e =
      let (there, under, _) = get_commitment-slot s h e clear.nonzero in
      (
        InTree-of_IsKnown p first c clear
            (All-get_elem? (IsKnown p first) s.block_commitments (get_position s h) v.known there),
        under,
      )

  -- The header that the account answers for its own height is the tip.
  tip_lem :
      (s : MainState) (c : CommittedBlockHeader)
      → IsClear p first c
      → (v : IsSound p first s) → get_commitment s s.block_height ≡ ok (get_commit_hash p c)
      → c ≡ v.tip
  tip_lem s c clear v e =
      let (there, _, near) = get_commitment-slot s s.block_height e clear.nonzero in
      clear.alone v.tip v.in_tree (some-injective (sym there ∙ v.at_tip near) ∙ v.commit)

module _ (p : Platform) (clock : ℤ) (keys : List Pubkey) (first : CommittedBlockHeader)
    (event : Bytes → Bytes → CommittedBlockHeader → Event) where
  -- the account behind a loop over the main account
  IsSound-of_Ran :
      (headers : List BlockHeader) (commited : CommittedBlockHeader) (s : MainState)
      (d : Cursor MainState) (commits : List CommittedBlockHeader) (counter : ℕ) {top : ℕ}
      → IsSound p first s
      → InTree p first commited
      → top ≡ commited.blockheight
      → top ≤ s.block_height
      → 0 < length headers
      → Ran p clock store_main event headers keys (start_at p s commited top) d commits
      → (v : IsSound p first (record (update_globals d d.account) { fork_counter = counter }))
        × (s.start_height ≤ d.account.start_height)
        × (v.tip ≡ tip_of commited commits)
        × (d.account.chain_work ≡ s.chain_work)
  IsSound-of_Ran headers commited s d commits counter v in_tree at under some_header ran =
      let count = length-Chain p clock commited headers keys commits ran.chain in
      let some_commit : 0 < length commits = omega (arith, count) in
      IsSound-of_stores p first commited commits s d counter
        (record { size = v.size; known = v.known; ahead = omega (arith, v.ahead, at) }) in_tree
        (Accepted-of_Chain p clock commited headers keys commits ran.chain) some_commit
        (rw at at ran.stores) ran.tip ran.tip_hash
        (ran.commit ∙ commit_of_pos p zero_hash commited commits some_commit)
        (omega (arith, ran.height, count, at))

module _ (p : Platform) (clock : ℤ) (keys : List Pubkey) (first : CommittedBlockHeader) where
  -- `submit_block_headers` keeps the account sound and extends the tip.
  pub submit_block_headers-IsSound :
      (headers : List BlockHeader) (commited : CommittedBlockHeader) (s : MainState) {t : MainState}
      {events : List Event}
      → IsClear p first commited
      → (v : IsSound p first s)
      → submit_block_headers p clock keys headers commited s ≡ ok (t, events)
      → (v' : IsSound p first t) × (s.start_height ≤ t.start_height) × TipStep p first v.tip v'.tip
  unfolding submit_block_headers
  submit_block_headers-IsSound headers commited s clear v h =
      require_ok (not (is_empty headers)) no_headers _ h λ e0 h0.
        require_ok (length headers == length keys) invalid_remaining_accounts _ h0 λ e1 h1.
          bind_ok (get_commitment s s.block_height) _ h1 λ tip e2 h2.
            require_ok (bytes_eq (get_commit_hash p commited) tip) prev_block_commitment _ h2
              λ e3 h3.
                bind_ok
                  (header_loop p clock store_main store_header headers keys
                    (start_at p s commited s.block_height))
                  _ h3
                  λ d e4 h4.
                    let at_tip =
                      tip_lem p first s commited clear v (e2 ∙ ap ok (sym (bytes_eq→eq _ _ e3))) in
                    let (commits, ran) =
                      header_loop-Ran p clock store_main store_header headers keys _ refl e4 in
                    let tall : s.block_height ≡ commited.blockheight =
                      v.height ∙ ap (λ (l : CommittedBlockHeader). l.blockheight) (sym at_tip) in
                    let (sound, up, tip, work) =
                      IsSound-of_Ran p clock keys first store_header headers commited s d commits
                        d.account.fork_counter v (rw at_tip v.in_tree) tall (omega arith)
                        (is_empty-pos headers e0) ran in
                    let same = ap (λ (r : MainState × List Event). r.0) (ok-injective h4) in
                    let longer =
                      Accepted-of_Chain p clock commited headers keys commits ran.chain in
                    rw (← same) (
                      sound,
                      up,
                      extends commits (rw at_tip at longer)
                          (tip ∙ ap (λ l. tip_of l commits) at_tip),
                    )

  -- `submit_short_fork_headers` keeps the account sound, and the new tip has more work.
  pub submit_short_fork_headers-IsSound :
      (headers : List BlockHeader) (commited : CommittedBlockHeader) (s : MainState) {t : MainState}
      {events : List Event}
      → IsClear p first commited
      → (v : IsSound p first s)
      → submit_short_fork_headers p clock keys headers commited s ≡ ok (t, events)
      → (v' : IsSound p first t) × (s.start_height ≤ t.start_height) × TipStep p first v.tip v'.tip
  unfolding submit_short_fork_headers
  submit_short_fork_headers-IsSound headers commited s clear v h =
      require_ok (not (is_empty headers)) no_headers _ h λ e0 h0.
        require_ok (length headers == length keys) invalid_remaining_accounts _ h0 λ e1 h1.
          bind_ok (get_commitment s commited.blockheight) _ h1 λ ancestor e2 h2.
            require_ok (bytes_eq (get_commit_hash p commited) ancestor) prev_block_commitment _ h2
              λ e3 h3.
                bind_ok
                  (header_loop p clock store_main (store_fork s.fork_counter) headers keys
                    (start_at p s commited commited.blockheight))
                  _ h3
                  λ d e4 h4.
                    require_ok (gt_arr d.last_commited_header.chain_work d.account.chain_work)
                      fork_too_short _ h4
                      λ e5 h5. bind_ok (checked_add 64 s.fork_counter 1) _ h5 λ counter e6 h6.
                        let (in_tree, under) =
                          get_commitment-InTree p first s commited.blockheight commited clear v
                            (e2 ∙ ap ok (sym (bytes_eq→eq _ _ e3))) in
                        let (commits, ran) =
                          header_loop-Ran p clock store_main (store_fork s.fork_counter) headers
                            keys _ refl e4 in
                        let (sound, up, tip, work) =
                          IsSound-of_Ran p clock keys first (store_fork s.fork_counter) headers
                            commited s d commits counter v in_tree refl under
                            (is_empty-pos headers e0) ran in
                        let same = ap (λ (r : MainState × List Event). r.0) (ok-injective h6) in
                        let more = rw (work ∙ v.work, ← (tip ∙ sym ran.tip)) at e5 in
                        rw (← same) (sound, up, overtakes sound.in_tree more)
