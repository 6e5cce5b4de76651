-- ===== src/Relayer/Interaction/Rebuilt.antt =====
-- The committed header that the relayer rebuilds from the node, against the one that the program
-- has committed.
use bitcoin_svm_bridge.Prelude.{
  ℕ, suc, ◌-◌, ◌≤◌, ◌<◌, ◌≡◌, ◌≢◌, ◌↔◌, refl, sym, ap, ◌∙◌, List, ok, not, no_headers,
  invalid_remaining_accounts, prev_block_commitment, bytes_eq, bytes_eq→eq, bind_ok, require_ok, ℤ,
  ◌==◌, length, replicate,
}
use bitcoin_svm_bridge.ArrayUtils.{Bytes}
use bitcoin_svm_bridge.Structs.{
  Platform, Pubkey, BlockHeader, CommittedBlockHeader, Event, get_commit_hash, zero_hash,
}
use bitcoin_svm_bridge.State.{MainState, get_commitment}
use bitcoin_svm_bridge.State.Commitment.{History}
use bitcoin_svm_bridge.Program.Submit.{is_empty, initialize, submit_block_headers}
use bitcoin_svm_bridge.Program.Submit.Main.{IsValid}
use bitcoin_svm_bridge.Program.Submit.Initialize.{first_commited}
use bitcoin_svm_bridge.Program.Submit.Accepted.{get_commitment-tip}
use bitcoin_svm_bridge.Relayer.Node.{
  bind_done, done-injective, done, Block, Header, BitcoinRpc, yona_block_header,
}
use bitcoin_svm_bridge.Relayer.Interaction.Timestamps.{
  HasBlock, times_before, times_before-replicate, reconstruct_lem,
}
use bitcoin_svm_bridge.Relayer.Interaction.{
  fill_timestamps, reconstruct_commited_header, init_program, InitializeArgs,
}

-- the account that `initialize` leaves when it is called with these arguments
abbrev pub initialized_by : Platform → InitializeArgs → MainState
initialized_by p args =
    (initialize p args.data_header args.block_height args.chain_work args.last_diff_adjustment
      args.prev_block_timestamps).0

-- the header that the program then commits
abbrev pub initial_header : Block → ℕ → CommittedBlockHeader
initial_header block height =
    first_commited (yona_block_header block.header) height zero_hash block.header.time
      (replicate 10 block.header.time)

-- the header that the relayer rebuilds where the node's blocks have these times
abbrev pub rebuilt_header : Header → ℕ → ℕ → (ℕ → ℕ) → CommittedBlockHeader
rebuilt_header header height last_diff_adjustment times =
    first_commited (yona_block_header header) height zero_hash last_diff_adjustment
      (times_before times height 10)

module _ {E : Type 0} (rpc : BitcoinRpc E) (hash : Bytes) (height last_diff_adjustment : ℕ) where
  -- Of the node's answers only the header and the timestamps go into the rebuilt header.
  pub reconstruct-eq-done :
      {c : CommittedBlockHeader}
      → reconstruct_commited_header rpc hash height last_diff_adjustment ≡ done c
      → (header : Header) × (rpc.get_block_header hash ≡ done header)
        × (c
            ≡ first_commited
                (yona_block_header header)
                height
                zero_hash
                last_diff_adjustment
                c.prev_block_timestamps)
  unfolding reconstruct_commited_header
  reconstruct-eq-done {c} h =
      let (header, e0, h0) = bind_done (rpc.get_block_header hash) h in
      let (timestamps, e1, h1) = bind_done (fill_timestamps rpc 10 height 0 (replicate 10 0)) h0 in
      (header, e0, rw (← done-injective h1) refl)

module _ (p : Platform) {E : Type 0} (rpc : BitcoinRpc E) where
  -- For a block of a height from 10 on, where the node has a block of a known time at every height below
  -- and answers for the block's hash with its header: the relayer rebuilds a header for it, and behind
  -- `initialize` with the arguments of `init_program` for the block this header has the commitment that
  -- the program keeps for its tip exactly if each of the ten blocks before it has the time of the block
  -- itself. This asks that the rebuilt header has the commitment of the first one only if the two are
  -- the same.
  pub reconstruct-init_program :
      (hash : Bytes) (block : Block) (height : ℕ) (times : ℕ → ℕ)
      → 10 ≤ height
      → ((h : ℕ) → h < height → HasBlock rpc h (times h))
      → rpc.get_block_header hash ≡ done block.header
      → (get_commit_hash p (rebuilt_header block.header height block.header.time times)
            ≡ get_commit_hash p (initial_header block height)
          → rebuilt_header block.header height block.header.time times
            ≡ initial_header block height)
      → (c : CommittedBlockHeader) × (reconstruct_commited_header rpc hash height
            (initialized_by p (init_program block height)).last_diff_adjustment
          ≡ done c)
        × ((get_commit_hash p c ≡ (initialized_by p (init_program block height)).tip_commit_hash)
            ↔ ((k : ℕ) → k < 10 → times (height - suc k) ≡ block.header.time))
  unfolding init_program initialize
  reconstruct-init_program hash block height times tall before found no_collision =
      let (together, each) = times_before-replicate times height 10 block.header.time in
      (
        rebuilt_header block.header height block.header.time times,
        reconstruct_lem rpc height times before hash block.header block.header.time tall found,
        (
          λ e.
              together
                (ap (λ (x : CommittedBlockHeader). x.prev_block_timestamps) (no_collision e)),
          λ all. rw (each all) refl,
        ),
      )

  -- While the tip of a valid account has any work, every header that the relayer rebuilds for a
  -- submission is refused: no `submit_block_headers` with it succeeds, whatever the headers. This asks
  -- that the rebuilt header has the tip's commitment only if it is the tip.
  pub reconstruct-submit_block_headers :
      {lo : ℕ} {hist : History} (clock : ℤ) (keys : List Pubkey) (headers : List BlockHeader)
      (hash : Bytes) (s : MainState) (tip : CommittedBlockHeader) {c : CommittedBlockHeader}
      (r : MainState × List Event)
      → IsValid lo hist s
      → s.tip_commit_hash ≡ get_commit_hash p tip
      → tip.chain_work ≢ zero_hash
      → reconstruct_commited_header rpc hash s.block_height s.last_diff_adjustment ≡ done c
      → (get_commit_hash p c ≡ get_commit_hash p tip → c ≡ tip)
      → submit_block_headers p clock keys headers c s ≢ ok r
  unfolding submit_block_headers
  reconstruct-submit_block_headers clock keys headers hash s tip {c} r v at_tip work h no_collision
        e =
      require_ok (not (is_empty headers)) no_headers _ e λ e0 h0.
        require_ok (length headers == length keys) invalid_remaining_accounts _ h0 λ e1 h1.
          bind_ok (get_commitment s s.block_height) _ h1 λ kept e2 h2.
            require_ok (bytes_eq (get_commit_hash p c) kept) prev_block_commitment _ h2 λ e3 h3.
              let (header, _, same) =
                reconstruct-eq-done rpc hash s.block_height s.last_diff_adjustment h in
              let is_tip =
                no_collision (bytes_eq→eq _ _ e3 ∙ get_commitment-tip v e2 ∙ sym v.tip ∙ at_tip) in
              work (ap (λ (x : CommittedBlockHeader). x.chain_work) (sym is_tip ∙ same))
