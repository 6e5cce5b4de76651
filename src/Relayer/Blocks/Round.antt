-- ===== src/Relayer/Blocks/Round.antt =====
-- A round of the relayer and the relay program together.
use bitcoin_svm_bridge.Prelude.{
  ℕ, ◌+◌, ◌^◌, ◌%◌, ◌≤◌, ◌<◌, ◌≡◌, refl, sym, ap, ◌∙◌, List, [], ◌∷◌, false, ok, ℤ, leb, arith,
  checked_add, checked_add_of_lt,
}
use bitcoin_svm_bridge.ArrayUtils.{Bytes}
use bitcoin_svm_bridge.Structs.{
  Platform, BlockHeader, zero_hash, CommittedBlockHeader, Event, get_block_hash, get_commit_hash,
}
use bitcoin_svm_bridge.State.{MainState}
use bitcoin_svm_bridge.State.Commitment.{History}
use bitcoin_svm_bridge.Utils.Header.{verify_header}
use bitcoin_svm_bridge.Utils.Header.Rules.{verify_header_result}
use bitcoin_svm_bridge.Program.Submit.{submit_block_headers}
use bitcoin_svm_bridge.Program.Submit.Main.{IsValid}
use bitcoin_svm_bridge.Program.Submit.Accepted.{submit_block_headers_extends}
use bitcoin_svm_bridge.Program.Submit.Complete.{submit_block_headers_succeeds}
use bitcoin_svm_bridge.Relayer.Node.{
  Header, done, Block, BlockInfo, BitcoinRpc, Solana, yona_block_header,
}
use bitcoin_svm_bridge.Relayer.Interaction.{
  reconstruct_commited_header, SubmitBlockArgs, submit_block, load_main_state,
}
use bitcoin_svm_bridge.Program.Submit.Initialize.{first_commited}
use bitcoin_svm_bridge.Relayer.Interaction.Timestamps.{HasBlock, times_before, reconstruct_lem}
use bitcoin_svm_bridge.Relayer.Blocks.{send, next_block, relay_blocks_round}

-- The node has the tip's header, the ten blocks before it with the tip's timestamps, and a block on top
-- of it, which the program accepts at the time `clock` as the header `next`.
pub record IsAhead (p : Platform) {E : Type 0} (rpc : BitcoinRpc E) (clock : ℤ) (s : MainState)
    (tip next : CommittedBlockHeader) : Type 0 where
  pub best_hash : Bytes
  pub best : BlockInfo
  pub hash : Bytes
  pub block : Block
  pub header : Header
  pub times : ℕ → ℕ
  pub tip_named : rpc.get_block_header s.tip_block_hash ≡ done header
  pub same_header : yona_block_header header ≡ tip.header
  pub before : (h : ℕ) → h < s.block_height → HasBlock rpc h (times h)
  pub timestamps : tip.prev_block_timestamps ≡ times_before times s.block_height 10
  pub best_named : rpc.get_best_block_hash ≡ done best_hash
  pub best_found : rpc.get_block_info best_hash ≡ done best
  pub higher : s.block_height < best.height
  pub height : best.height < 2 ^ 32
  pub named : rpc.get_block_hash (s.block_height + 1) ≡ done hash
  pub found : rpc.get_block hash ≡ done block
  pub link : get_block_hash p tip.header ≡ block.header.prev_blockhash
  pub accepted :
      verify_header p clock
        (yona_block_header block.header)
        tip
        (p.find_header_topic (get_block_hash p (yona_block_header block.header)))
      ≡ ok (get_block_hash p (yona_block_header block.header), next)

same_fields :
    {header : BlockHeader} {height last_diff_adjustment : ℕ} {timestamps : List ℕ}
    {tip : CommittedBlockHeader}
    → header ≡ tip.header
    → tip.blockheight ≡ height
    → tip.chain_work ≡ zero_hash
    → tip.last_diff_adjustment ≡ last_diff_adjustment
    → tip.prev_block_timestamps ≡ timestamps
    → first_commited header height zero_hash last_diff_adjustment timestamps ≡ tip
same_fields e0 e1 e2 e3 e4 = λ i. record {
  chain_work = sym e2 i;
  header = e0 i;
  last_diff_adjustment = sym e3 i;
  blockheight = sym e1 i;
  prev_block_timestamps = sym e4 i;
}

module _ (p : Platform) {A E : Type 0} (solana : Solana A) (rpc : BitcoinRpc E) (clock : ℤ) where
  -- While the program's account is valid with a tip from 250 on that has no work, with the tip's
  -- commitment, height and last adjustment; its count of blocks has room; the account can be read; the
  -- node has the tip's header and a block at every height below, of which the last ten have the tip's
  -- timestamps; and the node's best block lies above the tip, below 2^32, and the block on top of the
  -- tip names it and is one that the program accepts: a round of the relayer sends an instruction, the
  -- program accepts it, and the main chain is one block longer.
  pub relay_blocks_round-submit_block_headers :
      {lo : ℕ} {hist : History} (account : Bytes) (s : MainState) (tip next : CommittedBlockHeader)
      → solana.get_account ≡ done account
      → load_main_state solana.try_deserialize_unchecked account ≡ done s
      → IsValid lo hist s
      → 250 ≤ s.block_height
      → s.total_blocks + 1 < 2 ^ 32
      → s.tip_commit_hash ≡ get_commit_hash p tip
      → tip.chain_work ≡ zero_hash
      → tip.blockheight ≡ s.block_height
      → tip.last_diff_adjustment ≡ s.last_diff_adjustment
      → IsAhead p rpc clock s tip next
      → (args : SubmitBlockArgs) × (relay_blocks_round p solana rpc ≡ send args)
        × (t : MainState) × (events : List Event) × (submit_block_headers p clock
              args.remaining_accounts args.headers args.commited_header s
            ≡ ok (t, events))
        × (t.block_height ≡ s.block_height + 1)
  unfolding relay_blocks_round next_block submit_block
  relay_blocks_round-submit_block_headers account s tip next got read v high room at_tip no_work
        tall adjusted ahead =
      let header = yona_block_header ahead.block.header in
      let keys = p.find_header_topic (get_block_hash p header) ∷ [] in
      let rebuilt : reconstruct_commited_header rpc s.tip_block_hash s.block_height
            s.last_diff_adjustment
          ≡ done tip =
        reconstruct_lem rpc s.block_height ahead.times ahead.before s.tip_block_hash ahead.header
          s.last_diff_adjustment (omega arith) ahead.tip_named
        ∙ ap done (same_fields ahead.same_header tall no_work adjusted ahead.timestamps) in
      let (_, same_header, _) =
        verify_header_result p clock header tip (p.find_header_topic (get_block_hash p header))
          ahead.accepted in
      let small : checked_add 32 s.block_height 1 ≡ ok (s.block_height + 1) =
        checked_add_of_lt 32 s.block_height 1 (omega (arith, ahead.higher, ahead.height)) in
      let new : leb (ahead.best.height % 2 ^ 32) s.block_height ≡ false =
        ground (arith, ahead.higher, ahead.height) in
      let (t, events, ran) =
        submit_block_headers_succeeds p clock keys (header ∷ []) tip (next ∷ []) s v high
          (sym at_tip ∙ v.tip) (omega arith) refl (ahead.link, ahead.accepted, same_header, tt)
          (omega (arith, ahead.higher, ahead.height)) (omega arith) in
      let (_, extended, _) = submit_block_headers_extends p clock keys (header ∷ []) tip s v ran in
      (
        submit_block p ahead.block tip,
        rw
            (
              got, read, rebuilt, ahead.best_named, ahead.best_found, tall, new, small, ahead.named,
              ahead.found,
            )
            refl,
        t,
        events,
        ran,
        extended.height,
      )
