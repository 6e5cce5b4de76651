-- ===== src/Relayer/Blocks.antt =====
-- block_relayer/src/lib.rs: the loop of `relay_blocks_from_full_node`, round by round.
pub mod Round
use bitcoin_svm_bridge.Prelude.{ℕ, ◌+◌, ◌^◌, ◌%◌, checked_add, leb, if◌then◌else◌}
use bitcoin_svm_bridge.ArrayUtils.{Bytes}
use bitcoin_svm_bridge.Structs.{Platform}
use bitcoin_svm_bridge.State.{MainState}
use bitcoin_svm_bridge.Relayer.Node.{
  Call, done, error, crash, or_crash, BlockInfo, BitcoinRpc, Solana,
}
use bitcoin_svm_bridge.Relayer.Interaction.{
  reconstruct_commited_header, submit_block, SubmitBlockArgs, load_main_state,
}

-- what a round comes to: a pause in seconds before the next one, an instruction to send, or a panic
pub data Outcome : Type 0 where
  sleep : ℕ → Outcome
  send : SubmitBlockArgs → Outcome
  panics : Outcome

-- Each step of a round: an error is logged, and the next round starts ten seconds later.
abbrev pub or_sleep : {E X : Type 0} → Call E X → (X → Outcome) → Outcome
or_sleep (done x) next = next x
or_sleep (error e) next = sleep 10
or_sleep crash next = panics

module _ (p : Platform) {A E : Type 0} (solana : Solana A) (rpc : BitcoinRpc E) where
  -- from the main account on
  unfoldable pub next_block : MainState → Outcome
  next_block main =
      or_sleep
        (reconstruct_commited_header rpc main.tip_block_hash main.block_height
          main.last_diff_adjustment)
        λ commited_header. or_sleep rpc.get_best_block_hash λ best_block_hash.
          or_sleep (rpc.get_block_info best_block_hash) λ info.
            let rest =
              or_sleep (or_crash {E = E} (checked_add 32 commited_header.blockheight 1))
                λ new_height. or_sleep (rpc.get_block_hash new_height) λ hash.
                  or_sleep (rpc.get_block hash)
                    λ block. send (submit_block p block commited_header) in
            if leb (info.height % 2 ^ 32) commited_header.blockheight then sleep 30 else rest

  -- one round up to the instruction; sending it is up to Solana's client
  unfoldable pub relay_blocks_round : Outcome
  unfolding next_block
  relay_blocks_round = or_sleep solana.get_account λ raw_account.
      or_sleep (load_main_state solana.try_deserialize_unchecked raw_account) next_block

-- the pause before the next round, from what Solana's client answers to the instruction that was sent
abbrev pub pause_after : {A : Type 0} → Call A Bytes → Outcome
pause_after (done signature) = sleep 0
pause_after (error e) = sleep 10
pause_after crash = panics
