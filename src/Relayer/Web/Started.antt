-- ===== src/Relayer/Web/Started.antt =====
-- The account that `run_init_program` (lib.rs) sets up.
use bitcoin_svm_bridge.Prelude.{◌^◌, ◌%◌, ◌≡◌, replicate, List, [], ◌∷◌}
use bitcoin_svm_bridge.ArrayUtils.{Bytes}
use bitcoin_svm_bridge.Structs.{Platform, get_commit_hash, zero_hash}
use bitcoin_svm_bridge.Program.Submit.Main.{IsValid}
use bitcoin_svm_bridge.Program.Submit.Initialize.{initialize-IsValid}
use bitcoin_svm_bridge.Program.Tree.{IsSound}
use bitcoin_svm_bridge.Program.Tree.Start.{initialize-IsSound}
use bitcoin_svm_bridge.Relayer.Node.{
  Call, done, map_err, bind_done, map_err_done, Block, BitcoinRpc, yona_block_header,
}
use bitcoin_svm_bridge.Relayer.Interaction.{InitializeArgs, init_program}
use bitcoin_svm_bridge.Relayer.Interaction.Rebuilt.{initialized_by, initial_header}
use bitcoin_svm_bridge.Relayer.Web.{
  ChainTip, init_anchor, init_bitcoin, could_not_init_yona_client, first_tip, run_init_program,
}

first_tip_done :
    {F : Type 0} (tips : List ChainTip) {tip : ChainTip}
    → ◌≡◌ {A = Call F ChainTip} (first_tip tips) (done tip)
    → (rest : List ChainTip) × (tips ≡ tip ∷ rest)
first_tip_done [] h = cc
first_tip_done (tip ∷ tips) h = (tips, cc)

module _ (p : Platform) {C A E : Type 0} (get_yona_client : Call C (Unit {0}))
    (bitcoind_client : Call E (Unit {0})) (program : Call A (Unit {0}))
    (get_chain_tips : Call E (List ChainTip)) (rpc : BitcoinRpc E)
    (send : InitializeArgs → Call A Bytes) where
  -- what was sent, and the account behind `initialize` for it
  pub record HasStarted (sig : Bytes) : Type 0 where
    pub tip : ChainTip
    pub others : List ChainTip
    pub block : Block
    pub tips : get_chain_tips ≡ done (tip ∷ others)
    pub found : rpc.get_block tip.hash ≡ done block
    pub sent : send (init_program block (tip.height % 2 ^ 32)) ≡ done sig
    pub valid :
        IsValid
          (tip.height % 2 ^ 32)
          (λ height. get_commit_hash p (initial_header block (tip.height % 2 ^ 32)))
          (initialized_by p (init_program block (tip.height % 2 ^ 32)))
    pub sound :
        IsSound p
          (initial_header block (tip.height % 2 ^ 32))
          (initialized_by p (init_program block (tip.height % 2 ^ 32)))

  -- A `run_init_program` that answers with a signature has sent, with that signature, an instruction
  -- made of the node's block at its first tip and the tip's height; the account that `initialize`
  -- leaves for the arguments of this instruction is valid for the chain of this one block, and
  -- sound with this block, of work zero, for the first header.
  pub run_init_program-HasStarted :
      {sig : Bytes}
      → run_init_program get_yona_client bitcoind_client program get_chain_tips rpc send ≡ done sig
      → HasStarted sig
  unfolding run_init_program init_program
  run_init_program-HasStarted h =
      let (_, e0, h0) = bind_done (map_err could_not_init_yona_client get_yona_client) h in
      let (_, e1, h1) = bind_done (map_err init_bitcoin bitcoind_client) h0 in
      let (_, e2, h2) = bind_done (map_err init_anchor program) h1 in
      let (tips, e3, h3) = bind_done (map_err init_bitcoin get_chain_tips) h2 in
      let (tip, e4, h4) = bind_done (first_tip tips) h3 in
      let (block, e5, h5) = bind_done (map_err init_bitcoin (rpc.get_block tip.hash)) h4 in
      let (others, split) = first_tip_done tips e4 in
      let time = block.header.time in
      record {
        tip = tip;
        others = others;
        block = block;
        tips = map_err_done init_bitcoin get_chain_tips (rw split at e3);
        found = map_err_done init_bitcoin (rpc.get_block tip.hash) e5;
        sent = map_err_done init_anchor _ h5;
        valid =
            initialize-IsValid p (yona_block_header block.header) (tip.height % 2 ^ 32) zero_hash
              time (replicate 10 time);
        sound =
            (initialize-IsSound p (yona_block_header block.header) (tip.height % 2 ^ 32) zero_hash
              time (replicate 10 time)).0;
      }
