-- ===== src/Relayer/Web.antt =====
-- block_relayer/src/lib.rs: the two handlers of the relayer's HTTP server, and `run_init_program`. The
-- parsers, the text of an address and the sending of an instruction belong to libraries.
pub mod Served
pub mod Started
use bitcoin_svm_bridge.Prelude.{
  ℕ, ◌^◌, ◌%◌, List, [], ◌∷◌, Option, none, some, Result, ok, fail, panic,
}
use bitcoin_svm_bridge.ArrayUtils.{Bytes}
use bitcoin_svm_bridge.Structs.{Platform, Pubkey}
use bitcoin_svm_bridge.Program.Transaction.{
  BitcoinCrate, BuilderStep, bitcoin_deposit_pubkey, bridge_deposit_script,
}
use bitcoin_svm_bridge.Relayer.Node.{Call, done, error, crash, ◌>>=◌, map_err, BitcoinRpc, Solana}
use bitcoin_svm_bridge.Relayer.Interaction.{
  InitializeArgs, init_program, RelayTxError, anchor, VerifySmallTxArgs, relay_tx,
}

-- `from_str` of a transaction id and of an account's address, and the text of the p2wsh address of a
-- built script on the network that the source names
pub record Texts : Type 0 where
  pub txid_from_str : Bytes → Option Bytes
  pub pubkey_from_str : Bytes → Option Pubkey
  pub p2wsh_address : List BuilderStep → Bytes

pub data HttpResponse : Type 0 where
  tx_id_is_not_valid : HttpResponse
  yona_address_is_not_valid : HttpResponse
  failed_to_relay : HttpResponse
  relayed : (signature : Bytes) → HttpResponse
  deposit_address : (address : Bytes) → HttpResponse

-- The end of a request to relay: an error is logged, and a panic of the task is one of the handler.
abbrev pub relay_response : {F : Type 0} → Call F Bytes → Result HttpResponse
relay_response (done sig) = ok (relayed sig)
relay_response (error e) = ok failed_to_relay
relay_response crash = fail panic

module _ (p : Platform) {A E : Type 0} (texts : Texts) (solana : Solana A) (rpc : BitcoinRpc E)
    (send : Pubkey → VerifySmallTxArgs → Call A Bytes) where
  -- `relay_tx` with the sending of its instruction
  unfoldable pub relay_and_send : Bytes → Pubkey → Call (RelayTxError A E) Bytes
  relay_and_send tx_id mint_receiver =
      relay_tx p solana rpc tx_id >>= λ args. map_err anchor (send mint_receiver args)

  abbrev pub relay_to : Bytes → Option Pubkey → Result HttpResponse
  relay_to tx_id none = ok yona_address_is_not_valid
  relay_to tx_id (some mint_receiver) = relay_response (relay_and_send tx_id mint_receiver)

  abbrev pub relay_parsed : Option Bytes → Option Pubkey → Result HttpResponse
  relay_parsed none mint_receiver = ok tx_id_is_not_valid
  relay_parsed (some tx_id) mint_receiver = relay_to tx_id mint_receiver

  unfoldable pub relay_tx_web_api : Bytes → Bytes → Result HttpResponse
  unfolding relay_and_send
  relay_tx_web_api tx_id yona_address =
      relay_parsed (texts.txid_from_str tx_id) (texts.pubkey_from_str yona_address)

module _ {Transaction : Type 0} (b : BitcoinCrate Transaction) (texts : Texts) where
  abbrev pub address_for : Option Pubkey → HttpResponse
  address_for none = yona_address_is_not_valid
  address_for (some yona_address) =
      deposit_address (
        texts.p2wsh_address (bridge_deposit_script yona_address (b.hash160 bitcoin_deposit_pubkey)))

  -- The public key is the program's constant, whose text parses.
  unfoldable pub get_deposit_address : Bytes → HttpResponse
  get_deposit_address yona_address = address_for (texts.pubkey_from_str yona_address)

-- a tip of one of the chains that the node knows
pub record ChainTip : Type 0 where
  pub hash : Bytes
  pub height : ℕ

-- `C` are the errors of making a client for Solana, `A` those of the client, `E` those of the node's.
pub data InitProgramError (C A E : Type 0) : Type 0 where
  init_anchor : A → InitProgramError C A E
  init_bitcoin : E → InitProgramError C A E
  could_not_init_yona_client : C → InitProgramError C A E

-- `remove(0)`
abbrev pub first_tip : {F : Type 0} → List ChainTip → Call F ChainTip
first_tip [] = crash
first_tip (tip ∷ tips) = done tip

module _ {C A E : Type 0} (get_yona_client : Call C (Unit {0}))
    (bitcoind_client : Call E (Unit {0})) (program : Call A (Unit {0}))
    (get_chain_tips : Call E (List ChainTip)) (rpc : BitcoinRpc E)
    (send : InitializeArgs → Call A Bytes) where
  unfoldable pub run_init_program : Call (InitProgramError C A E) Bytes
  run_init_program = do
    yona_client ← map_err could_not_init_yona_client get_yona_client
    client ← map_err init_bitcoin bitcoind_client
    relay_program ← map_err init_anchor program
    tips ← map_err init_bitcoin get_chain_tips
    tip ← first_tip tips
    last_block ← map_err init_bitcoin (rpc.get_block tip.hash)
    map_err init_anchor (send (init_program last_block (tip.height % 2 ^ 32)))
