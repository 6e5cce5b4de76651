-- ===== src/Relayer/Web/Served.antt =====
-- What the handlers of the relayer's HTTP server (lib.rs) answer, and what the relay program makes of it.
use native.Mathlib.Nat.{zero-add, add-zero, add_assoc}
use bitcoin_svm_bridge.Prelude.{
  ℕ, ◌+◌, ◌^◌, ◌<◌, ◌≡◌, ◌↔◌, refl, ap, ◌∙◌, List, [], ◌∷◌, Option, none, some, Result, ok, fail,
  panic, bytes_eq, checked_add_of_lt, Bool-cases, inl, inr, arith,
}
use bitcoin_svm_bridge.ArrayUtils.{Bytes}
use bitcoin_svm_bridge.Structs.{Platform, Pubkey}
use bitcoin_svm_bridge.State.{MainState}
use bitcoin_svm_bridge.Program.Transaction.{
  bitcoin_deposit_pubkey, bridge_deposit_script, TxOut, BuilderStep, BitcoinCrate, sum_outputs,
  expected_script_pubkey, bridge_mint_amount, check_merkle,
}
use bitcoin_svm_bridge.Program.Transaction.Payout.{deposited}
use bitcoin_svm_bridge.Relayer.Node.{
  Call, done, error, crash, bind_done, map_err, map_err_done, BitcoinRpc, Solana,
}
use bitcoin_svm_bridge.Relayer.Interaction.{
  RelayTxError, anchor, load_main_state, VerifySmallTxArgs, relay_tx,
}
use bitcoin_svm_bridge.Relayer.Interaction.Sent.{IsMined, relay_tx-check_merkle}
use bitcoin_svm_bridge.Relayer.Web.{
  Texts, HttpResponse, failed_to_relay, relayed, deposit_address, relay_response, relay_parsed,
  relay_and_send, relay_tx_web_api, get_deposit_address,
}

-- Without overflow the sum is that of all outputs with the script.
sum_outputs-eq :
    (expected : Bytes) (outs : List TxOut) (total : ℕ)
    → total + deposited expected outs < 2 ^ 64
    → sum_outputs expected outs total ≡ ok (total + deposited expected outs)
unfolding sum_outputs
sum_outputs-eq expected [] total small = rw (add-zero total)
sum_outputs-eq expected (out ∷ outs) total small =
    elim (Bool-cases (bytes_eq out.script_pubkey expected)) [
      | inl e ↦
          let small' : total + out.value + deposited expected outs < 2 ^ 64 =
            omega (arith, rw e at small) in
          let step = checked_add_of_lt 64 total out.value (omega arith) in
          rw
            (
              e,
              step,
              sum_outputs-eq expected outs (total + out.value) small',
              add_assoc total out.value,
            )
            refl
      | inr e ↦ rw e (sum_outputs-eq expected outs total (rw e at small))
    ]

sum_outputs_from_zero :
    (expected : Bytes) (outs : List TxOut)
    → deposited expected outs < 2 ^ 64
    → sum_outputs expected outs 0 ≡ ok (deposited expected outs)
sum_outputs_from_zero expected outs small =
    let none_before = zero-add (deposited expected outs) in
    sum_outputs-eq expected outs 0 (rw none_before small) ∙ ap ok none_before

module _ {Transaction : Type 0} (b : BitcoinCrate Transaction) (texts : Texts)
    (script_of : Bytes → Option Bytes)
    (readable : (script : List BuilderStep)
      → script_of (texts.p2wsh_address script) ≡ some (b.p2wsh_script_pubkey script)) where
  -- To every request whose text names an account, the handler answers with a deposit address, and the
  -- relay program counts for that account all that a transaction pays to the script of the address, if it
  -- is less than 2^64. This asks that `script_of` reads from the text of a p2wsh address the output
  -- script of the address.
  pub get_deposit_address-bridge_mint_amount :
      (yona_address : Bytes) (receiver : Pubkey)
      → texts.pubkey_from_str yona_address ≡ some receiver
      → (address script : Bytes) × (get_deposit_address b texts yona_address
          ≡ deposit_address address)
        × (script_of address ≡ some script)
        × ((bitcoin_tx : Transaction)
            → deposited script (b.output bitcoin_tx) < 2 ^ 64
            → bridge_mint_amount b bitcoin_tx receiver
              ≡ ok (deposited script (b.output bitcoin_tx)))
  unfolding get_deposit_address bridge_mint_amount
  get_deposit_address-bridge_mint_amount yona_address receiver parsed = (
    texts.p2wsh_address (bridge_deposit_script receiver (b.hash160 bitcoin_deposit_pubkey)),
    expected_script_pubkey b receiver,
    rw parsed refl,
    readable _,
    λ bitcoin_tx small.
        sum_outputs_from_zero (expected_script_pubkey b receiver) (b.output bitcoin_tx) small,
  )

-- what a request to relay is answered with, by what Solana's client answers to the instruction
abbrev pub answer_to : {A : Type 0} → Call A Bytes → Result HttpResponse
answer_to (done sig) = ok (relayed sig)
answer_to (error e) = ok failed_to_relay
answer_to crash = fail panic

response-answer_to :
    {A : Type 0} (E : Type 0) (m : Call A Bytes)
    → relay_response (map_err {F = RelayTxError A E} anchor m) ≡ answer_to m
response-answer_to E (done sig) = refl
response-answer_to E (error e) = refl
response-answer_to E crash = refl

module _ (p : Platform) {A E : Type 0} (texts : Texts) (solana : Solana A) (rpc : BitcoinRpc E)
    (send : Pubkey → VerifySmallTxArgs → Call A Bytes) where
  -- what was sent for a request that was answered with this signature
  pub record IsRelayed (tx_id yona_address sig : Bytes) : Type 0 where
    pub named : Bytes
    pub receiver : Pubkey
    pub args : VerifySmallTxArgs
    pub id_parsed : texts.txid_from_str tx_id ≡ some named
    pub address_parsed : texts.pubkey_from_str yona_address ≡ some receiver
    pub made : relay_tx p solana rpc named ≡ done args
    pub accepted : send receiver args ≡ done sig

  answered :
      {F : Type 0} (m : Call F Bytes) {sig : Bytes}
      → relay_response m ≡ ok (relayed sig)
      → m ≡ done sig
  answered (done x) h = cc
  answered (error e) h = cc
  answered crash h = cc

  relay-IsRelayed :
      (tx_id yona_address : Bytes) (id : Option Bytes) (receiver : Option Pubkey) {sig : Bytes}
      → texts.txid_from_str tx_id ≡ id
      → texts.pubkey_from_str yona_address ≡ receiver
      → relay_parsed p texts solana rpc send id receiver ≡ ok (relayed sig)
      → IsRelayed tx_id yona_address sig
  unfolding relay_and_send
  relay-IsRelayed tx_id yona_address none receiver e0 e1 h = cc
  relay-IsRelayed tx_id yona_address (some id) none e0 e1 h = cc
  relay-IsRelayed tx_id yona_address (some id) (some receiver) e0 e1 h =
      let (args, made, rest) = bind_done (relay_tx p solana rpc id) (answered _ h) in
      record {
        named = id;
        receiver = receiver;
        args = args;
        id_parsed = e0;
        address_parsed = e1;
        made = made;
        accepted = map_err_done anchor (send receiver args) rest;
      }

  -- A request to relay is answered with a signature just if both of its texts parse, `relay_tx` makes an
  -- instruction for them, and Solana's client sends it with that signature.
  pub relay_tx_web_api-relayed :
      (tx_id yona_address sig : Bytes)
      → (relay_tx_web_api p texts solana rpc send tx_id yona_address ≡ ok (relayed sig))
        ↔ IsRelayed tx_id yona_address sig
  unfolding relay_tx_web_api relay_and_send
  relay_tx_web_api-relayed tx_id yona_address sig = (
    λ h. relay-IsRelayed tx_id yona_address _ _ refl refl h,
    λ r. rw (r.id_parsed, r.address_parsed, r.made, r.accepted) refl,
  )

  -- Every request to relay a transaction that the node reports in a block of a height between 10 and
  -- 2^32, with the blocks before it, makes an instruction while the main account can be read: it has
  -- the transaction's data, and its Merkle proof passes the relay program's check for the
  -- transaction's id. The request is answered as Solana's client answers to this instruction for the
  -- receiver that was named: with the signature, with a failure to relay for an error, and a panic of
  -- the client is one of the handler.
  pub relay_tx_web_api_relays :
      (text yona_address tx_id hex account : Bytes) (receiver : Pubkey) (place : ℕ)
      (main : MainState)
      → texts.txid_from_str text ≡ some tx_id
      → texts.pubkey_from_str yona_address ≡ some receiver
      → solana.get_account ≡ done account
      → load_main_state solana.try_deserialize_unchecked account ≡ done main
      → IsMined p rpc tx_id hex place
      → (args : VerifySmallTxArgs) × (relay_tx_web_api p texts solana rpc send text yona_address
          ≡ answer_to (send receiver args))
        × (args.tx_bytes ≡ hex)
        × (check_merkle p tx_id args.tx_index args.reversed_merkle_proof args.commited_header
            ≡ ok tt)
  unfolding relay_tx_web_api relay_and_send
  relay_tx_web_api_relays text yona_address tx_id hex account receiver place main id_parsed
        address_parsed got read mined =
      let (args, made, same_hex, checked) =
        relay_tx-check_merkle p solana rpc tx_id hex account place main got read mined in
      (
        args,
        rw (id_parsed, address_parsed, made) (response-answer_to E (send receiver args)),
        same_hex,
        checked,
      )
