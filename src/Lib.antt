-- ===== src/Lib.antt =====
-- A model of the Bitcoin relay on Solana, of the relayer that feeds it, and of the faucet for tests.
--
-- The relay program (programs/btc-relay) keeps the tip of Bitcoin's chain of headers and the
-- commitments of its last 250 headers. Anyone submits headers on top of the tip, of an earlier
-- header (a short fork, in one instruction) or of a fork account (a fork of several instructions);
-- the program checks Bitcoin's rules for each header and lets the chain with more work win. A
-- transaction is then verified by a Merkle proof against a committed header. The relayer
-- (block_relayer) submits the headers and builds the Merkle proofs.
--
-- The parts and the files that model them:
--   Prelude         shared names; the outcomes of an instruction with the codes of
--                   programs/btc-relay/src/errors.rs, and checked arithmetic: Cargo.toml turns on
--                   overflow-checks, so an operation out of range panics; laws of bitwise operations
--   ArrayUtils      programs/btc-relay/src/arrayutils.rs: 256-bit numbers as 32 bytes
--   Structs         programs/btc-relay/src/structs.rs and events.rs: headers, hashes, events
--   State           programs/btc-relay/src/state.rs: the main account with its ring buffer
--                   (get_position, get_commitment, store_block_commitment) and a fork's account
--   Utils           programs/btc-relay/src/utils.rs: Target (target_to_nbits, nbits_to_target,
--                   get_difficulty), Retarget (compute_new_nbits, has_correct_difficulty_target),
--                   Median (is_larger_than_median), Header (verify_header), Merkle
--                   (compute_merkle)
--   Program         programs/btc-relay/src/lib.rs: Loop (the loop over the headers, which three
--                   instructions share), Submit (initialize, submit_block_headers,
--                   submit_short_fork_headers), Fork (submit_fork_headers),
--                   Transaction (verify_small_tx, init_big_tx_verify, store_tx_bytes,
--                   finalize_tx_processing, block_height, and from utils.rs bridge_deposit_script and
--                   bridge_mint_amount), Tree (the headers that descend from the first one), and Bridge (all
--                   instructions that change an account, with deposit and close_fork_account, on the
--                   program's accounts together, with the constraints that
--                   programs/btc-relay/src/instructions.rs puts on them, as a step relation)
--   TxUtils         utils/txutils.rs: read_var_int and parse_transaction
--   TxVerify        utils/txverify.rs: verify_tx_ix and check_tx_data
--   Faucet          btc_faucet/src/main.rs: request_funds with check_last_request, record_request and
--                   send_funds
--   Relayer         block_relayer/src: Merkle (Proof::create of merkle.rs), Node (the answers of the
--                   Bitcoin node and of Solana), Interaction (relay_program_interaction.rs:
--                   reconstruct_commited_header and the instructions of init_program, submit_block
--                   and relay_tx), Blocks (a round of relay_blocks_from_full_node of lib.rs), Web
--                   (run_init_program and the HTTP handlers relay_tx_web_api and
--                   get_deposit_address of lib.rs)
--   Tests           concrete inputs
--
-- An instruction is a function from the accounts that it reads to a result with the accounts that
-- it writes and its events. A failure is a code of the program, an error of the runtime's loader or
-- a panic; the runtime then rolls the writes back, so a failure carries no state. Numbers are
-- natural numbers with the width of the source written out where it matters; a byte array is a list,
-- and its length and the range of its bytes are hypotheses of the laws.
--
-- The record Structs.Platform holds what the program takes from its libraries: serialisation,
-- SHA-256, the address derived for a header, and the feature bitcoin_testnet. The theorems hold for
-- every such record; verify_header_iff asks that a hash has 32 bytes.
--
-- The ring buffer stands for a function from heights to commitments (State.Commitment). A reorg to a
-- lower height leaves stale commitments behind, so the relation has a lower bound from which on the
-- buffer is right.
--
-- The account of a fork stands for a list of commitments that grows at its end (State.Fork); that a
-- commitment determines its header is a hypothesis, for the one pair of headers that needs it. Program.Tree
-- follows all headers that descend from the first one by accepted headers, whichever of them the
-- buffer holds; there the hypothesis is on the committed headers that are passed to instructions, which
-- the property Passed of the step relation stands for.
--
-- Loops are recursion on the list that they walk. The relayer's `while` loop runs on fuel, and the
-- length of the level is enough, since each round halves it.
--
-- Transactions are those of the bitcoin crate: their decoding, ids, outputs and script addresses are the
-- record Program.Transaction.BitcoinCrate. In Program.Transaction an account that an instruction
-- writes is an argument and a part of the result; Program.Bridge keeps the accounts in one state, where
-- the accounts of big transactions are a function from transaction ids, those of forks one from the
-- fork's id and the signer, and the wallets one from keys.
-- The lamports of the deposit account stand apart from the wallets, since an instruction that names
-- the deposit account as the receiver too is refused by the runtime. A payment that leaves the deposit
-- account without lamports removes it.
--
-- utils/txutils.rs reads from an offset of the data; TxUtils.Layout is the serialisation that Bitcoin
-- prescribes. The counter of inputs with an empty script is an i32, so the round trips ask for data
-- of less than 2 GiB.
--
-- The node and Solana's client are records of calls, each of which answers a value or an error; of a
-- block only the header is read. A function of the relayer ends at the instruction that it sends, since
-- what becomes of that is the program's part; in Relayer.Web the sending is an argument. The relayer's
-- own sums and differences panic on overflow, as in the profile of `cargo run`, with which
-- block_relayer/README.md starts it.
--
-- The faucet's table is a list of rows; whether the database can be read and written, the clock and
-- the node's answer belong to each request.
--
-- Not modelled: in block_relayer/src, how the clients are made, the configuration, the command line and
-- the start of the HTTP server, which are calls of libraries, and init_deposit, which nothing calls; the
-- start of the faucet's service; the tests and forms.
pub mod Prelude
pub mod ArrayUtils
pub mod Structs
pub mod State
pub mod Utils
pub mod Program
pub mod Relayer
pub mod TxUtils
pub mod TxVerify
pub mod Faucet
pub mod Tests
