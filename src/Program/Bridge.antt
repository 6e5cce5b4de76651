-- ===== src/Program/Bridge.antt =====
-- The accounts of the program between instructions, with the constraints of
-- programs/btc-relay/src/instructions.rs on the accounts of big transactions, of forks and of deposits,
-- and the steps that change them.
pub mod Steps
pub mod Runs
pub mod Lasting
pub mod Sound
pub mod Descent
use bitcoin_svm_bridge.Prelude.{
  ◌==◌, ◌&&◌, replicate, ℕ, ◌+◌, ◌-◌, not, ◌≤◌, ◌≡◌, List, Option, none, some, Bool, true, false,
  Result, ok, fail, panic, runtime, ◌>>=◌, ◌>>◌, checked_add, bytes_eq, ltb, leb, if◌then◌else◌,
  length, ℤ,
}
use bitcoin_svm_bridge.ArrayUtils.{Bytes}
use bitcoin_svm_bridge.Structs.{
  zero_hash, Platform, Pubkey, BlockHeader, CommittedBlockHeader, Event,
}
use bitcoin_svm_bridge.State.{MainState, ForkState}
use bitcoin_svm_bridge.Program.Submit.{submit_block_headers, submit_short_fork_headers}
use bitcoin_svm_bridge.Program.Fork.{ForkLoader, ForkOutcome, submit_fork_headers}
use bitcoin_svm_bridge.Program.Transaction.{
  BitcoinCrate, Lamports, verify_small_tx, finalize_tx_processing, init_big_tx_verify,
  store_tx_bytes,
}

-- the account at the address of a transaction id, with the room for bytes that it was created with
pub record BigTxState : Type 0 where
  pub tx_bytes : Bytes
  pub tx_size : ℕ

-- The main account, whether the deposit account is there, its lamports and those of every
-- other account, the accounts of big transactions, and those of forks, by the fork's id and its signer.
pub record Bridge : Type 0 where
  pub main : MainState
  pub deposit_created : Bool
  pub deposit : ℕ
  pub wallets : Pubkey → ℕ
  pub tx_accounts : Bytes → Option BigTxState
  pub forks : ℕ → Pubkey → Option ForkState

-- the map with a new value at one key
abbrev pub put {ℓ} : {V : Type ℓ} → Bytes → V → (Bytes → V) → Bytes → V
put key v m k = if bytes_eq k key then v else m k

abbrev pub lamports : Bridge → Pubkey → Lamports
lamports s receiver = record { deposit_account = s.deposit; mint_receiver = s.wallets receiver }

-- The payment written back. The runtime removes an account that is left without lamports, so the deposit
-- account is there afterwards only if it kept some.
abbrev pub credit : Bridge → Pubkey → Lamports → Bridge
credit s receiver l = record s {
  deposit_created = ltb 0 l.deposit_account;
  deposit = l.deposit_account;
  wallets = put receiver l.mint_receiver s.wallets;
}

-- Anchor's answers for an account that is not as its constraints ask
abbrev pub must_be_new : Option BigTxState → Result (Unit {0})
must_be_new none = ok tt
must_be_new (some a) = fail runtime

abbrev pub must_be_there {ℓ} : {A : Type ℓ} → Option A → Result A
must_be_there none = fail runtime
must_be_there (some a) = ok a

abbrev pub must_hold : Bool → Result (Unit {0})
must_hold true = ok tt
must_hold false = fail runtime

module _ (p : Platform) {Transaction : Type 0} (b : BitcoinCrate Transaction) where
  unfoldable pub run_verify_small_tx :
      Bytes → ℕ → ℕ → List Bytes → CommittedBlockHeader → Pubkey → Bridge → Result Bridge
  run_verify_small_tx tx_bytes confirmations tx_index proof commited receiver s = do
    must_hold s.deposit_created
    l ←
        verify_small_tx p b tx_bytes confirmations tx_index proof commited receiver s.main
          (lamports s receiver)
    ok (credit s receiver l)

module _ (p : Platform) where
  -- `init`: the account must be new, its size must not overflow, and the runtime must be able to
  -- create it, which is `created`.
  unfoldable pub run_init_big_tx_verify :
      Result (Unit {0})
      → Bytes
      → ℕ
      → ℕ
      → ℕ
      → List Bytes
      → CommittedBlockHeader
      → Bridge
      → Result Bridge
  run_init_big_tx_verify created tx_id tx_size confirmations tx_index proof commited s = do
    must_be_new (s.tx_accounts tx_id)
    space ← checked_add 64 12 tx_size
    created
    tx_bytes ← init_big_tx_verify p tx_id confirmations tx_index proof commited s.main
    ok (record s {
      tx_accounts =
          put tx_id (some (record { tx_bytes = tx_bytes; tx_size = tx_size })) s.tx_accounts;
    })

-- The account must be there, and the longer bytes must fit it when Anchor writes them back.
unfoldable pub run_store_tx_bytes : Bytes → Bytes → Bridge → Result Bridge
run_store_tx_bytes tx_id bytes s = do
  a ← must_be_there (s.tx_accounts tx_id)
  let longer = store_tx_bytes bytes a.tx_bytes
  must_hold (leb (length longer) a.tx_size)
  ok (record s { tx_accounts = put tx_id (some (record a { tx_bytes = longer })) s.tx_accounts })

module _ {Transaction : Type 0} (b : BitcoinCrate Transaction) where
  unfoldable pub run_finalize_tx_processing : Bytes → Pubkey → Bridge → Result Bridge
  run_finalize_tx_processing tx_id receiver s = do
    a ← must_be_there (s.tx_accounts tx_id)
    must_hold s.deposit_created
    l ← finalize_tx_processing b tx_id a.tx_bytes receiver (lamports s receiver)
    ok (credit s receiver l)

-- `deposit`: `init` creates the deposit account, for which the runtime moves `rent` from the signer
-- or fails, and the system program transfers the amount.
unfoldable pub run_deposit : Result ℕ → Pubkey → ℕ → Bridge → Result Bridge
run_deposit created signer amount s = do
  must_hold (not s.deposit_created)
  rent ← created
  must_hold (leb (rent + amount) (s.wallets signer))
  ok (record s {
    deposit_created = true;
    deposit = s.deposit + (rent + amount);
    wallets = put signer (s.wallets signer - (rent + amount)) s.wallets;
  })

-- the bytes of a new fork account
abbrev pub new_fork_state : ForkState
new_fork_state = record {
  initialized = 0;
  start_height = 0;
  length = 0;
  tip_commit_hash = zero_hash;
  tip_block_hash = zero_hash;
  block_commitments = replicate 250 zero_hash;
}

-- Anchor's `load_init` takes only an account that is new, and `load_mut` only one that is not.
abbrev pub loader_of : Option ForkState → ForkLoader
loader_of none = record { load_init = ok new_fork_state; load_mut = fail runtime }
loader_of (some f) = record { load_init = fail runtime; load_mut = ok f }

-- `init_if_needed`
abbrev pub create_if_needed {ℓ} : {A : Type ℓ} → Result (Unit {0}) → Option A → Result (Unit {0})
create_if_needed created none = created
create_if_needed created (some a) = ok tt

abbrev pub put_fork :
    ℕ → Pubkey → Option ForkState → (ℕ → Pubkey → Option ForkState) → ℕ → Pubkey → Option ForkState
put_fork fork_id signer v m id key = if id == fork_id && bytes_eq key signer then v else m id key

-- `submit_fork_headers` on the account of the fork's id and the signer; a fork that has won is closed.
unfoldable pub run_submit_fork_headers :
    Platform
    → ℤ
    → List Pubkey
    → List BlockHeader
    → CommittedBlockHeader
    → ℕ
    → Bool
    → Result (Unit {0})
    → Pubkey
    → Bridge
    → Result Bridge
run_submit_fork_headers p clock keys headers commited fork_id init created signer s = do
  create_if_needed created (s.forks fork_id signer)
  out ←
      submit_fork_headers p clock keys headers commited fork_id init
        (loader_of (s.forks fork_id signer)) s.main
  ok (record s {
    main = out.main;
    forks = put_fork fork_id signer (if out.close then none else some out.fork) s.forks;
  })

-- `close_fork_account`: Anchor closes the account of the signer.
unfoldable pub run_close_fork_account : ℕ → Pubkey → Bridge → Result Bridge
run_close_fork_account fork_id signer s = do
  f ← must_be_there (s.forks fork_id signer)
  ok (record s { forks = put_fork fork_id signer none s.forks })

-- What can happen to the accounts: an instruction of the program that succeeds, or transfers of
-- others, which change the wallets at will (fees and rents among them) and can add to the deposits.
-- `Passed` is any property of the committed headers that are passed to the instructions.
pub data Step (p : Platform) {Transaction : Type 0} (b : BitcoinCrate Transaction)
    (Passed : CommittedBlockHeader → Type 0) : Bridge → Bridge → Type 0 where
  small :
      {s t : Bridge} (tx_bytes : Bytes) (confirmations tx_index : ℕ) (proof : List Bytes)
      (commited : CommittedBlockHeader) (receiver : Pubkey)
      → Passed commited
      → run_verify_small_tx p b tx_bytes confirmations tx_index proof commited receiver s ≡ ok t
      → Step p b Passed s t
  init_big :
      {s t : Bridge} (created : Result (Unit {0})) (tx_id : Bytes)
      (tx_size confirmations tx_index : ℕ) (proof : List Bytes) (commited : CommittedBlockHeader)
      → Passed commited
      → run_init_big_tx_verify p created tx_id tx_size confirmations tx_index proof commited s
        ≡ ok t
      → Step p b Passed s t
  store :
      {s t : Bridge} (tx_id bytes : Bytes)
      → run_store_tx_bytes tx_id bytes s ≡ ok t
      → Step p b Passed s t
  finalize :
      {s t : Bridge} (tx_id : Bytes) (receiver : Pubkey)
      → run_finalize_tx_processing b tx_id receiver s ≡ ok t
      → Step p b Passed s t
  fund :
      {s t : Bridge} (created : Result ℕ) (signer : Pubkey) (amount : ℕ)
      → run_deposit created signer amount s ≡ ok t
      → Step p b Passed s t
  submit :
      {s : Bridge} (clock : ℤ) (keys : List Pubkey) (headers : List BlockHeader)
      (commited : CommittedBlockHeader) (main : MainState) (events : List Event)
      → Passed commited
      → submit_block_headers p clock keys headers commited s.main ≡ ok (main, events)
      → Step p b Passed s (record s { main = main })
  short_fork :
      {s : Bridge} (clock : ℤ) (keys : List Pubkey) (headers : List BlockHeader)
      (commited : CommittedBlockHeader) (main : MainState) (events : List Event)
      → Passed commited
      → submit_short_fork_headers p clock keys headers commited s.main ≡ ok (main, events)
      → Step p b Passed s (record s { main = main })
  fork :
      {s t : Bridge} (clock : ℤ) (keys : List Pubkey) (headers : List BlockHeader)
      (commited : CommittedBlockHeader) (fork_id : ℕ) (init : Bool) (created : Result (Unit {0}))
      (signer : Pubkey)
      → Passed commited
      → run_submit_fork_headers p clock keys headers commited fork_id init created signer s ≡ ok t
      → Step p b Passed s t
  close_fork :
      {s t : Bridge} (fork_id : ℕ) (signer : Pubkey)
      → run_close_fork_account fork_id signer s ≡ ok t
      → Step p b Passed s t
  outside :
      {s : Bridge} (wallets : Pubkey → ℕ) (d : ℕ)
      → Step p b Passed s (record s { wallets = wallets; deposit = s.deposit + d })

-- any number of steps
pub data Reach (p : Platform) {Transaction : Type 0} (b : BitcoinCrate Transaction)
    (Passed : CommittedBlockHeader → Type 0) (s : Bridge) : Bridge → Type 0 where
  here : Reach p b Passed s s
  next : {t u : Bridge} → Reach p b Passed s t → Step p b Passed t u → Reach p b Passed s u
