-- ===== src/Program/Bridge/Steps.antt =====
-- What an instruction did when it succeeded.
use bitcoin_svm_bridge.Prelude.{
  ℤ, if◌then◌else◌, leb→le, ◌++◌, none, refl, arith, Bool, true, false, not, ◌≤◌, ◌+◌, ap, leb, ℕ,
  ◌≡◌, ◌⊎◌, inl, inr, sym, ap, List, Option, none, some, Result, ok, checked_add, bind_ok,
  ok-injective, bytes_eq, bytes_eq→eq, leb, length, Bool-cases,
}
use bitcoin_svm_bridge.ArrayUtils.{Bytes}
use bitcoin_svm_bridge.Structs.{BlockHeader, Platform, Pubkey, CommittedBlockHeader}
use bitcoin_svm_bridge.Program.Transaction.{
  BitcoinCrate, Lamports, check_commited, check_merkle, verify_small_tx, finalize_tx_processing,
  init_big_tx_verify, store_tx_bytes,
}
use bitcoin_svm_bridge.Program.Transaction.Payout.{}
use bitcoin_svm_bridge.Program.Fork.{ForkOutcome, submit_fork_headers}
use bitcoin_svm_bridge.Program.Bridge.{
  run_submit_fork_headers, run_close_fork_account, loader_of, create_if_needed, put_fork,
  BigTxState, Bridge, must_be_new, must_be_there, must_hold, put, lamports, credit, run_deposit,
  run_verify_small_tx, run_init_big_tx_verify, run_store_tx_bytes, run_finalize_tx_processing,
}

-- In the state `s`, the id has a Merkle proof against the committed header, which the program takes.
pub record IsProven (p : Platform) (s : Bridge) (tx_id : Bytes) (commited : CommittedBlockHeader)
    : Type 0 where
  pub confirmations : ℕ
  pub tx_index : ℕ
  pub proof : List Bytes
  pub commitment : check_commited p confirmations commited s.main ≡ ok tt
  pub inclusion : check_merkle p tx_id tx_index proof commited ≡ ok tt

pub there-eq-ok : (m : Option BigTxState) {a : BigTxState} → must_be_there m ≡ ok a → m ≡ some a
there-eq-ok none h = cc
there-eq-ok (some a) h = ap some (ok-injective h)

pub hold-eq-ok : (c : Bool) → must_hold c ≡ ok tt → c ≡ true
hold-eq-ok true h = refl
hold-eq-ok false h = cc

new-eq-ok : (m : Option BigTxState) → must_be_new m ≡ ok tt → m ≡ none
new-eq-ok none h = refl
new-eq-ok (some a) h = cc

-- a write to the map that leaves a key with a value it had, or gives a new value to `key`
pub put-some :
    (key id : Bytes) (v : BigTxState) (m : Bytes → Option BigTxState) {a : BigTxState}
    → put key (some v) m id ≡ some a
    → (id ≡ key) ⊎ (m id ≡ some a)
put-some key id v m h = elim (Bool-cases (bytes_eq id key)) [
  | inl e ↦ inl (bytes_eq→eq id key e)
  | inr e ↦ inr (rw e at h)
]

module _ (p : Platform) {Transaction : Type 0} (b : BitcoinCrate Transaction) where
  pub small-credit :
      (tx_bytes : Bytes) (confirmations tx_index : ℕ) (proof : List Bytes)
      (commited : CommittedBlockHeader) (receiver : Pubkey) (s : Bridge) {t : Bridge}
      → run_verify_small_tx p b tx_bytes confirmations tx_index proof commited receiver s ≡ ok t
      → (l : Lamports) × (verify_small_tx p b tx_bytes confirmations tx_index proof commited
            receiver s.main
            (lamports s receiver)
          ≡ ok l)
        × (t ≡ credit s receiver l)
  unfolding run_verify_small_tx
  small-credit tx_bytes confirmations tx_index proof commited receiver s h =
      bind_ok (must_hold s.deposit_created) _ h λ there e0 h0.
        bind_ok
          (verify_small_tx p b tx_bytes confirmations tx_index proof commited receiver s.main
            (lamports s receiver))
          _ h0 λ l e h1. (l, e, sym (ok-injective h1))

  pub init_big-IsProven :
      (created : Result (Unit {0})) (id : Bytes) (tx_size confirmations tx_index : ℕ)
      (proof : List Bytes) (commited : CommittedBlockHeader) (s : Bridge) {t : Bridge}
      → run_init_big_tx_verify p created id tx_size confirmations tx_index proof commited s ≡ ok t
      → (a : BigTxState) × IsProven p s id commited
        × (s.tx_accounts id ≡ none)
        × (t ≡ record s { tx_accounts = put id (some a) s.tx_accounts })
  unfolding run_init_big_tx_verify init_big_tx_verify
  init_big-IsProven created id tx_size confirmations tx_index proof commited s h =
      bind_ok (must_be_new (s.tx_accounts id)) _ h λ new e0 h0.
        bind_ok (checked_add 64 12 tx_size) _ h0 λ space e1 h1. bind_ok created _ h1 λ done e2 h2.
          bind_ok (init_big_tx_verify p id confirmations tx_index proof commited s.main) _ h2
            λ tx_bytes e3 h3.
              bind_ok (check_commited p confirmations commited s.main) _ e3 λ commitment e4 h4.
                bind_ok (check_merkle p id tx_index proof commited) _ h4 λ inclusion e5 h5. (
                  record { tx_bytes = tx_bytes; tx_size = tx_size },
                  record {
                    confirmations = confirmations;
                    tx_index = tx_index;
                    proof = proof;
                    commitment = e4;
                    inclusion = e5;
                  },
                  new-eq-ok _ e0,
                  sym (ok-injective h3),
                )

  pub store-longer :
      (id bytes : Bytes) (s : Bridge) {t : Bridge}
      → run_store_tx_bytes id bytes s ≡ ok t
      → (a : BigTxState) × (s.tx_accounts id ≡ some a)
        × (length (a.tx_bytes ++ bytes) ≤ a.tx_size)
        × (t ≡ record s {
          tx_accounts = put id (some (record a { tx_bytes = a.tx_bytes ++ bytes })) s.tx_accounts;
        })
  unfolding run_store_tx_bytes
  store-longer id bytes s h = bind_ok (must_be_there (s.tx_accounts id)) _ h λ a e0 h0.
      bind_ok (must_hold (leb (length (store_tx_bytes bytes a.tx_bytes)) a.tx_size)) _ h0
        λ fits e1 h1. (a, there-eq-ok _ e0, leb→le _ _ (hold-eq-ok _ e1), sym (ok-injective h1))

  pub finalize-credit :
      (id : Bytes) (receiver : Pubkey) (s : Bridge) {t : Bridge}
      → run_finalize_tx_processing b id receiver s ≡ ok t
      → (a : BigTxState) × (l : Lamports) × (s.tx_accounts id ≡ some a)
        × (finalize_tx_processing b id a.tx_bytes receiver (lamports s receiver) ≡ ok l)
        × (t ≡ credit s receiver l)
  unfolding run_finalize_tx_processing
  finalize-credit id receiver s h = bind_ok (must_be_there (s.tx_accounts id)) _ h λ a e0 h0.
      bind_ok (must_hold s.deposit_created) _ h0 λ created e2 h2.
        bind_ok (finalize_tx_processing b id a.tx_bytes receiver (lamports s receiver)) _ h2
          λ l e1 h1. (a, l, there-eq-ok _ e0, e1, sym (ok-injective h1))

-- `deposit` worked before the account was there, and left it there with no less than before.
pub deposit-created :
    (created : Result ℕ) (signer : Pubkey) (amount : ℕ) (s : Bridge) {t : Bridge}
    → run_deposit created signer amount s ≡ ok t
    → (not s.deposit_created ≡ true)
      × (t.deposit_created ≡ true)
      × (s.deposit ≤ t.deposit)
      × (t.tx_accounts ≡ s.tx_accounts)
unfolding run_deposit
deposit-created created signer amount s h =
    bind_ok (must_hold (not s.deposit_created)) _ h λ new e0 h0. bind_ok created _ h0 λ rent e1 h1.
      bind_ok (must_hold (leb (rent + amount) (s.wallets signer))) _ h1 λ enough e2 h2.
        let same = sym (ok-injective h2) in
        (
          hold-eq-ok _ e0,
          ap (λ (x : Bridge). x.deposit_created) same,
          rw same (omega arith),
          ap (λ (x : Bridge). x.tx_accounts) same,
        )

-- Behind a submission to a fork: the main account, and the fork's account unless it was closed.
pub fork-outcome :
    (p : Platform) (clock : ℤ) (keys : List Pubkey) (headers : List BlockHeader)
    (commited : CommittedBlockHeader) (fork_id : ℕ) (init : Bool) (created : Result (Unit {0}))
    (signer : Pubkey) (s : Bridge) {t : Bridge}
    → run_submit_fork_headers p clock keys headers commited fork_id init created signer s ≡ ok t
    → (out : ForkOutcome) × (submit_fork_headers p clock keys headers commited fork_id init
          (loader_of (s.forks fork_id signer))
          s.main
        ≡ ok out)
      × (t ≡ record s {
        main = out.main;
        forks = put_fork fork_id signer (if out.close then none else some out.fork) s.forks;
      })
unfolding run_submit_fork_headers
fork-outcome p clock keys headers commited fork_id init created signer s h =
    bind_ok (create_if_needed created (s.forks fork_id signer)) _ h λ done e0 h0.
      bind_ok
        (submit_fork_headers p clock keys headers commited fork_id init
          (loader_of (s.forks fork_id signer)) s.main)
        _ h0 λ out e1 h1. (out, e1, sym (ok-injective h1))

pub closed-forks :
    (fork_id : ℕ) (signer : Pubkey) (s : Bridge) {t : Bridge}
    → run_close_fork_account fork_id signer s ≡ ok t
    → t ≡ record s { forks = put_fork fork_id signer none s.forks }
unfolding run_close_fork_account
closed-forks fork_id signer s h =
    bind_ok (must_be_there (s.forks fork_id signer)) _ h λ f e0 h0. sym (ok-injective h0)

pub deposit-same :
    (created : Result ℕ) (signer : Pubkey) (amount : ℕ) (s : Bridge) {t : Bridge}
    → run_deposit created signer amount s ≡ ok t
    → (t.main ≡ s.main) × (t.forks ≡ s.forks)
unfolding run_deposit
deposit-same created signer amount s h =
    bind_ok (must_hold (not s.deposit_created)) _ h λ new e0 h0. bind_ok created _ h0 λ rent e1 h1.
      bind_ok (must_hold (leb (rent + amount) (s.wallets signer))) _ h1 λ enough e2 h2.
        let same = sym (ok-injective h2) in
        (ap (λ (x : Bridge). x.main) same, ap (λ (x : Bridge). x.forks) same)
