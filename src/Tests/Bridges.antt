-- ===== src/Tests/Bridges.antt =====
-- Witnesses of the theorems on the accounts of the program over several instructions.
use bitcoin_svm_bridge.Prelude.{
  ◌+◌, ◌⊎◌, ℕ, false, runtime, true, ◌≡◌, ◌<◌, refl, [], ◌∷◌, bytes_eq, none, some, Result, ok,
  fail, arith,
}
use bitcoin_svm_bridge.Program.Bridge.Lasting.{Grown, accounts_grow, WasEmptied, run_deposit_once}
use bitcoin_svm_bridge.Structs.{Pubkey, get_commit_hash}
use bitcoin_svm_bridge.State.{get_commitment}
use bitcoin_svm_bridge.Utils.Merkle.{compute_merkle}
use bitcoin_svm_bridge.Program.Submit.{initialize}
use bitcoin_svm_bridge.Program.Transaction.{
  bridge_mint_amount, init_big_tx_verify, finalize_tx_processing,
}
use bitcoin_svm_bridge.Program.Bridge.{
  BigTxState, run_deposit, outside, Bridge, run_init_big_tx_verify, run_store_tx_bytes,
  run_finalize_tx_processing, init_big, store, Reach, here, next,
}
use bitcoin_svm_bridge.Program.Bridge.Runs.{}
use bitcoin_svm_bridge.Tests.{constant_hash, low_hash, first, first_state}
use bitcoin_svm_bridge.Tests.Payments.{small_crate}

abbrev start : Bridge
start = record {
  main = first_state;
  deposit_created = true;
  deposit = 10000;
  wallets = λ key. 1;
  tx_accounts = λ id. none;
  forks = λ id key. none;
}

abbrev or_start : Result Bridge → Bridge
or_start (ok s) = s
or_start (fail e) = start

abbrev run_init : Result Bridge
run_init = run_init_big_tx_verify constant_hash (ok tt) low_hash 100 1 0 [] first start

abbrev run_store : Result Bridge
run_store = run_store_tx_bytes low_hash (1 ∷ 2 ∷ []) (or_start run_init)

abbrev run_finalize : Result Bridge
run_finalize = run_finalize_tx_processing small_crate low_hash low_hash (or_start run_store)

init_ran : run_init ≡ ok (or_start run_init)
unfolding run_init_big_tx_verify init_big_tx_verify initialize get_commitment bytes_eq
    get_commit_hash compute_merkle
init_ran = refl

opened : (or_start run_init).tx_accounts low_hash ≡ some (record { tx_bytes = []; tx_size = 100 })
unfolding run_init_big_tx_verify init_big_tx_verify initialize get_commitment bytes_eq
    get_commit_hash compute_merkle
opened = refl

store_ran : run_store ≡ ok (or_start run_store)
unfolding run_store_tx_bytes run_init_big_tx_verify init_big_tx_verify initialize get_commitment
    bytes_eq get_commit_hash compute_merkle
store_ran = refl

finalize_ran : run_finalize ≡ ok (or_start run_finalize)
unfolding run_finalize_tx_processing finalize_tx_processing bridge_mint_amount run_store_tx_bytes
    run_init_big_tx_verify init_big_tx_verify initialize get_commitment bytes_eq get_commit_hash
    compute_merkle
finalize_ran = refl

paid_out : (or_start run_finalize).deposit < (or_start run_store).deposit
unfolding run_finalize_tx_processing finalize_tx_processing bridge_mint_amount run_store_tx_bytes
    run_init_big_tx_verify init_big_tx_verify initialize get_commitment bytes_eq get_commit_hash
    compute_merkle
paid_out = omega arith

stored :
    (or_start run_store).tx_accounts low_hash
    ≡ some (record { tx_bytes = 1 ∷ 2 ∷ []; tx_size = 100 })
unfolding run_store_tx_bytes run_init_big_tx_verify init_big_tx_verify initialize get_commitment
    bytes_eq get_commit_hash compute_merkle
stored = refl

on_the_way : Reach constant_hash small_crate (λ c. c ≡ first) start (or_start run_store)
on_the_way =
    next (next here (init_big (ok tt) low_hash 100 1 0 [] first refl init_ran))
      (store low_hash (1 ∷ 2 ∷ []) store_ran)

accounts_grow_example :
    (a : BigTxState) × ((or_start run_store).tx_accounts low_hash ≡ some a)
    × Grown (record { tx_bytes = []; tx_size = 100 }) a
accounts_grow_example =
    accounts_grow constant_hash small_crate {Passed = λ c. c ≡ first} low_hash
      (record { tx_bytes = []; tx_size = 100 }) opened
      (next here (store low_hash (1 ∷ 2 ∷ []) store_ran))

abbrev unfunded : Bridge
unfunded = record start { deposit_created = false; wallets = λ key. 5000 }

abbrev funded : Bridge
funded = or_start (run_deposit (ok 1000) low_hash 4000 unfunded)

fund_ran : run_deposit (ok 1000) low_hash 4000 unfunded ≡ ok funded
unfolding run_deposit
fund_ran = refl

run_deposit_once_example :
    WasEmptied constant_hash small_crate
      (λ c. c ≡ first)
      funded
      (record funded { wallets = start.wallets; deposit = funded.deposit + 3 })
    ⊎ ((again : Result ℕ) (other : Pubkey) (more : ℕ)
        → run_deposit again other more
            (record funded { wallets = start.wallets; deposit = funded.deposit + 3 })
          ≡ fail runtime)
run_deposit_once_example =
    run_deposit_once constant_hash small_crate {Passed = λ c. c ≡ first} (ok 1000) low_hash 4000
      unfunded fund_ran (next here (outside start.wallets 3))
