-- ===== src/Program/Transaction/Payout.antt =====
-- What the two instructions that pay have tested, and what they move.
use bitcoin_svm_bridge.Prelude.{
  ℕ, ◌+◌, ◌*◌, ◌<◌, ◌≡◌, refl, sym, ap, List, [], ◌∷◌, Bool, true, false, Option, none, some, ok,
  or_panic, no_deposit_outputs, checked_add, checked_sub, checked_mul, checked_add-eq-ok,
  checked_sub-eq-ok, checked_mul-eq-ok, bytes_eq, bytes_eq→eq, ltb, ltb→lt, bind_ok, require_ok,
  ok-injective, if◌then◌else◌, arith, Bool-cases, inl, inr,
}
use bitcoin_svm_bridge.ArrayUtils.{Bytes}
use bitcoin_svm_bridge.Structs.{Platform, Pubkey, CommittedBlockHeader}
use bitcoin_svm_bridge.State.{MainState}
use bitcoin_svm_bridge.Prelude.{none, true, false, Bool, if◌then◌else◌}
use bitcoin_svm_bridge.Program.Transaction.{
  TxOut, BitcoinCrate, expected_script_pubkey, sum_outputs, bridge_mint_amount, Lamports, pay,
  check_commited, check_merkle, verify_small_tx, finalize_tx_processing,
}

pub or_panic-eq-ok : {A : Type 0} (m : Option A) {a : A} → or_panic m ≡ ok a → m ≡ some a
or_panic-eq-ok none h = cc
or_panic-eq-ok (some a) h = ap some (ok-injective h)

asserted : (c : Bool) {u : Unit {0}} → or_panic (if c then some tt else none) ≡ ok u → c ≡ true
asserted true h = refl
asserted false h = cc

-- the satoshis that a list of outputs sends to a script
abbrev pub deposited : Bytes → List TxOut → ℕ
deposited expected [] = 0
deposited expected (out ∷ outs) =
    if bytes_eq out.script_pubkey expected
    then out.value + deposited expected outs
    else deposited expected outs

sum_outputs-deposited :
    (expected : Bytes) (outs : List TxOut) (total : ℕ) {n : ℕ}
    → sum_outputs expected outs total ≡ ok n
    → n ≡ total + deposited expected outs
unfolding sum_outputs
sum_outputs-deposited expected [] total h = omega (arith, ok-injective h)
sum_outputs-deposited expected (out ∷ outs) total h =
    elim (Bool-cases (bytes_eq out.script_pubkey expected)) [
      | inl e ↦ bind_ok (checked_add 64 total out.value) _ (rw e at h) λ sum e0 h0. rw e (
          omega (
            arith,
            checked_add-eq-ok 64 total out.value e0,
            sum_outputs-deposited expected outs sum h0,
          ))
      | inr e ↦ rw e (sum_outputs-deposited expected outs total (rw e at h))
    ]

mint_amount-deposited :
    {Transaction : Type 0} (b : BitcoinCrate Transaction) (bitcoin_tx : Transaction)
    (receiver : Pubkey) {n : ℕ}
    → bridge_mint_amount b bitcoin_tx receiver ≡ ok n
    → n ≡ deposited (expected_script_pubkey b receiver) (b.output bitcoin_tx)
unfolding bridge_mint_amount
mint_amount-deposited b bitcoin_tx receiver h =
    omega
      (arith, sum_outputs-deposited (expected_script_pubkey b receiver) (b.output bitcoin_tx) 0 h)

-- `amount` satoshis are paid out of the deposits at ten lamports each.
pub record Paid (amount : ℕ) (l t : Lamports) : Type 0 where
  pub some_amount : 0 < amount
  pub taken : t.deposit_account + amount * 10 ≡ l.deposit_account
  pub given : t.mint_receiver ≡ l.mint_receiver + amount * 10

pay-Paid :
    (amount : ℕ) (l : Lamports) {t : Lamports} → 0 < amount → pay amount l ≡ ok t → Paid amount l t
unfolding pay
pay-Paid amount l some_amount h = bind_ok (checked_mul 64 amount 10) _ h λ sol e0 h0.
    bind_ok (checked_sub l.deposit_account sol) _ h0 λ left e1 h1.
      bind_ok (checked_add 64 l.mint_receiver sol) _ h1 λ received e2 h2.
        let (product, _) = checked_mul-eq-ok 64 amount 10 e0 in
        let (rest, _) = checked_sub-eq-ok l.deposit_account sol e1 in
        let (sum, _) = checked_add-eq-ok 64 l.mint_receiver sol e2 in
        rw (← ok-injective h2) (record {
          some_amount = some_amount;
          taken = omega (arith, product, rest);
          given = omega (arith, product, sum);
        })

module _ {Transaction : Type 0} (b : BitcoinCrate Transaction) where
  -- the satoshis that a transaction sends to the deposit script of a receiver
  abbrev pub deposit_of : Transaction → Pubkey → ℕ
  deposit_of bitcoin_tx receiver =
      deposited (expected_script_pubkey b receiver) (b.output bitcoin_tx)

  pub verify_small_tx-eq-ok :
      (p : Platform) (tx_bytes : Bytes) (confirmations tx_index : ℕ) (proof : List Bytes)
      (commited : CommittedBlockHeader) (receiver : Pubkey) (main : MainState) (l : Lamports)
      {t : Lamports}
      → verify_small_tx p b tx_bytes confirmations tx_index proof commited receiver main l ≡ ok t
      → (bitcoin_tx : Transaction) × (b.consensus_decode tx_bytes ≡ some bitcoin_tx)
        × (check_commited p confirmations commited main ≡ ok tt)
        × (check_merkle p (b.compute_txid bitcoin_tx) tx_index proof commited ≡ ok tt)
        × Paid (deposit_of bitcoin_tx receiver) l t
  unfolding verify_small_tx
  verify_small_tx-eq-ok p tx_bytes confirmations tx_index proof commited receiver main l h =
      bind_ok (check_commited p confirmations commited main) _ h λ done e0 h0.
        bind_ok (or_panic (b.consensus_decode tx_bytes)) _ h0 λ bitcoin_tx e1 h1.
          bind_ok (bridge_mint_amount b bitcoin_tx receiver) _ h1 λ amount e2 h2.
            require_ok (ltb 0 amount) no_deposit_outputs _ h2 λ e3 h3.
              bind_ok (check_merkle p (b.compute_txid bitcoin_tx) tx_index proof commited) _ h3
                λ proved e4 h4.
                  let total = mint_amount-deposited b bitcoin_tx receiver e2 in
                  (
                    bitcoin_tx,
                    or_panic-eq-ok _ e1,
                    e0,
                    e4,
                    rw (← total) (pay-Paid amount l (ltb→lt _ _ e3) h4),
                  )

  pub finalize_tx_processing-eq-ok :
      (tx_id tx_bytes : Bytes) (receiver : Pubkey) (l : Lamports) {t : Lamports}
      → finalize_tx_processing b tx_id tx_bytes receiver l ≡ ok t
      → (bitcoin_tx : Transaction) × (b.consensus_decode tx_bytes ≡ some bitcoin_tx)
        × (b.compute_txid bitcoin_tx ≡ tx_id)
        × Paid (deposit_of bitcoin_tx receiver) l t
  unfolding finalize_tx_processing
  finalize_tx_processing-eq-ok tx_id tx_bytes receiver l h =
      bind_ok (or_panic (b.consensus_decode tx_bytes)) _ h λ bitcoin_tx e0 h0.
        bind_ok (or_panic (if bytes_eq tx_id (b.compute_txid bitcoin_tx) then some tt else none)) _
          h0
          λ same e1 h1. bind_ok (bridge_mint_amount b bitcoin_tx receiver) _ h1 λ amount e2 h2.
            require_ok (ltb 0 amount) no_deposit_outputs _ h2 λ e3 h3.
              let total = mint_amount-deposited b bitcoin_tx receiver e2 in
              (
                bitcoin_tx,
                or_panic-eq-ok _ e0,
                sym (bytes_eq→eq _ _ (asserted (bytes_eq tx_id (b.compute_txid bitcoin_tx)) e1)),
                rw (← total) (pay-Paid amount l (ltb→lt _ _ e3) h3),
              )
