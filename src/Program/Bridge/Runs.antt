-- ===== src/Program/Bridge/Runs.antt =====
-- What holds of the accounts over any number of steps.
use bitcoin_svm_bridge.Prelude.{
  ◌++◌, ℕ, ◌+◌, ◌*◌, ◌<◌, ◌≡◌, ◌⊎◌, inl, inr, refl, ap, none, some, false, bytes_eq, bytes_eq_refl,
  arith,
}
use bitcoin_svm_bridge.ArrayUtils.{Bytes}
use bitcoin_svm_bridge.Structs.{Platform, Pubkey, CommittedBlockHeader}
use bitcoin_svm_bridge.Program.Transaction.{BitcoinCrate, Lamports}
use bitcoin_svm_bridge.Program.Transaction.Payout.{
  Paid, deposit_of, verify_small_tx-eq-ok, finalize_tx_processing-eq-ok,
}
use bitcoin_svm_bridge.Program.Bridge.{
  BigTxState, Bridge, lamports, credit, Step, small, init_big, store, finalize, fund, submit,
  short_fork, fork, close_fork, outside, Reach, here, next,
}
use bitcoin_svm_bridge.Program.Bridge.Steps.{
  IsProven, put-some, small-credit, init_big-IsProven, store-longer, finalize-credit,
  deposit-created, fork-outcome, closed-forks,
}

unchanged : (d e : ℕ) → d ≡ e → d < e → ⊥
unchanged d e same less = omega arith

module _ (p : Platform) {Transaction : Type 0} (b : BitcoinCrate Transaction)
    (Passed : CommittedBlockHeader → Type 0) where
  -- The id was proven in a state between `s` and `t`.
  pub record WasProven (s t : Bridge) (tx_id : Bytes) : Type 0 where
    pub moment : Bridge
    pub before : Reach p b Passed s moment
    pub behind : Reach p b Passed moment t
    pub commited : CommittedBlockHeader
    pub passed : Passed commited
    pub proven : IsProven p moment tx_id commited

  WasProven-next :
      {s t u : Bridge} {tx_id : Bytes}
      → Step p b Passed t u
      → WasProven s t tx_id
      → WasProven s u tx_id
  WasProven-next st w = record {
    moment = w.moment;
    before = w.before;
    behind = next w.behind st;
    commited = w.commited;
    passed = w.passed;
    proven = w.proven;
  }

  -- A step creates an account only for a proven id, and else keeps the accounts that there are.
  Step-accounts :
      (t : Bridge) {u : Bridge} (tx_id : Bytes) (a : BigTxState)
      → Step p b Passed t u
      → u.tx_accounts tx_id ≡ some a
      → ((commited : CommittedBlockHeader) × Passed commited × IsProven p t tx_id commited)
        ⊎ ((a' : BigTxState) × (t.tx_accounts tx_id ≡ some a'))
  Step-accounts t tx_id a (small tx_bytes confirmations tx_index proof commited receiver passed e)
        h =
      let (l, _, same) =
        small-credit p b tx_bytes confirmations tx_index proof commited receiver t e in
      inr (a, rw same at h)
  Step-accounts t tx_id a
        (init_big created id tx_size confirmations tx_index proof commited passed e) h =
      let (v, proven, _, same) =
        init_big-IsProven p b created id tx_size confirmations tx_index proof commited t e in
      elim (put-some id tx_id v t.tx_accounts (rw same at h)) [
        | inl named ↦ inl (commited, passed, rw named proven)
        | inr old ↦ inr (a, old)
      ]
  Step-accounts t tx_id a (store id bytes e) h =
      let (old, there, _, same) = store-longer p b id bytes t e in
      elim (put-some id tx_id (record old { tx_bytes = old.tx_bytes ++ bytes }) t.tx_accounts
        (rw same at h)) [ inl named ↦ inr (old, rw named there) | inr kept ↦ inr (a, kept) ]
  Step-accounts t tx_id a (finalize id receiver e) h =
      let (_, l, _, _, same) = finalize-credit p b id receiver t e in inr (a, rw same at h)
  Step-accounts t tx_id a (fund created signer amount e) h =
      let (_, _, _, same) = deposit-created created signer amount t e in inr (a, rw same at h)
  Step-accounts t tx_id a (submit clock keys headers commited main events passed e) h = inr (a, h)
  Step-accounts t tx_id a (short_fork clock keys headers commited main events passed e) h =
      inr (a, h)
  Step-accounts t tx_id a (fork clock keys headers commited fork_id init created signer passed e)
        h =
      let (_, _, same) =
        fork-outcome p clock keys headers commited fork_id init created signer t e in
      inr (a, rw same at h)
  Step-accounts t tx_id a (close_fork fork_id signer e) h =
      inr (a, rw (closed-forks fork_id signer t e) at h)
  Step-accounts t tx_id a (outside wallets d) h = inr (a, h)

  -- From a state without accounts of big transactions on, over any number of steps: the id of every
  -- account of a big transaction was proven, by a Merkle proof against a header committed at that
  -- time, in a state on the way.
  pub accounts_were_proven :
      {s t : Bridge} (tx_id : Bytes) (a : BigTxState)
      → ((id : Bytes) → s.tx_accounts id ≡ none)
      → Reach p b Passed s t
      → t.tx_accounts tx_id ≡ some a
      → WasProven s t tx_id
  accounts_were_proven tx_id a empty here h = cc (empty tx_id)
  accounts_were_proven tx_id a empty (next r st) h = elim (Step-accounts _ tx_id a st h) [
    | inl (commited, passed, proven) ↦ record {
      moment = _;
      before = r;
      behind = next here st;
      commited = commited;
      passed = passed;
      proven = proven;
    }
    | inr (a', h') ↦ WasProven-next st (accounts_were_proven tx_id a' empty r h')
  ]

  -- Of the payment that a step makes, what was verified before: the id of the transaction was proven
  -- in a state up to this one.
  pub record PaidProven (s t u : Bridge) : Type 0 where
    pub receiver : Pubkey
    pub bitcoin_tx : Transaction
    pub amount : u.deposit + deposit_of b bitcoin_tx receiver * 10 ≡ t.deposit
    pub given : u.wallets receiver ≡ t.wallets receiver + deposit_of b bitcoin_tx receiver * 10
    pub others : (key : Pubkey) → bytes_eq key receiver ≡ false → u.wallets key ≡ t.wallets key
    pub proven : WasProven s t (b.compute_txid bitcoin_tx)

  PaidProven-of :
      (s t : Bridge) {u : Bridge} (receiver : Pubkey) (bitcoin_tx : Transaction) (l : Lamports)
      → u ≡ credit t receiver l
      → Paid (deposit_of b bitcoin_tx receiver) (lamports t receiver) l
      → WasProven s t (b.compute_txid bitcoin_tx)
      → PaidProven s t u
  PaidProven-of s t receiver bitcoin_tx l same paid proven = rw same (record {
    receiver = receiver;
    bitcoin_tx = bitcoin_tx;
    amount = paid.taken;
    given = rw (bytes_eq_refl receiver) paid.given;
    others = λ key other. rw other refl;
    proven = proven;
  })

  -- From a state without accounts of big transactions on, over any number of steps: a step after
  -- which the deposits are lower pays for a transaction whose id was proven, by a Merkle proof
  -- against a header committed at that time, in a state on the way. It takes ten lamports for each
  -- satoshi that the transaction sends to the receiver's deposit script, gives as much to the
  -- receiver, and changes no other wallet.
  pub deposits_fall_for_proven :
      (s t : Bridge) {u : Bridge}
      → ((id : Bytes) → s.tx_accounts id ≡ none)
      → Reach p b Passed s t
      → Step p b Passed t u
      → u.deposit < t.deposit
      → PaidProven s t u
  deposits_fall_for_proven s t empty r
        (small tx_bytes confirmations tx_index proof commited receiver passed e) less =
      let (l, ran, same) =
        small-credit p b tx_bytes confirmations tx_index proof commited receiver t e in
      let (bitcoin_tx, _, commitment, inclusion, paid) =
        verify_small_tx-eq-ok b p tx_bytes confirmations tx_index proof commited receiver t.main
          (lamports t receiver) ran in
      PaidProven-of s t receiver bitcoin_tx l same paid (record {
        moment = t;
        before = r;
        behind = here;
        commited = commited;
        passed = passed;
        proven = record {
          confirmations = confirmations;
          tx_index = tx_index;
          proof = proof;
          commitment = commitment;
          inclusion = inclusion;
        };
      })
  deposits_fall_for_proven s t empty r
        (init_big created id tx_size confirmations tx_index proof commited passed e) less =
      let (_, _, _, same) =
        init_big-IsProven p b created id tx_size confirmations tx_index proof commited t e in
      absurd (unchanged _ _ (ap (λ (x : Bridge). x.deposit) same) less)
  deposits_fall_for_proven s t empty r (store id bytes e) less =
      let (_, _, _, same) = store-longer p b id bytes t e in
      absurd (unchanged _ _ (ap (λ (x : Bridge). x.deposit) same) less)
  deposits_fall_for_proven s t empty r (finalize id receiver e) less =
      let (a, l, there, ran, same) = finalize-credit p b id receiver t e in
      let (bitcoin_tx, _, named, paid) =
        finalize_tx_processing-eq-ok b id a.tx_bytes receiver (lamports t receiver) ran in
      PaidProven-of s t receiver bitcoin_tx l same paid
        (rw named (accounts_were_proven id a empty r there))
  deposits_fall_for_proven s t empty r (fund created signer amount e) less =
      let (_, _, more, _) = deposit-created created signer amount t e in absurd (omega arith)
  deposits_fall_for_proven s t empty r (submit clock keys headers commited main events passed e)
        less =
      absurd (omega arith)
  deposits_fall_for_proven s t empty r (short_fork clock keys headers commited main events passed e)
        less =
      absurd (omega arith)
  deposits_fall_for_proven s t empty r
        (fork clock keys headers commited fork_id init created signer passed e) less =
      let (_, _, same) =
        fork-outcome p clock keys headers commited fork_id init created signer t e in
      absurd (unchanged _ _ (ap (λ (x : Bridge). x.deposit) same) less)
  deposits_fall_for_proven s t empty r (close_fork fork_id signer e) less =
      absurd (unchanged _ _ (ap (λ (x : Bridge). x.deposit) (closed-forks fork_id signer t e)) less)
  deposits_fall_for_proven s t empty r (outside wallets d) less = absurd (omega arith)
