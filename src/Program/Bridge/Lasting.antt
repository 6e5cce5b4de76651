-- ===== src/Program/Bridge/Lasting.antt =====
-- What the accounts keep over any number of steps.
use mathlib.Core.List.{append_assoc, append-nil}
use bitcoin_svm_bridge.Prelude.{
  ℕ, ◌⊎◌, ltb, arith, ◌≤◌, ◌≡◌, ◌∙◌, refl, sym, ap, [], ◌++◌, Option, none, some, true, Result, ok,
  fail, runtime, bytes_eq, length, Bool-cases, inl, inr, bytes_eq→eq,
}
use bitcoin_svm_bridge.ArrayUtils.{Bytes}
use bitcoin_svm_bridge.Structs.{Platform, Pubkey, CommittedBlockHeader}
use bitcoin_svm_bridge.Program.Transaction.{BitcoinCrate, Lamports}
use bitcoin_svm_bridge.Program.Bridge.{
  BigTxState, Bridge, put, credit, run_deposit, Step, small, init_big, store, finalize, fund,
  submit, short_fork, fork, close_fork, outside, Reach, here, next,
}
use bitcoin_svm_bridge.Program.Bridge.Steps.{
  small-credit, init_big-IsProven, store-longer, finalize-credit, deposit-created, fork-outcome,
  closed-forks,
}

-- an account with more bytes behind those that it had, and the room that it had
pub record Grown (a a' : BigTxState) : Type 0 where
  pub more : Bytes
  pub begins : a'.tx_bytes ≡ a.tx_bytes ++ more
  pub room : a'.tx_size ≡ a.tx_size
  pub fits : length a.tx_bytes ≤ a.tx_size → length a'.tx_bytes ≤ a'.tx_size

same_account : (a : BigTxState) → Grown a a
same_account a = record {
  more = [];
  begins = sym (append-nil a.tx_bytes);
  room = refl;
  fits = λ h. h;
}

Grown-Grown : {x y z : BigTxState} → Grown x y → Grown y z → Grown x z
Grown-Grown {x} {y} {z} g h = record {
  more = g.more ++ h.more;
  begins =
      h.begins ∙ ap (λ (xs : Bytes). xs ++ h.more) g.begins ∙ append_assoc x.tx_bytes g.more h.more;
  room = h.room ∙ g.room;
  fits = λ small. h.fits (g.fits small);
}

-- a write to the map elsewhere, or of a longer account in place of the one that is there
put-Grown :
    (key id : Bytes) (v : BigTxState) (m : Bytes → Option BigTxState) (a : BigTxState)
    → m id ≡ some a
    → (id ≡ key → Grown a v)
    → (a' : BigTxState) × (put key (some v) m id ≡ some a') × Grown a a'
put-Grown key id v m a there grown = elim (Bool-cases (bytes_eq id key)) [
  | inl e ↦ (v, rw e refl, grown (bytes_eq→eq id key e))
  | inr e ↦ (a, rw e there, same_account a)
]

longer :
    (old : BigTxState) (bytes : Bytes) (a : BigTxState)
    → some a ≡ some old
    → length (old.tx_bytes ++ bytes) ≤ old.tx_size
    → Grown a (record old { tx_bytes = old.tx_bytes ++ bytes })
longer old bytes a same fits =
    let e : a ≡ old = cc in
    rw e (record { more = bytes; begins = refl; room = refl; fits = λ small. fits })

credit-created :
    (s : Bridge) (receiver : Pubkey) (l : Lamports) {t : Bridge}
    → t ≡ credit s receiver l
    → (t.deposit ≡ 0) ⊎ (t.deposit_created ≡ true)
credit-created s receiver l same = elim (Bool-cases (ltb 0 l.deposit_account)) [
  | inl e ↦ inr (rw same e)
  | inr e ↦ let gone : l.deposit_account ≡ 0 = ground (arith, e) in inl (rw same gone)
]

-- On the way from one state to another there is one whose deposit account has no lamports.
pub record WasEmptied (p : Platform) {Transaction : Type 0} (b : BitcoinCrate Transaction)
    (Passed : CommittedBlockHeader → Type 0) (s u : Bridge) : Type 0 where
  pub at : Bridge
  pub before : Reach p b Passed s at
  pub after : Reach p b Passed at u
  pub empty : at.deposit ≡ 0

module _ (p : Platform) {Transaction : Type 0} (b : BitcoinCrate Transaction)
    {Passed : CommittedBlockHeader → Type 0} where
  Step-Grown :
      (s : Bridge) {t : Bridge} (id : Bytes) (a : BigTxState)
      → Step p b Passed s t
      → s.tx_accounts id ≡ some a
      → (a' : BigTxState) × (t.tx_accounts id ≡ some a') × Grown a a'
  Step-Grown s id a (small tx_bytes confirmations tx_index proof commited receiver passed e) h =
      let (_, _, same) =
        small-credit p b tx_bytes confirmations tx_index proof commited receiver s e in
      (a, rw same h, same_account a)
  Step-Grown s id a (init_big created key tx_size confirmations tx_index proof commited passed e)
        h =
      let (v, _, new, same) =
        init_big-IsProven p b created key tx_size confirmations tx_index proof commited s e in
      rw same (
        put-Grown key id v s.tx_accounts a h
          (λ named. absurd (taken (sym h ∙ ap s.tx_accounts named ∙ new))))
    where
      taken : {x : BigTxState} → some x ≡ none → ⊥
      taken e = cc
  Step-Grown s id a (store key bytes e) h =
      let (old, there, fits, same) = store-longer p b key bytes s e in
      let v : BigTxState = record old { tx_bytes = old.tx_bytes ++ bytes } in
      rw same (
        put-Grown key id v s.tx_accounts a h
          (λ named. longer old bytes a (sym h ∙ ap s.tx_accounts named ∙ there) fits))
  Step-Grown s id a (finalize key receiver e) h =
      let (_, _, _, _, same) = finalize-credit p b key receiver s e in
      (a, rw same h, same_account a)
  Step-Grown s id a (fund created signer amount e) h =
      let (_, _, _, same) = deposit-created created signer amount s e in
      (a, rw same h, same_account a)
  Step-Grown s id a (submit clock keys headers commited main events passed e) h =
      (a, h, same_account a)
  Step-Grown s id a (short_fork clock keys headers commited main events passed e) h =
      (a, h, same_account a)
  Step-Grown s id a (fork clock keys headers commited fork_id init created signer passed e) h =
      let (_, _, same) =
        fork-outcome p clock keys headers commited fork_id init created signer s e in
      (a, rw same h, same_account a)
  Step-Grown s id a (close_fork fork_id signer e) h =
      (a, rw (closed-forks fork_id signer s e) h, same_account a)
  Step-Grown s id a (outside wallets d) h = (a, h, same_account a)

  -- The account of a big transaction that is there stays there over any number of steps, with the
  -- room that it was created with; its bytes stay at the front of what is stored later, and what is
  -- stored never exceeds that room unless it did at first.
  pub accounts_grow :
      {s t : Bridge} (id : Bytes) (a : BigTxState)
      → s.tx_accounts id ≡ some a
      → Reach p b Passed s t
      → (a' : BigTxState) × (t.tx_accounts id ≡ some a') × Grown a a'
  accounts_grow id a h here = (a, h, same_account a)
  accounts_grow id a h (next r st) =
      let (a1, h1, g1) = accounts_grow id a h r in
      let (a2, h2, g2) = Step-Grown _ id a1 st h1 in (a2, h2, Grown-Grown g1 g2)

  -- A step leaves the deposit account there, unless it left it without lamports.
  Step-created :
      (t : Bridge) {u : Bridge}
      → Step p b Passed t u
      → t.deposit_created ≡ true
      → (u.deposit ≡ 0) ⊎ (u.deposit_created ≡ true)
  Step-created t (small tx_bytes confirmations tx_index proof commited receiver passed e) h =
      let (l, _, same) =
        small-credit p b tx_bytes confirmations tx_index proof commited receiver t e in
      credit-created t receiver l same
  Step-created t (init_big created key tx_size confirmations tx_index proof commited passed e) h =
      let (_, _, _, same) =
        init_big-IsProven p b created key tx_size confirmations tx_index proof commited t e in
      inr (rw same h)
  Step-created t (store key bytes e) h =
      let (_, _, _, same) = store-longer p b key bytes t e in inr (rw same h)
  Step-created t (finalize key receiver e) h =
      let (_, l, _, _, same) = finalize-credit p b key receiver t e in
      credit-created t receiver l same
  Step-created t (fund created signer amount e) h =
      let (_, stays, _, _) = deposit-created created signer amount t e in inr stays
  Step-created t (submit clock keys headers commited main events passed e) h = inr h
  Step-created t (short_fork clock keys headers commited main events passed e) h = inr h
  Step-created t (fork clock keys headers commited fork_id init created signer passed e) h =
      let (_, _, same) =
        fork-outcome p clock keys headers commited fork_id init created signer t e in
      inr (rw same h)
  Step-created t (close_fork fork_id signer e) h = inr (rw (closed-forks fork_id signer t e) h)
  Step-created t (outside wallets d) h = inr h

  created-stays :
      {s u : Bridge}
      → s.deposit_created ≡ true
      → Reach p b Passed s u
      → WasEmptied p b Passed s u ⊎ (u.deposit_created ≡ true)
  created-stays h here = inr h
  created-stays h (next {t} r st) = elim (created-stays h r) [
    | inl w ↦
        inl (record { at = w.at; before = w.before; after = next w.after st; empty = w.empty })
    | inr there ↦ elim (Step-created t st there) [
      | inl e ↦ inl (record { at = _; before = next r st; after = here; empty = e })
      | inr stays ↦ inr stays
    ]
  ]

  -- After one `deposit` that succeeded, and any number of steps: either the deposit account had no
  -- lamports in some state on the way, or every further `deposit` fails with an error of the runtime,
  -- whoever signs it and whatever the amount.
  pub run_deposit_once :
      (created : Result ℕ) (signer : Pubkey) (amount : ℕ) (s : Bridge) {t u : Bridge}
      → run_deposit created signer amount s ≡ ok t
      → Reach p b Passed t u
      → WasEmptied p b Passed t u
        ⊎ ((again : Result ℕ) (other : Pubkey) (more : ℕ)
            → run_deposit again other more u ≡ fail runtime)
  unfolding run_deposit
  run_deposit_once created signer amount s h r =
      let (_, there, _, _) = deposit-created created signer amount s h in
      elim (created-stays there r) [
        | inl w ↦ inl w
        | inr stays ↦ inr (λ again other more. rw stays refl)
      ]
