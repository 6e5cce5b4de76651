-- ===== src/Program/Bridge/Sound.antt =====
-- Sound accounts of the program, and the steps between them.
use bitcoin_svm_bridge.Prelude.{
  ℕ, ◌≡◌, ◌⊎◌, ◌==◌, ◌&&◌, inl, inr, refl, List, Bool, true, false, not, Option, none, some, ok,
  no_headers, invalid_remaining_accounts, require_ok, bytes_eq, if◌then◌else◌, length, Bool-cases,
  ℤ,
}
use bitcoin_svm_bridge.Structs.{Platform, Pubkey, BlockHeader, CommittedBlockHeader}
use bitcoin_svm_bridge.State.{ForkState}
use bitcoin_svm_bridge.Program.Submit.{is_empty}
use bitcoin_svm_bridge.Program.Fork.{ForkOutcome, submit_fork_headers}
use bitcoin_svm_bridge.Program.Fork.Course.{IsFresh}
use bitcoin_svm_bridge.Program.Transaction.{BitcoinCrate}
use bitcoin_svm_bridge.Program.Tree.{IsClear, TipStep, stays, IsSound}
use bitcoin_svm_bridge.Program.Tree.Submit.{
  submit_block_headers-IsSound, submit_short_fork_headers-IsSound,
}
use bitcoin_svm_bridge.Program.Tree.Forks.{IsSoundFork, IsSoundFork-later, LeavesSound}
use bitcoin_svm_bridge.Program.Tree.Forks.Submitted.{
  submit_fork_headers-LeavesSound_new, submit_fork_headers-LeavesSound_old,
}
use bitcoin_svm_bridge.Program.Bridge.{
  Bridge, new_fork_state, loader_of, put_fork, Step, small, init_big, store, finalize, fund, submit,
  short_fork, fork, close_fork, outside,
}
use bitcoin_svm_bridge.Program.Bridge.Steps.{
  small-credit, init_big-IsProven, store-longer, finalize-credit, deposit-same, fork-outcome,
  closed-forks,
}

new_fork_state-IsFresh : IsFresh new_fork_state
new_fork_state-IsFresh = record { size = refl; closed = refl; empty = refl }

-- what is at a key behind a write
put_fork-some :
    (fork_id : ℕ) (signer : Pubkey) (v : Option ForkState) (m : ℕ → Pubkey → Option ForkState)
    (id : ℕ) (key : Pubkey) {f : ForkState}
    → put_fork fork_id signer v m id key ≡ some f
    → (v ≡ some f) ⊎ (m id key ≡ some f)
put_fork-some fork_id signer v m id key h =
    elim (Bool-cases (id == fork_id && bytes_eq key signer)) [
      | inl e ↦ inl (rw e at h)
      | inr e ↦ inr (rw e at h)
    ]

left_open :
    (close : Bool) (f : ForkState) {g : ForkState}
    → (if close then none else some f) ≡ some g
    → (close ≡ false) × (f ≡ g)
left_open true f e = cc
left_open false f e = (refl, cc)

-- The main account is sound, and so is the account of every fork.
pub record IsSoundBridge (p : Platform) (first : CommittedBlockHeader) (s : Bridge) : Type 0 where
  pub main : IsSound p first s.main
  pub forks :
      (fork_id : ℕ) (key : Pubkey) (f : ForkState)
      → s.forks fork_id key ≡ some f
      → IsSoundFork p first s.main.start_height f

module _ (p : Platform) {Transaction : Type 0} (b : BitcoinCrate Transaction)
    (first : CommittedBlockHeader) {Passed : CommittedBlockHeader → Type 0}
    (clear : (c : CommittedBlockHeader) → Passed c → IsClear p first c) where
  -- One submission to the account that Anchor's loader has for it.
  run-LeavesSound :
      (clock : ℤ) (keys : List Pubkey) (headers : List BlockHeader)
      (commited : CommittedBlockHeader) (fork_id : ℕ) (init : Bool) (account : Option ForkState)
      (s : Bridge) {out : ForkOutcome}
      → IsClear p first commited
      → (v : IsSoundBridge p first s)
      → ((f : ForkState) → account ≡ some f → IsSoundFork p first s.main.start_height f)
      → submit_fork_headers p clock keys headers commited fork_id init (loader_of account) s.main
        ≡ ok out
      → LeavesSound p first s.main v.main.tip out
  unfolding submit_fork_headers
  run-LeavesSound clock keys headers commited fork_id true none s c v account h =
      submit_fork_headers-LeavesSound_new p first clock keys headers commited fork_id s.main
        (loader_of none) c v.main refl new_fork_state-IsFresh h
  run-LeavesSound clock keys headers commited fork_id false (some f) s c v account h =
      submit_fork_headers-LeavesSound_old p first clock keys headers commited fork_id s.main
        (loader_of (some f)) c v.main refl (account f refl) h
  run-LeavesSound clock keys headers commited fork_id true (some f) s c v account h =
      require_ok (not (is_empty headers)) no_headers _ h λ e0 h0.
        require_ok (length headers == length keys) invalid_remaining_accounts _ h0 λ e1 h1. (cc)
  run-LeavesSound clock keys headers commited fork_id false none s c v account h =
      require_ok (not (is_empty headers)) no_headers _ h λ e0 h0.
        require_ok (length headers == length keys) invalid_remaining_accounts _ h0 λ e1 h1. (cc)

  same_accounts :
      (s t : Bridge) (v : IsSoundBridge p first s)
      → t.main ≡ s.main
      → t.forks ≡ s.forks
      → (v' : IsSoundBridge p first t) × TipStep p first v.main.tip v'.main.tip
  same_accounts s t v same_main same_forks =
      let (main, stay) = kept same_main in
      (
        record {
          main = main;
          forks = λ fork_id key f h. rw same_main (v.forks fork_id key f (rw same_forks at h));
        },
        stays stay,
      )
    where
      kept : t.main ≡ s.main → (m : IsSound p first t.main) × (m.tip ≡ v.main.tip)
      kept e = rw e (v.main, refl)

  pub Step-IsSoundBridge :
      (s : Bridge) {t : Bridge} (v : IsSoundBridge p first s)
      → Step p b Passed s t
      → (v' : IsSoundBridge p first t) × TipStep p first v.main.tip v'.main.tip
  Step-IsSoundBridge s v (small tx_bytes confirmations tx_index proof commited receiver passed e) =
      let (_, _, same) =
        small-credit p b tx_bytes confirmations tx_index proof commited receiver s e in
      rw same (same_accounts s _ v refl refl)
  Step-IsSoundBridge s v
        (init_big created key tx_size confirmations tx_index proof commited passed e) =
      let (_, _, _, same) =
        init_big-IsProven p b created key tx_size confirmations tx_index proof commited s e in
      rw same (same_accounts s _ v refl refl)
  Step-IsSoundBridge s v (store key bytes e) =
      let (_, _, _, same) = store-longer p b key bytes s e in
      rw same (same_accounts s _ v refl refl)
  Step-IsSoundBridge s v (finalize key receiver e) =
      let (_, _, _, _, same) = finalize-credit p b key receiver s e in
      rw same (same_accounts s _ v refl refl)
  Step-IsSoundBridge s v (submit clock keys headers commited main events passed e) =
      let (sound, up, tip_step) =
        submit_block_headers-IsSound p clock keys first headers commited s.main
          (clear commited passed) v.main e in
      (
        record {
          main = sound;
          forks = λ fork_id key f h. IsSoundFork-later p first f up (v.forks fork_id key f h);
        },
        tip_step,
      )
  Step-IsSoundBridge s v (short_fork clock keys headers commited main events passed e) =
      let (sound, up, tip_step) =
        submit_short_fork_headers-IsSound p clock keys first headers commited s.main
          (clear commited passed) v.main e in
      (
        record {
          main = sound;
          forks = λ fork_id key f h. IsSoundFork-later p first f up (v.forks fork_id key f h);
        },
        tip_step,
      )
  Step-IsSoundBridge s v (fork clock keys headers commited fork_id init created signer passed e) =
      let (out, ran, same) =
        fork-outcome p clock keys headers commited fork_id init created signer s e in
      let left =
        run-LeavesSound clock keys headers commited fork_id init (s.forks fork_id signer) s
          (clear commited passed) v (v.forks fork_id signer) ran in
      rw same (
        (
          record {
            main = left.sound;
            forks = λ id key f h. elim (put_fork-some fork_id signer _ s.forks id key h) [
              | inl new ↦
                  let (waits, named) = left_open out.close out.fork new in
                  rw (← named) (left.fork waits)
              | inr old ↦ IsSoundFork-later p first f left.up (v.forks id key f old)
            ];
          },
          left.tip_step,
        ))
  Step-IsSoundBridge s v (close_fork fork_id signer e) = rw (closed-forks fork_id signer s e) (
      (
        record {
          main = v.main;
          forks = λ id key f h. elim (put_fork-some fork_id signer none s.forks id key h) [
            | inl new ↦ cc
            | inr old ↦ v.forks id key f old
          ];
        },
        stays refl,
      ))
  Step-IsSoundBridge s v (outside wallets d) = same_accounts s _ v refl refl
  Step-IsSoundBridge s v (fund created signer amount e) =
      let (same_main, same_forks) = deposit-same created signer amount s e in
      same_accounts s _ v same_main same_forks
