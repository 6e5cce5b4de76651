-- ===== src/Program/Submit/Main.antt =====
-- Extending the main chain: the state that the account represents, and what a successful
-- `submit_block_headers` does to it.
use native.Mathlib.Nat.{add-zero}
use mathlib.Core.Path.{subst}
use bitcoin_svm_bridge.Prelude.{
  ℕ, suc, ◌+◌, ◌≤◌, ◌<◌, ◌≡◌, inl, inr, refl, sym, ap, ◌∙◌, List, [], ◌∷◌, true, not, ok, bind_ok,
  ok-injective, ℤ, ==_refl, length, arith,
}
use bitcoin_svm_bridge.ArrayUtils.{Bytes}
use bitcoin_svm_bridge.Structs.{
  Platform, Pubkey, BlockHeader, CommittedBlockHeader, Event, get_block_hash, get_commit_hash,
  zero_hash,
}
use bitcoin_svm_bridge.State.{MainState, store_block_commitment}
use bitcoin_svm_bridge.State.Ring.{
  InWindow, stored, SameRing, InWindow-same, get_position-lt, InWindow-stored,
}
use bitcoin_svm_bridge.State.Commitment.{
  History, update, Represents, Represents-stored, Represents-same,
}
use bitcoin_svm_bridge.Program.Loop.{Cursor, start_at}
use bitcoin_svm_bridge.Program.Loop.Chain.{
  Chain, Ran, tip_of, commit_of, commit_of_pos, length-Chain, store_all, events_of,
}
use bitcoin_svm_bridge.Program.Submit.{is_empty, store_main, update_globals}

-- the history with the commitments of `commits` on the heights from `top + 1` on
abbrev pub extend : Platform → History → ℕ → List CommittedBlockHeader → History
extend p hist top [] = hist
extend p hist top (next ∷ commits) =
    extend p (update hist (top + 1) (get_commit_hash p next)) (top + 1) commits

-- what a store leaves alone
pub record SameGlobals (s t : MainState) : Type 0 where
  pub last_diff_adjustment : t.last_diff_adjustment ≡ s.last_diff_adjustment
  pub block_height : t.block_height ≡ s.block_height
  pub fork_counter : t.fork_counter ≡ s.fork_counter
  pub tip_commit_hash : t.tip_commit_hash ≡ s.tip_commit_hash
  pub tip_block_hash : t.tip_block_hash ≡ s.tip_block_hash
  pub chain_work : t.chain_work ≡ s.chain_work

-- A store in the window that succeeds is the write.
pub store_main-eq-ok :
    (h : ℕ) (c : Bytes) (s : MainState) {t : MainState}
    → InWindow s h
    → store_main h c s ≡ ok t
    → t ≡ stored s h c
unfolding store_main store_block_commitment
store_main-eq-ok h c s w e = ground (arith, get_position-lt s h w)

-- The stores of the loop extend the history that the account represents.
pub store_all-Represents :
    (p : Platform) {lo : ℕ} (top : ℕ) {hist : History} (commits : List CommittedBlockHeader)
    (s : MainState) {t : MainState}
    → Represents lo top hist s
    → InWindow s top
    → InWindow s (top + 1)
    → store_all p store_main top commits s ≡ ok t
    → Represents lo (top + length commits) (extend p hist top commits) t
      × InWindow t (top + length commits)
      × InWindow t (top + length commits + 1)
      × SameGlobals s t
store_all-Represents p top [] s r v w e =
    rw (← ok-injective e, add-zero)
      (
        r,
        v,
        w,
        record {
          last_diff_adjustment = refl;
          block_height = refl;
          fork_counter = refl;
          tip_commit_hash = refl;
          tip_block_hash = refl;
          chain_work = refl;
        },
      )
store_all-Represents p {lo} top {hist} (next ∷ commits) s {t} r v w e =
    bind_ok (store_main (top + 1) c s) (store_all p store_main (top + 1) commits) e
      λ s' stores rest.
        let at = store_main-eq-ok (top + 1) c s w stores in
        let (r', v', w', g) =
          store_all-Represents p (top + 1) commits (stored s (top + 1) c) (Represents-stored c r w)
            (InWindow-stored s (top + 1) (top + 1) c w (inl w) (omega arith))
            (InWindow-stored s (top + 1) (top + 1 + 1) c w (inr refl) (omega arith))
            (rw at at rest) in
        rw shifted (
          r',
          v',
          w',
          record {
            last_diff_adjustment = g.last_diff_adjustment;
            block_height = g.block_height;
            fork_counter = g.fork_counter;
            tip_commit_hash = g.tip_commit_hash;
            tip_block_hash = g.tip_block_hash;
            chain_work = g.chain_work;
          },
        )
  where
    c : Bytes
    c = get_commit_hash p next

    shifted : top + suc (length commits) ≡ top + 1 + length commits
    shifted = omega arith

-- The account of a relay whose main chain is `hist`: the buffer represents the chain up to the tip,
-- the next block has a place, and the tip's commitment is the one that is kept beside the buffer.
pub record IsValid (lo : ℕ) (hist : History) (s : MainState) : Type 0 where
  pub ring : Represents lo s.block_height hist s
  pub here : InWindow s s.block_height
  pub room : InWindow s (s.block_height + 1)
  pub tip : s.tip_commit_hash ≡ hist s.block_height
  pub kept : lo ≤ s.block_height

-- What a submission of headers on top of the height `top` has done to the main chain: a chain of
-- accepted headers from the committed one on, whose commitments extend the chain `hist` above `top`,
-- with the tip, its work and the events.
pub record Extended (p : Platform) (clock : ℤ)
    (event : Bytes → Bytes → CommittedBlockHeader → Event) (headers : List BlockHeader)
    (keys : List Pubkey) (commited : CommittedBlockHeader) (lo : ℕ) (hist : History) (top : ℕ)
    (t : MainState) (events : List Event) (commits : List CommittedBlockHeader) : Type 0 where
  pub chain : Chain p clock commited headers keys commits
  pub parent : get_commit_hash p commited ≡ hist top
  pub valid : IsValid lo (extend p hist top commits) t
  pub height : t.block_height ≡ top + length headers
  pub work : t.chain_work ≡ (tip_of commited commits).chain_work
  pub block_hash : t.tip_block_hash ≡ get_block_hash p (tip_of commited commits).header
  pub commit_hash : t.tip_commit_hash ≡ get_commit_hash p (tip_of commited commits)
  pub emitted : events ≡ events_of p event commits

extend-top :
    (p : Platform) (hist : History) (top : ℕ) (commits : List CommittedBlockHeader)
    → extend p hist top commits (top + length commits) ≡ commit_of p (hist top) commits
extend-top p hist top [] = ap hist (add-zero top)
extend-top p hist top (next ∷ commits) =
    ap (extend p (update hist (top + 1) c) (top + 1) commits) shifted
    ∙ extend-top p (update hist (top + 1) c) (top + 1) commits
    ∙ ap (λ (x : Bytes). commit_of p x commits) (rw (==_refl (top + 1)))
  where
    c : Bytes
    c = get_commit_hash p next

    shifted : top + suc (length commits) ≡ top + 1 + length commits
    shifted = omega arith

pub is_empty-pos : (headers : List BlockHeader) → not (is_empty headers) ≡ true → 0 < length headers
is_empty-pos [] h = cc
is_empty-pos (header ∷ headers) h = omega arith

-- The account behind the stores of some headers, once its tip is the last of them.
pub IsValid-of_stores :
    (p : Platform) {lo top : ℕ} {hist : History} (last : CommittedBlockHeader)
    (commits : List CommittedBlockHeader) (s : MainState) {stores final : MainState}
    → Represents lo top hist s
    → InWindow s top
    → InWindow s (top + 1)
    → lo ≤ top
    → 0 < length commits
    → store_all p store_main top commits s ≡ ok stores
    → SameRing stores final
    → final.block_height ≡ top + length commits
    → final.tip_commit_hash ≡ get_commit_hash p (tip_of last commits)
    → IsValid lo (extend p hist top commits) final
IsValid-of_stores p {lo} {top} {hist} last commits s {stores} {final} ring here room kept
      some_commit stored_all unchanged tall tip =
    let (ring', here', room', _) = store_all-Represents p top commits s ring here room stored_all in
    let longer = extend p hist top commits in
    record {
      ring = subst (λ n. Represents lo n longer final) (sym tall) (Represents-same unchanged ring');
      here = subst (λ n. InWindow final n) (sym tall) (InWindow-same _ unchanged here');
      room = subst (λ n. InWindow final (n + 1)) (sym tall) (InWindow-same _ unchanged room');
      tip =
          tip
          ∙ sym (commit_of_pos p (hist top) last commits some_commit)
          ∙ sym (extend-top p hist top commits)
          ∙ ap longer (sym tall);
      kept = omega (arith, kept, tall);
    }

-- The globals that the instructions write behind the loop, over the account that the loop left.
module _ (p : Platform) (clock : ℤ) (event : Bytes → Bytes → CommittedBlockHeader → Event)
    (keys : List Pubkey) {lo top : ℕ} {hist : History} (headers : List BlockHeader)
    (commited : CommittedBlockHeader) (s : MainState) (ring : Represents lo top hist s)
    (here : InWindow s top) (room : InWindow s (top + 1)) (kept : lo ≤ top)
    (some_header : 0 < length headers) (parent : get_commit_hash p commited ≡ hist top)
    (d : Cursor MainState) (commits : List CommittedBlockHeader)
    (ran : Ran p clock store_main event headers keys (start_at p s commited top) d commits)
    (counter : ℕ) where
  abbrev final : MainState
  final = record (update_globals d d.account) { fork_counter = counter }

  pub Extended-of_Ran :
      Extended p clock event headers keys commited lo hist top final d.events commits
  Extended-of_Ran =
      let count = length-Chain p clock commited headers keys commits ran.chain in
      let tall : d.block_height ≡ top + length commits = omega (arith, ran.height, count) in
      let none_before : 0 < length commits = omega (arith, count) in
      let unchanged : SameRing d.account final = record { start = refl; commitments = refl } in
      let commit_hash = ran.commit ∙ commit_of_pos p zero_hash commited commits none_before in
      record {
        chain = ran.chain;
        parent = parent;
        valid =
            IsValid-of_stores p commited commits s ring here room kept none_before ran.stores
              unchanged tall commit_hash;
        height = ran.height;
        work = ap (λ (c : CommittedBlockHeader). c.chain_work) ran.tip;
        block_hash =
            ran.tip_hash ∙ ap (λ (c : CommittedBlockHeader). get_block_hash p c.header) ran.tip;
        commit_hash = commit_hash;
        emitted = ran.emitted;
      }
