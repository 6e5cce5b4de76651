-- ===== src/Program/Submit/Accepted.antt =====
-- Successful submissions: what `submit_block_headers` and `submit_short_fork_headers` do to a valid
-- account.
use bitcoin_svm_bridge.Prelude.{
  ◌≤◌, ◌<◌, ◌≢◌, ◌+◌, sym, arith, fork_too_short, true, checked_add, checked_add-eq-ok,
}
use bitcoin_svm_bridge.ArrayUtils.{gt_arr}
use bitcoin_svm_bridge.Structs.{store_fork, zero_hash}
use bitcoin_svm_bridge.State.Commitment.{Represents-rewind}
use bitcoin_svm_bridge.State.Ring.{InWindow}
use bitcoin_svm_bridge.Program.Submit.{submit_short_fork_headers}
use bitcoin_svm_bridge.Prelude.{
  ℕ, ◌≡◌, refl, ap, ◌∙◌, List, not, ok, no_headers, invalid_remaining_accounts,
  prev_block_commitment, bind_ok, require_ok, ok-injective, bytes_eq, bytes_eq→eq, ℤ, ◌==◌, length,
  arith,
}
use bitcoin_svm_bridge.ArrayUtils.{Bytes}
use bitcoin_svm_bridge.Structs.{
  Platform, Pubkey, BlockHeader, CommittedBlockHeader, Event, store_header, get_commit_hash,
}
use bitcoin_svm_bridge.State.{MainState, get_commitment}
use bitcoin_svm_bridge.State.Commitment.{History, commitment_spec, get_commitment_refines}
use bitcoin_svm_bridge.Program.Loop.{start_at, header_loop}
use bitcoin_svm_bridge.Program.Loop.Chain.{header_loop-Ran}
use bitcoin_svm_bridge.Program.Submit.{is_empty, store_main, submit_block_headers}
use bitcoin_svm_bridge.Program.Submit.Main.{
  IsValid, Extended, Extended-of_Ran, store_all-Represents, is_empty-pos,
}

-- The commitment of the tip, if the tip has reached 250.
pub get_commitment-tip :
    {lo : ℕ} {hist : History} {s : MainState} {c : Bytes}
    → IsValid lo hist s
    → get_commitment s s.block_height ≡ ok c
    → c ≡ hist s.block_height
unfolding commitment_spec
get_commitment-tip {lo} {hist} {s} v e = ground (
  arith,
  e,
  v.here.low,
  get_commitment_refines lo s s.block_height v.ring (omega (arith, v.room.high)) v.kept,
)

kept_lem :
    (hist : History) (s : MainState) (h : ℕ) {c : Bytes}
    → commitment_spec s hist h ≡ ok c
    → c ≢ zero_hash
    → (c ≡ hist h) × (h ≤ s.block_height) × (s.start_height < h + 250)
unfolding commitment_spec
kept_lem hist s h e filled =
    (ground (arith, e, filled), ground (arith, e, filled), ground (arith, e, filled))

-- A commitment that is not zero is that of a block of the main chain, and still has its place.
pub get_commitment-kept :
    {lo : ℕ} {hist : History} {s : MainState} {h : ℕ} {c : Bytes}
    → IsValid lo hist s
    → lo ≤ h
    → c ≢ zero_hash
    → get_commitment s h ≡ ok c
    → (c ≡ hist h) × (h ≤ s.block_height) × (s.start_height < h + 250)
get_commitment-kept {lo} {hist} {s} {h} v above filled e =
    let spec = get_commitment_refines lo s h v.ring (omega (arith, v.room.high)) above in
    kept_lem hist s h (sym spec ∙ e) filled

module _ (p : Platform) (clock : ℤ) (keys : List Pubkey) where
  -- On a valid account, every `submit_block_headers` that succeeds extends the main chain by a
  -- chain of accepted headers on top of the tip: it keeps the account valid for the longer chain, the
  -- height, the work, the tip and the events are those of that chain, and the fork counter stays.
  pub submit_block_headers_extends :
      {lo : ℕ} {hist : History} (headers : List BlockHeader) (commited : CommittedBlockHeader)
      (s : MainState) {t : MainState} {events : List Event}
      → IsValid lo hist s
      → submit_block_headers p clock keys headers commited s ≡ ok (t, events)
      → (commits : List CommittedBlockHeader) × Extended p clock store_header headers keys commited
          lo hist s.block_height t events commits
        × (t.fork_counter ≡ s.fork_counter)
  unfolding submit_block_headers
  submit_block_headers_extends headers commited s v h =
      require_ok (not (is_empty headers)) no_headers _ h λ e0 h0.
        require_ok (length headers == length keys) invalid_remaining_accounts _ h0 λ e1 h1.
          bind_ok (get_commitment s s.block_height) _ h1 λ tip e2 h2.
            require_ok (bytes_eq (get_commit_hash p commited) tip) prev_block_commitment _ h2
              λ e3 h3.
                bind_ok
                  (header_loop p clock store_main store_header headers keys
                    (start_at p s commited s.block_height))
                  _ h3
                  λ d e4 h4.
                    let (commits, ran) =
                      header_loop-Ran p clock store_main store_header headers keys _ refl e4 in
                    let parent = bytes_eq→eq _ _ e3 ∙ get_commitment-tip v e2 in
                    let done =
                      Extended-of_Ran p clock store_header keys headers commited s v.ring v.here
                        v.room v.kept (is_empty-pos headers e0) parent d commits ran
                        d.account.fork_counter in
                    let (_, _, _, same_globals) =
                      store_all-Represents p s.block_height commits s v.ring v.here v.room
                        ran.stores in
                    let same = ok-injective h4 in
                    (
                      commits,
                      rw
                          (
                            ← ap (λ (r : MainState × List Event). r.0) same,
                            ← ap (λ (r : MainState × List Event). r.1) same,
                          )
                          done,
                      rw (← ap (λ (r : MainState × List Event). r.0) same)
                          same_globals.fork_counter,
                    )

  -- On a valid account, every `submit_short_fork_headers` that succeeds has replaced the blocks above
  -- the committed header by a chain of accepted headers with strictly more work than the main chain:
  -- the account is valid for the new chain, the tip is that chain's, and the fork counter has
  -- grown by one. The committed header stands in the part of the chain that the account represents,
  -- and its commitment is not zero; the account stays right from any height on that is less
  -- than 250 below the old tip.
  pub submit_short_fork_headers_reorg :
      {lo : ℕ} {hist : History} (headers : List BlockHeader) (commited : CommittedBlockHeader)
      (s : MainState) {t : MainState} {events : List Event} (lo' : ℕ)
      → IsValid lo hist s
      → get_commit_hash p commited ≢ zero_hash
      → lo ≤ lo'
      → lo' ≤ commited.blockheight
      → s.block_height < lo' + 250
      → submit_short_fork_headers p clock keys headers commited s ≡ ok (t, events)
      → (commits : List CommittedBlockHeader) × Extended p clock
          (store_fork s.fork_counter)
          headers
          keys
          commited
          lo'
          hist
          commited.blockheight
          t
          events
          commits
        × (gt_arr t.chain_work s.chain_work ≡ true)
        × (t.fork_counter ≡ s.fork_counter + 1)
  unfolding submit_short_fork_headers
  submit_short_fork_headers_reorg headers commited s lo' v filled above below near h =
      require_ok (not (is_empty headers)) no_headers _ h λ e0 h0.
        require_ok (length headers == length keys) invalid_remaining_accounts _ h0 λ e1 h1.
          bind_ok (get_commitment s commited.blockheight) _ h1 λ ancestor e2 h2.
            require_ok (bytes_eq (get_commit_hash p commited) ancestor) prev_block_commitment _ h2
              λ e3 h3.
                bind_ok
                  (header_loop p clock store_main (store_fork s.fork_counter) headers keys
                    (start_at p s commited commited.blockheight))
                  _ h3
                  λ d e4 h4.
                    require_ok (gt_arr d.last_commited_header.chain_work d.account.chain_work)
                      fork_too_short _ h4
                      λ e5 h5. bind_ok (checked_add 64 s.fork_counter 1) _ h5 λ counter e6 h6.
                        let (commits, ran) =
                          header_loop-Ran p clock store_main (store_fork s.fork_counter) headers
                            keys _ refl e4 in
                        let named = bytes_eq→eq _ _ e3 in
                        let (parent, under, low) =
                          get_commitment-kept v (omega arith) (λ e. filled (named ∙ e)) e2 in
                        let ring =
                          Represents-rewind lo' commited.blockheight v.ring above under near in
                        let here : InWindow s commited.blockheight = record {
                          low = low;
                          high = omega (arith, v.here.high);
                        } in
                        let room : InWindow s (commited.blockheight + 1) = record {
                          low = omega arith;
                          high = omega (arith, v.room.high);
                        } in
                        let done =
                          Extended-of_Ran p clock (store_fork s.fork_counter) keys headers commited
                            s ring here room below (is_empty-pos headers e0) (named ∙ parent) d
                            commits ran counter in
                        let (_, _, _, same_globals) =
                          store_all-Represents p commited.blockheight commits s ring here room
                            ran.stores in
                        let same = ok-injective h6 in
                        let (sum, _) = checked_add-eq-ok 64 s.fork_counter 1 e6 in
                        (
                          commits,
                          rw
                              (
                                ← ap (λ (r : MainState × List Event). r.0) same,
                                ← ap (λ (r : MainState × List Event). r.1) same,
                              )
                              done,
                          rw
                              (
                                ← ap (λ (r : MainState × List Event). r.0) same,
                                ← same_globals.chain_work,
                              )
                              e5,
                          rw (← ap (λ (r : MainState × List Event). r.0) same) sum,
                        )
