-- ===== src/Program/Fork/Stored.antt =====
-- The headers of a fork over several submissions: what the fork's account holds of them, and what the
-- loop copies to the main chain.
use mathlib.Core.Path.{subst}
use mathlib.Core.List.{append_assoc, append-nil}
use bitcoin_svm_bridge.Prelude.{
  ℕ, suc, ◌+◌, ◌≡◌, refl, sym, ap, ◌∙◌, List, [], ◌∷◌, ◌++◌, map, ok, or_panic, checked_add,
  checked_add-eq-ok, bind_ok, ok-injective, ℤ, get_elem?, length, arith,
}
use bitcoin_svm_bridge.ArrayUtils.{Bytes}
use bitcoin_svm_bridge.Structs.{
  Platform, Pubkey, BlockHeader, CommittedBlockHeader, get_block_hash, get_commit_hash,
}
use bitcoin_svm_bridge.State.{MainState, ForkState, store_fork_commitment}
use bitcoin_svm_bridge.State.Fork.{Held, Buffer, store_fork_commitment-Buffer}
use bitcoin_svm_bridge.Utils.Header.{verify_header}
use bitcoin_svm_bridge.Utils.Header.Rules.{verify_header_result}
use bitcoin_svm_bridge.Program.Loop.Chain.{Chain, tip_of, store_all}
use bitcoin_svm_bridge.Program.Submit.{store_main, store_on_fork}
use bitcoin_svm_bridge.Program.Fork.{copy_commitments}

module _ (p : Platform) where
  -- Each header names the block before it and was accepted on top of it, at a time of its own.
  abbrev pub Accepted : CommittedBlockHeader → List CommittedBlockHeader → Type 0
  Accepted last [] = Unit
  Accepted last (next ∷ commits) =
      ((clock : ℤ) × (key : Pubkey) × (verify_header p clock next.header last key
          ≡ ok (get_block_hash p next.header, next)))
      × (get_block_hash p last.header ≡ next.header.reversed_prev_blockhash)
      × Accepted next commits

  pub Accepted-of_Chain :
      (clock : ℤ) (last : CommittedBlockHeader) (headers : List BlockHeader) (keys : List Pubkey)
      (commits : List CommittedBlockHeader)
      → Chain p clock last headers keys commits
      → Accepted last commits
  Accepted-of_Chain clock last [] keys [] c = tt
  Accepted-of_Chain clock last [] keys (next ∷ commits) c = elim c [ ]
  Accepted-of_Chain clock last (header ∷ headers) [] commits c = elim c [ ]
  Accepted-of_Chain clock last (header ∷ headers) (key ∷ keys) [] c = elim c [ ]
  Accepted-of_Chain clock last (header ∷ headers) (key ∷ keys) (next ∷ commits)
        (link, accepted, same, chain) =
      (
        (
          clock,
          key,
          subst
              (λ (h : BlockHeader).
                verify_header p clock h last key ≡ ok (get_block_hash p h, next))
              (sym same) accepted,
        ),
        rw same link,
        Accepted-of_Chain clock next headers keys commits chain,
      )

  pub Accepted-append :
      (last : CommittedBlockHeader) (commits more : List CommittedBlockHeader)
      → Accepted last commits
      → Accepted (tip_of last commits) more
      → Accepted last (commits ++ more)
  Accepted-append last [] more a b = b
  Accepted-append last (next ∷ commits) more (here, link, a) b =
      (here, link, Accepted-append next commits more a b)

  -- Along accepted headers the height grows by one.
  pub blockheight-tip_of :
      (last : CommittedBlockHeader) (commits : List CommittedBlockHeader)
      → Accepted last commits
      → (tip_of last commits).blockheight ≡ last.blockheight + length commits
  blockheight-tip_of last [] a = omega arith
  blockheight-tip_of last (next ∷ commits) ((clock, key, accepted), link, a) =
      let (_, _, up) = verify_header_result p clock next.header last key accepted in
      omega (arith, blockheight-tip_of next commits a, up)

  abbrev pub hashes_of : List CommittedBlockHeader → List Bytes
  hashes_of commits = map (get_commit_hash p) commits

  pub length-hashes_of :
      (commits : List CommittedBlockHeader) → length (hashes_of commits) ≡ length commits
  length-hashes_of [] = refl
  length-hashes_of (next ∷ commits) = ap suc (length-hashes_of commits)

  -- The loop's stores on a fork's account, behind the commitments that it holds.
  pub store_all-Buffer :
      (height : ℕ) (hashes : List Bytes) (commits : List CommittedBlockHeader) (f : ForkState)
      {g : ForkState}
      → Buffer hashes f
      → store_all p store_on_fork height commits f ≡ ok g
      → Buffer (hashes ++ hashes_of commits) g
        × (g.start_height ≡ f.start_height)
        × (g.initialized ≡ f.initialized)
  unfolding store_on_fork
  store_all-Buffer height hashes [] f b h = rw (append-nil hashes, ← ok-injective h) (b, refl, refl)
  store_all-Buffer height hashes (next ∷ commits) f b h =
      bind_ok (store_fork_commitment (get_commit_hash p next) f) _ h λ f' e rest.
        let (_, b', start, init) = store_fork_commitment-Buffer (get_commit_hash p next) f b e in
        let (b'', start', init') =
          store_all-Buffer (height + 1) (hashes ++ (get_commit_hash p next ∷ [])) commits f' b'
            rest in
        (
          rw (append_assoc hashes (get_commit_hash p next ∷ []) (hashes_of commits)) at b'',
          start' ∙ start,
          init' ∙ init,
        )

  -- The loop that overwrites the main chain stores the fork's commitments one height after the
  -- other.
  pub copy_commitments-store_all :
      (i : ℕ) (commits : List CommittedBlockHeader) (fork : ForkState) (main : MainState)
      {t : MainState}
      → Held fork.block_commitments (hashes_of commits) i
      → copy_commitments (length commits) i fork main ≡ ok t
      → store_all p store_main (fork.start_height + i) commits main ≡ ok t
  unfolding copy_commitments
  copy_commitments-store_all i [] fork main held h = h
  copy_commitments-store_all i (next ∷ commits) fork main (here, held) h =
      bind_ok (checked_add 32 fork.start_height 1) _ h λ base e0 h0.
        bind_ok (checked_add 32 base i) _ h0 λ height e1 h1.
          bind_ok (or_panic (get_elem? fork.block_commitments i)) _ h1 λ commit_hash e2 h2.
            bind_ok (store_main height commit_hash main) _ h2 λ main' e3 rest.
              let (sum0, _) = checked_add-eq-ok 32 fork.start_height 1 e0 in
              let (sum1, _) = checked_add-eq-ok 32 base i e1 in
              let at_height : height ≡ fork.start_height + i + 1 = omega (arith, sum0, sum1) in
              let named : commit_hash ≡ get_commit_hash p next =
                ok-injective (sym e2 ∙ ap or_panic here) in
              let later : fork.start_height + (i + 1) ≡ fork.start_height + i + 1 = omega arith in
              let done = copy_commitments-store_all (i + 1) commits fork main' held rest in
              rw (rw (at_height, named) at e3) (rw later at done)
