-- ===== src/Program/Submit/Early.antt =====
-- The relay before its tip has reached 250.
use bitcoin_svm_bridge.Prelude.{
  ℕ, ◌≤◌, ◌<◌, ◌≡◌, refl, List, [], ◌∷◌, fail, panic, ==_refl, length, ℤ, arith, true, not,
}
use bitcoin_svm_bridge.Structs.{Platform, Pubkey, BlockHeader, CommittedBlockHeader}
use bitcoin_svm_bridge.State.{MainState, get_commitment}
use bitcoin_svm_bridge.Program.Submit.{is_empty, submit_block_headers, submit_short_fork_headers}

get_commitment_early :
    (s : MainState) (h : ℕ)
    → s.block_height < 250
    → h ≤ s.block_height
    → get_commitment s h ≡ fail panic
unfolding get_commitment
get_commitment_early s h a b = ground arith

pub not_empty : (headers : List BlockHeader) → 0 < length headers → not (is_empty headers) ≡ true
not_empty [] h = absurd (omega arith)
not_empty (header ∷ headers) h = refl

module _ (p : Platform) (clock : ℤ) (keys : List Pubkey) where
  -- While the tip is below 250, `submit_block_headers` panics for every committed header and every
  -- non-empty list of headers with as many accounts, and so does `submit_short_fork_headers` for a
  -- committed header that is not above the tip.
  pub submit_headers_early :
      (headers : List BlockHeader) (commited : CommittedBlockHeader) (s : MainState)
      → 0 < length headers
      → length headers ≡ length keys
      → s.block_height < 250
      → (submit_block_headers p clock keys headers commited s ≡ fail panic)
        × (commited.blockheight ≤ s.block_height
            → submit_short_fork_headers p clock keys headers commited s ≡ fail panic)
  unfolding submit_block_headers submit_short_fork_headers
  submit_headers_early headers commited s some_header count early = (
    rw
        (
          not_empty headers some_header,
          count,
          ==_refl (length keys),
          get_commitment_early s s.block_height early (omega arith),
        )
        refl,
    λ below.
        rw
          (
            not_empty headers some_header,
            count,
            ==_refl (length keys),
            get_commitment_early s commited.blockheight early below,
          )
          refl,
  )
