-- ===== src/Program/Submit/Complete.antt =====
-- When `submit_block_headers` (lib.rs) succeeds.
use bitcoin_svm_bridge.Prelude.{
  ℕ, ◌+◌, ◌^◌, ◌≤◌, ◌<◌, ◌≡◌, inl, inr, refl, sym, ap, ◌∙◌, List, [], ◌∷◌, Result, ok,
  checked_add_of_lt, eq→bytes_eq, ==_refl, bind_ok, length, ℤ, arith,
}
use bitcoin_svm_bridge.ArrayUtils.{Bytes}
use bitcoin_svm_bridge.Structs.{
  Platform, Pubkey, BlockHeader, CommittedBlockHeader, Event, store_header, get_block_hash,
  get_commit_hash,
}
use bitcoin_svm_bridge.State.{MainState, get_commitment}
use bitcoin_svm_bridge.State.Ring.{InWindow, stored, store-eq-stored, InWindow-stored}
use bitcoin_svm_bridge.State.Commitment.{History, commitment_spec, get_commitment_refines}
use bitcoin_svm_bridge.Program.Loop.{Cursor, start_at, header_step, header_loop}
use bitcoin_svm_bridge.Program.Loop.Chain.{moved, Chain, store_all, length-Chain}
use bitcoin_svm_bridge.Program.Submit.{update_globals, store_main, submit_block_headers}
use bitcoin_svm_bridge.Program.Submit.Early.{not_empty}
use bitcoin_svm_bridge.Program.Submit.Main.{IsValid}

-- The stores of a chain succeed where the count of blocks has room.
pub store_all-ok :
    (p : Platform) (top : ℕ) (commits : List CommittedBlockHeader) (s : MainState)
    → InWindow s top
    → InWindow s (top + 1)
    → s.total_blocks + length commits < 2 ^ 32
    → (t : MainState) × (store_all p store_main top commits s ≡ ok t)
unfolding store_main
store_all-ok p top [] s v w fits = (s, refl)
store_all-ok p top (next ∷ commits) s v w fits =
    let c = get_commit_hash p next in
    let (t, e) =
      store_all-ok p (top + 1) commits (stored s (top + 1) c)
        (InWindow-stored s (top + 1) (top + 1) c w (inl w) (omega arith))
        (InWindow-stored s (top + 1) (top + 1 + 1) c w (inr refl) (omega arith)) (omega arith) in
    (t, rw (store-eq-stored s (top + 1) c w (omega arith)) e)

module _ (p : Platform) (clock : ℤ) {S : Type 0} (store : ℕ → Bytes → S → Result S)
    (event : Bytes → Bytes → CommittedBlockHeader → Event) where
  -- The loop succeeds on a chain of accepted headers whose commitments can be stored.
  pub header_loop-ok :
      (headers : List BlockHeader) (keys : List Pubkey) (commits : List CommittedBlockHeader)
      (c : Cursor S) (t : S)
      → c.last_block_hash ≡ get_block_hash p c.last_commited_header.header
      → Chain p clock c.last_commited_header headers keys commits
      → c.block_height + length headers < 2 ^ 32
      → store_all p store c.block_height commits c.account ≡ ok t
      → (d : Cursor S) × (header_loop p clock store event headers keys c ≡ ok d)
  unfolding header_loop header_step
  header_loop-ok [] keys [] c t start chain fits stores = (c, refl)
  header_loop-ok [] keys (next ∷ commits) c t start chain fits stores = elim chain [ ]
  header_loop-ok (header ∷ headers) [] commits c t start chain fits stores = elim chain [ ]
  header_loop-ok (header ∷ headers) (key ∷ keys) [] c t start chain fits stores = elim chain [ ]
  header_loop-ok (header ∷ headers) (key ∷ keys) (next ∷ commits) c t start
        (link, accepted, same, chain) fits stores =
      bind_ok (store (c.block_height + 1) (get_commit_hash p next) c.account) _ stores
        λ account e rest.
          let c' =
            moved p clock store event c account (get_block_hash p header) (c.block_height + 1)
              next in
          let (d, ran) =
            header_loop-ok headers keys commits c' t (ap (get_block_hash p) (sym same)) chain
              (omega arith) rest in
          (
            d,
            rw
                (
                  eq→bytes_eq _ _ (start ∙ link),
                  checked_add_of_lt 32 c.block_height 1 (omega arith),
                  accepted,
                  e,
                )
                ran,
          )

get_commitment-tip_ok :
    {lo : ℕ} {hist : History} {s : MainState}
    → IsValid lo hist s
    → 250 ≤ s.block_height
    → get_commitment s s.block_height ≡ ok (hist s.block_height)
unfolding commitment_spec
get_commitment-tip_ok {lo} {hist} {s} v high = ground (
  arith,
  v.here.low,
  get_commitment_refines lo s s.block_height v.ring (omega (arith, v.room.high)) v.kept,
)

module _ (p : Platform) (clock : ℤ) (keys : List Pubkey) where
  -- On a valid account whose tip has reached 250, `submit_block_headers` succeeds for every
  -- non-empty chain of accepted headers on top of the tip, with one account for each header, as long as
  -- the height and the count of stored blocks stay below 2 ^ 32.
  pub submit_block_headers_succeeds :
      {lo : ℕ} {hist : History} (headers : List BlockHeader) (commited : CommittedBlockHeader)
      (commits : List CommittedBlockHeader) (s : MainState)
      → IsValid lo hist s
      → 250 ≤ s.block_height
      → get_commit_hash p commited ≡ hist s.block_height
      → 0 < length headers
      → length headers ≡ length keys
      → Chain p clock commited headers keys commits
      → s.block_height + length headers < 2 ^ 32
      → s.total_blocks + length headers < 2 ^ 32
      → (t : MainState) × (events : List Event) × (submit_block_headers p clock keys headers
            commited s
          ≡ ok (t, events))
  unfolding submit_block_headers
  submit_block_headers_succeeds headers commited commits s v high parent some_header count chain
        fits room =
      let stores =
        store_all-ok p s.block_height commits s v.here v.room
          (omega (arith, length-Chain p clock commited headers keys commits chain)) in
      let (d, ran) =
        header_loop-ok p clock store_main store_header headers keys commits
          (start_at p s commited s.block_height) stores.0 refl chain fits stores.1 in
      (
        update_globals d d.account,
        d.events,
        rw
            (
              not_empty headers some_header,
              count,
              ==_refl (length keys),
              get_commitment-tip_ok v high,
              eq→bytes_eq _ _ parent,
              ran,
            )
            refl,
      )
