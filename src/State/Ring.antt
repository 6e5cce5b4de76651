-- ===== src/State/Ring.antt =====
-- The ring buffer: which heights it has a place for, and what a store changes.
use bitcoin_svm_bridge.Prelude.{
  sym, ℕ, ◌+◌, ◌≤◌, ◌<◌, ◌^◌, ◌≡◌, ◌≢◌, ◌⊎◌, true, Option, some, ok, ◌==◌, get_elem?, set, length,
  get_elem?-set_self, get_elem?-set_ne, arith, if◌then◌else◌,
}
use bitcoin_svm_bridge.ArrayUtils.{Bytes}
use bitcoin_svm_bridge.State.{MainState, get_position, store_block_commitment}

-- The heights that can be read or stored: fewer than 250 below the start of the buffer, and at most
-- 250 above it, where the next store moves the start.
pub record InWindow (s : MainState) (h : ℕ) : Type 0 where
  pub low : s.start_height < h + 250
  pub high : h ≤ s.start_height + 250

-- what the buffer holds at the place of a height
abbrev pub slot : MainState → ℕ → Option Bytes
slot s h = get_elem? s.block_commitments (get_position s h)

-- the state behind a store at a height of the window
abbrev pub stored : MainState → ℕ → Bytes → MainState
stored s h c = record s {
  block_commitments = set s.block_commitments (get_position s h) c;
  start_height = if get_position s h == 0 then h else s.start_height;
  total_blocks = s.total_blocks + 1;
}

pub get_position-lt : (s : MainState) (h : ℕ) → InWindow s h → get_position s h < 250
unfolding get_position
get_position-lt s h w = ground arith

-- Heights of the window that are fewer than 250 apart have places of their own.
get_position-ne :
    (s : MainState) (h j : ℕ)
    → InWindow s h
    → InWindow s j
    → h ≢ j
    → h < j + 250
    → j < h + 250
    → get_position s h ≢ get_position s j
unfolding get_position
get_position-ne s h j w v ne a b = ground arith

-- A store that moves the start moves no other height's place.
get_position-stored :
    (s : MainState) (h j : ℕ) (c : Bytes)
    → InWindow s h
    → InWindow s j
    → h ≢ j
    → h < j + 250
    → j < h + 250
    → get_position (stored s h c) j ≡ get_position s j
unfolding get_position
get_position-stored s h j c w v ne a b = ground arith

get_position-stored_self :
    (s : MainState) (h : ℕ) (c : Bytes)
    → InWindow s h
    → get_position (stored s h c) h ≡ get_position s h
unfolding get_position
get_position-stored_self s h c w = ground arith

pub store-eq-stored :
    (s : MainState) (h : ℕ) (c : Bytes)
    → InWindow s h
    → s.total_blocks + 1 < 2 ^ 32
    → store_block_commitment h c s ≡ ok (stored s h c, true)
unfolding store_block_commitment
store-eq-stored s h c w t = ground (arith, get_position-lt s h w)

pub slot-stored_self :
    (s : MainState) (h : ℕ) (c : Bytes)
    → length s.block_commitments ≡ 250
    → InWindow s h
    → slot (stored s h c) h ≡ some c
slot-stored_self s h c size w = rw (get_position-stored_self s h c w) (
    get_elem?-set_self s.block_commitments (get_position s h) c
      (omega (arith, get_position-lt s h w)))

pub slot-stored_ne :
    (s : MainState) (h j : ℕ) (c : Bytes)
    → InWindow s h
    → InWindow s j
    → h ≢ j
    → h < j + 250
    → j < h + 250
    → slot (stored s h c) j ≡ slot s j
slot-stored_ne s h j c w v ne a b = rw (get_position-stored s h j c w v ne a b) (
    get_elem?-set_ne s.block_commitments (get_position s h) (get_position s j) c
      (get_position-ne s h j w v ne a b))

-- Behind a store the next height is in the window, and so are the 249 below.
pub InWindow-stored :
    (s : MainState) (h j : ℕ) (c : Bytes)
    → InWindow s h
    → InWindow s j ⊎ (j ≡ h + 1)
    → h < j + 250
    → InWindow (stored s h c) j
unfolding get_position
InWindow-stored s h j c w v a = ground arith

-- The buffer is the two fields; the others do not matter.
pub record SameRing (s t : MainState) : Type 0 where
  pub start : t.start_height ≡ s.start_height
  pub commitments : t.block_commitments ≡ s.block_commitments

pub InWindow-same : {s t : MainState} (h : ℕ) → SameRing s t → InWindow s h → InWindow t h
InWindow-same h e w = omega (arith, e.start, w.low, w.high)

pub slot-same : (s t : MainState) (h : ℕ) → SameRing s t → slot t h ≡ slot s h
unfolding get_position
slot-same s t h e = rw (e.start, e.commitments)

pub SameRing-symm : {s t : MainState} → SameRing s t → SameRing t s
SameRing-symm e = record { start = sym e.start; commitments = sym e.commitments }
