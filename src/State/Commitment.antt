-- ===== src/State/Commitment.antt =====
-- The main chain as a function from heights to commitments, and the ring buffer as its
-- representation: what `get_commitment` answers, and how a store extends the chain.
use bitcoin_svm_bridge.Prelude.{
  ap, ℕ, ◌+◌, ◌≤◌, ◌<◌, ◌≡◌, ◌∙◌, false, true, ◌^◌, some, Result, ok, fail, panic, ltb, leb, ◌==◌,
  ==_iff, ==_refl, Bool-cases, inl, inr, length, length-set, arith, if◌then◌else◌,
}
use bitcoin_svm_bridge.ArrayUtils.{Bytes}
use bitcoin_svm_bridge.Structs.{zero_hash}
use bitcoin_svm_bridge.State.{store_block_commitment, MainState, get_position, get_commitment}
use bitcoin_svm_bridge.State.Ring.{
  store-eq-stored, SameRing, SameRing-symm, InWindow-same, slot-same, InWindow, slot, stored,
  slot-stored_self, slot-stored_ne, InWindow-stored,
}

abbrev pub History : Type 0
History = ℕ → Bytes

abbrev pub update : History → ℕ → Bytes → History
update hist h c j = if j == h then c else hist j

-- The buffer holds the commitments of the chain `hist` up to the height `top`, for the heights from
-- `lo` on that are fewer than 250 below `top`.
pub record Represents (lo top : ℕ) (hist : History) (s : MainState) : Type 0 where
  pub size : length s.block_commitments ≡ 250
  pub entries : (h : ℕ) → lo ≤ h → h ≤ top → top < h + 250 → InWindow s h → slot s h ≡ some (hist h)

-- what `get_commitment` should answer
unfoldable pub commitment_spec : MainState → History → ℕ → Result Bytes
commitment_spec s hist h =
    if ltb s.block_height h
    then ok zero_hash
    else if ltb s.block_height 250
    then fail panic
    else if leb (h + 250) s.block_height
    then ok zero_hash
    else if leb (h + 250) s.start_height
    then ok zero_hash
    else ok (hist h)

-- For every height from the bound `lo` on, from which the buffer represents the chain, and a tip that
-- is less than 250 above the start of the buffer, `get_commitment` answers as the chain: zeros for a
-- height above the tip; for any other a panic while the tip is below 250; then zeros for a height that
-- is 250 or more below the tip or below the start of the buffer; and else the commitment that the
-- chain has at the height. Below `lo` nothing is said: a reorganisation to a lower tip leaves stale
-- commitments there.
pub get_commitment_refines :
    (lo : ℕ) {hist : History} (s : MainState) (h : ℕ)
    → Represents lo s.block_height hist s
    → s.block_height < s.start_height + 250
    → lo ≤ h
    → get_commitment s h ≡ commitment_spec s hist h
unfolding get_commitment commitment_spec get_position
get_commitment_refines lo {hist} s h r ahead above = ground (arith, r.entries h above, window)
  where
    window : s.start_height < h + 250 → h ≤ s.start_height + 250 → InWindow s h
    window a b = record { low = a; high = b }

-- After a reorganisation to a lower height the older part of the buffer may be stale: the bound
-- `lo` moves up.
pub Represents-rewind :
    {lo top : ℕ} {hist : History} {s : MainState} (lo' top' : ℕ)
    → Represents lo top hist s
    → lo ≤ lo'
    → top' ≤ top
    → top < lo' + 250
    → Represents lo' top' hist s
Represents-rewind lo' top' r a b c = record {
  size = r.size;
  entries = λ h p q t w. r.entries h (omega arith) (omega arith) (omega arith) w;
}

-- The write of a new tip, as a state.
pub Represents-stored :
    {lo top : ℕ} {hist : History} {s : MainState} (c : Bytes)
    → Represents lo top hist s
    → InWindow s (top + 1)
    → Represents lo (top + 1) (update hist (top + 1) c) (stored s (top + 1) c)
unfolding get_position
Represents-stored {lo} {top} {hist} {s} c r w = record {
  size = omega (arith, length-set s.block_commitments (get_position s (top + 1)) c, r.size);
  entries = λ j p q t v. elim (Bool-cases (j == top + 1)) [
    | inl e ↦ newest j ((==_iff _ _).0 e)
    | inr e ↦ older j p q t v e
  ];
}
  where
    newest :
        (j : ℕ) → j ≡ top + 1 → slot (stored s (top + 1) c) j ≡ some (update hist (top + 1) c j)
    newest j e = rw (e, ==_refl (top + 1)) (slot-stored_self s (top + 1) c r.size w)

    before :
        (j : ℕ) → j ≤ top → top + 1 < j + 250 → InWindow (stored s (top + 1) c) j → InWindow s j
    before j a b v = ground (arith, v.low, v.high, w.low, w.high)

    older :
        (j : ℕ)
        → lo ≤ j
        → j ≤ top + 1
        → top + 1 < j + 250
        → InWindow (stored s (top + 1) c) j
        → (j == top + 1) ≡ false
        → slot (stored s (top + 1) c) j ≡ some (update hist (top + 1) c j)
    older j p q t v e =
        let low : j ≤ top = ground arith in
        let w' : InWindow s j = before j low t v in
        rw e (
          slot-stored_ne s (top + 1) j c w w' (omega arith) t (omega arith)
          ∙ r.entries j p low (omega arith) w')

pub Represents-same :
    {lo top : ℕ} {hist : History} {s t : MainState}
    → SameRing s t
    → Represents lo top hist s
    → Represents lo top hist t
Represents-same {s = s} {t = t} e r = record {
  size = ap length e.commitments ∙ r.size;
  entries =
      λ h p q b w. slot-same s t h e ∙ r.entries h p q b (InWindow-same h (SameRing-symm e) w);
}

-- Where the next height has a place and the count of blocks has room, `store_block_commitment` for
-- it succeeds and reports true: the buffer then represents the chain that is extended by the
-- commitment. The new height has a place in it, the height behind has one, and each height fewer
-- than 250 below the new one that had a place keeps it.
pub store_block_commitment-Represents :
    {lo top : ℕ} {hist : History} {s : MainState} (c : Bytes)
    → Represents lo top hist s
    → InWindow s (top + 1)
    → s.total_blocks + 1 < 2 ^ 32
    → (t : MainState) × (store_block_commitment (top + 1) c s ≡ ok (t, true))
      × Represents lo (top + 1) (update hist (top + 1) c) t
      × InWindow t (top + 1)
      × InWindow t (top + 2)
      × ((h : ℕ) → InWindow s h → top + 1 < h + 250 → InWindow t h)
store_block_commitment-Represents {top = top} {s = s} c r w room = (
  stored s (top + 1) c,
  store-eq-stored s (top + 1) c w room,
  Represents-stored c r w,
  InWindow-stored s (top + 1) (top + 1) c w (inl w) (omega arith),
  InWindow-stored s (top + 1) (top + 2) c w (inr (omega arith)) (omega arith),
  λ h v near. InWindow-stored s (top + 1) h c w (inl v) near,
)
