-- ===== src/Utils/Header/Accepted.antt =====
-- The consensus rules of Bitcoin for a header on top of a committed one, and the header that is
-- committed then, written out; utils.rs is compared with them in Utils.Header.Rules.
use bitcoin_svm_bridge.Prelude.{
  ℕ, ◌+◌, ◌^◌, ◌≤◌, ◌<◌, ◌≡◌, ◌≢◌, ◌⊎◌, ◌∙◌, ◌%◌, inl, inr, refl, sym, ap, List, [], ◌∷◌, ◌++◌,
  true, false, ok, ℤ, pos, negsuc, checked_add_of_lt, bind_ok, ok-injective, Bool-cases, ◌==◌,
  ==_iff, if◌then◌else◌, reverse, ltb, lt→ltb, ltb→lt, arith,
}
use bitcoin_svm_bridge.ArrayUtils.{Bytes, add_in_place}
use bitcoin_svm_bridge.ArrayUtils.Value.{value}
use bitcoin_svm_bridge.Structs.{Platform, Pubkey, BlockHeader, CommittedBlockHeader, get_block_hash}
use bitcoin_svm_bridge.Utils.Target.{nbits_to_target, get_difficulty}
use bitcoin_svm_bridge.Utils.Retarget.{
  compute_new_nbits, should_diff_adjust, has_correct_difficulty_target,
}
use bitcoin_svm_bridge.Utils.Median.{is_larger_than_median}
use bitcoin_svm_bridge.Utils.Header.{now_ts, shift_timestamps, advance}

-- the number that the proof of work compares: the block hash read from its last byte
abbrev pub hash_value : Platform → BlockHeader → ℕ
hash_value p header = value (reverse (get_block_hash p header))

-- The compact target that the next header must have: at every 2016th height the one scaled by the
-- time since the last adjustment, and that of the last header elsewhere.
abbrev pub IsExpected : CommittedBlockHeader → ℕ → Type 0
IsExpected last nbits =
    (((last.blockheight + 1) % 2016 ≡ 0)
      × (prev_target : Bytes) × (nbits_to_target last.header.nbits ≡ ok prev_target)
      × (compute_new_nbits last.header.timestamp last.last_diff_adjustment prev_target ≡ ok nbits))
    ⊎ (((last.blockheight + 1) % 2016 ≢ 0) × (nbits ≡ last.header.nbits))

-- The rules, in terms of the numbers: the target is the expected one (but on testnet), the hash does
-- not exceed it, and the timestamp lies behind the median and less than four hours after the clock,
-- which counts seconds in 32 bits.
pub record IsAccepted (p : Platform) (clock : ℤ) (header : BlockHeader)
    (last : CommittedBlockHeader) (key : Pubkey) (target difficulty : Bytes) (now : ℕ)
    : Type 0 where
  pub expected : p.bitcoin_testnet ≡ false → IsExpected last header.nbits
  pub room : last.blockheight + 1 < 2 ^ 32
  pub topic : p.find_header_topic (get_block_hash p header) ≡ key
  pub decodes : nbits_to_target header.nbits ≡ ok target
  pub work : hash_value p header ≤ value target
  pub later :
      is_larger_than_median last.prev_block_timestamps last.header.timestamp header.timestamp ≡ true
  pub time : clock ≡ pos now
  pub clock_room : now + 14400 < 2 ^ 32
  pub not_future : header.timestamp < now + 14400
  pub measured : get_difficulty target ≡ ok difficulty

abbrev pub without_oldest : List ℕ → List ℕ
without_oldest [] = []
without_oldest (oldest ∷ timestamps) = timestamps

-- The committed header behind the last one: one height up, with the work added; the time of the last
-- adjustment is the header's own at every 2016th height, and of the timestamps the oldest has gone and
-- the last header's has come.
pub record IsNext (last : CommittedBlockHeader) (header : BlockHeader) (difficulty : Bytes)
    (next : CommittedBlockHeader) : Type 0 where
  pub same_header : next.header ≡ header
  pub height : next.blockheight ≡ last.blockheight + 1
  pub work : next.chain_work ≡ add_in_place last.chain_work difficulty
  pub adjusted :
      next.last_diff_adjustment
      ≡ (if (last.blockheight + 1) % 2016 == 0 then header.timestamp else last.last_diff_adjustment)
  pub timestamps :
      next.prev_block_timestamps
      ≡ without_oldest (last.prev_block_timestamps ++ last.header.timestamp ∷ [])

shifted :
    (timestamps : List ℕ) (newest : ℕ)
    → shift_timestamps timestamps newest ≡ without_oldest (timestamps ++ newest ∷ [])
unfolding shift_timestamps
shifted [] newest = refl
shifted (oldest ∷ timestamps) newest = refl

pub advance-IsNext :
    (last : CommittedBlockHeader) (header : BlockHeader) (difficulty : Bytes)
    → IsNext last header difficulty (advance last header (last.blockheight + 1) difficulty)
unfolding should_diff_adjust
advance-IsNext last header difficulty = record {
  same_header = refl;
  height = refl;
  work = refl;
  adjusted = refl;
  timestamps = shifted last.prev_block_timestamps last.header.timestamp;
}

pub IsNext-advance :
    (last : CommittedBlockHeader) (header : BlockHeader) (difficulty : Bytes)
    {next : CommittedBlockHeader}
    → IsNext last header difficulty next
    → next ≡ advance last header (last.blockheight + 1) difficulty
unfolding should_diff_adjust
IsNext-advance last header difficulty n = λ i. record {
  chain_work = n.work i;
  header = n.same_header i;
  last_diff_adjustment = n.adjusted i;
  blockheight = n.height i;
  prev_block_timestamps =
      (n.timestamps ∙ sym (shifted last.prev_block_timestamps last.header.timestamp)) i;
}

pub now_ts-eq-ok :
    (clock : ℤ) {now : ℕ} → now_ts clock ≡ ok now → (clock ≡ pos now) × (now < 2 ^ 32)
unfolding now_ts
now_ts-eq-ok (pos seconds) h = elim (Bool-cases (ltb seconds (2 ^ 32))) [
  | inl e ↦
      let same = ok-injective (rw e at h) in (ap pos same, rw same at (ltb→lt seconds (2 ^ 32) e))
  | inr e ↦ cc (rw e at h)
]
now_ts-eq-ok (negsuc n) h = cc

pub now_ts-pos : (now : ℕ) → now < 2 ^ 32 → now_ts (pos now) ≡ ok now
unfolding now_ts
now_ts-pos now h = rw (lt→ltb now (2 ^ 32) h) refl

true-false : true ≢ false
true-false h = cc

module _ (last : CommittedBlockHeader) (nbits : ℕ) (room : last.blockheight + 1 < 2 ^ 32) where
  pub has_correct_difficulty_target-IsExpected :
      has_correct_difficulty_target last nbits ≡ ok true → IsExpected last nbits
  unfolding has_correct_difficulty_target should_diff_adjust
  has_correct_difficulty_target-IsExpected h =
      let h0 = rw (checked_add_of_lt 32 last.blockheight 1 room) at h in
      elim (Bool-cases ((last.blockheight + 1) % 2016 == 0)) [
        | inl e ↦
            bind_ok (nbits_to_target last.header.nbits) _ (rw e at h0) λ prev_target decoded h1.
              bind_ok
                (compute_new_nbits last.header.timestamp last.last_diff_adjustment prev_target) _ h1
                λ new_nbits computed h2.
                  let same : nbits ≡ new_nbits = (==_iff nbits new_nbits).0 (ok-injective h2) in
                  inl (
                    (==_iff ((last.blockheight + 1) % 2016) 0).0 e,
                    prev_target,
                    decoded,
                    computed ∙ ap (λ (n : ℕ). ok n) (sym same),
                  )
        | inr e ↦ inr (
          λ adjusts. true-false (sym ((==_iff ((last.blockheight + 1) % 2016) 0).1 adjusts) ∙ e),
          (==_iff nbits last.header.nbits).0 (ok-injective (rw e at h0)),
        )
      ]

  pub IsExpected-has_correct_difficulty_target :
      IsExpected last nbits → has_correct_difficulty_target last nbits ≡ ok true
  unfolding has_correct_difficulty_target should_diff_adjust
  IsExpected-has_correct_difficulty_target (inl (adjusts, prev_target, decoded, computed)) =
      rw
        (
          checked_add_of_lt 32 last.blockheight 1 room,
          adjusts,
          decoded,
          computed,
          (==_iff nbits nbits).1 refl,
        )
        refl
  IsExpected-has_correct_difficulty_target (inr (stays, same)) =
      let other : ((last.blockheight + 1) % 2016 == 0) ≡ false = ground (arith, stays) in
      rw
        (
          checked_add_of_lt 32 last.blockheight 1 room,
          other,
          (==_iff nbits last.header.nbits).1 same,
        )
        refl
