-- ===== src/Utils/Target/Work.antt =====
-- The work that a block adds: the difficulty of the target that its `nbits` stands for.
use bitcoin_svm_bridge.Prelude.{
  ℕ, ◌+◌, ◌-◌, ◌/◌, ◌%◌, ◌^◌, ◌≤◌, ◌<◌, ◌≡◌, ◌∙◌, inl, inr, ok, some, arith, ap, get_or, ◌==◌,
  ==_iff, Bool-cases,
}
use bitcoin_svm_bridge.ArrayUtils.{Bytes}
use bitcoin_svm_bridge.ArrayUtils.Value.{IsU256, value}
use bitcoin_svm_bridge.Utils.Target.{nbits_to_target, get_difficulty, max_difficulty}
use bitcoin_svm_bridge.Utils.Target.Expand.{place_word-IsU256}
use bitcoin_svm_bridge.Utils.Target.Compact.{nbits_size, target_of, nbits_to_target-eq}
use bitcoin_svm_bridge.Utils.Target.RoundTrip.{
  IsCanonical, Placed, place_word-Placed, first_nonzero-at,
}
use bitcoin_svm_bridge.Utils.Target.Difficulty.{IsShort, value-get_difficulty}

module _ (t : Bytes) (start w0 w1 w2 : ℕ) (p : Placed t start w0 w1 w2) where
  IsShort-full : start ≤ 29 → 0 < w0 → IsShort t start
  IsShort-full fits pos = record {
    found = first_nonzero-at t 0 start p.before here ∙ ap (λ (n : ℕ). some n) (omega arith);
    nonzero = here;
    early = fits;
    before = p.before;
    behind = p.behind;
  }
    where
      here : 0 < get_or t start 0
      here = rw p.at0 pos

  IsShort-shifted : start ≤ 28 → w0 ≡ 0 → 0 < w1 → IsShort t (start + 1)
  IsShort-shifted fits zero0 pos = record {
    found = first_nonzero-at t 0 (start + 1) earlier here ∙ ap (λ (n : ℕ). some n) (omega arith);
    nonzero = here;
    early = omega arith;
    before = earlier;
    behind = λ j h. p.behind j (omega arith);
  }
    where
      here : 0 < get_or t (start + 1) 0
      here = rw p.at1 pos

      earlier : (j : ℕ) → j < start + 1 → get_or t j 0 ≡ 0
      earlier j h = elim (Bool-cases (j == start)) [
        | inl e ↦ rw ((==_iff j start).0 e) (p.at0 ∙ zero0)
        | inr e ↦ p.before j (ground arith)
      ]

-- For every `nbits` in normal form of size 4 to 32, decoding and `get_difficulty` succeed, and the
-- difficulty is the maximum divided by the number that `nbits` stands for, rounded down.
pub get_difficulty-nbits_to_target :
    (nbits : ℕ)
    → nbits < 2 ^ 32
    → IsCanonical nbits
    → 4 ≤ nbits_size nbits
    → (t d : Bytes) × (nbits_to_target nbits ≡ ok t)
      × (get_difficulty t ≡ ok d)
      × IsU256 d
      × (value d ≡ value max_difficulty / value t)
get_difficulty-nbits_to_target nbits h c big =
    let (d, e, valid, v) = result in (t, d, nbits_to_target-eq nbits h c.max_size, e, valid, v)
  where
    t : Bytes
    t = target_of nbits

    start : ℕ
    start = 32 - nbits_size nbits

    w0 : ℕ
    w0 = nbits / 2 ^ 16 % 2 ^ 7

    w1 : ℕ
    w1 = nbits / 2 ^ 8 % 2 ^ 8

    w2 : ℕ
    w2 = nbits % 2 ^ 8

    valid_t : IsU256 t
    valid_t = place_word-IsU256 start w0 w1 w2 (omega arith) (omega arith) (omega arith)

    placed : Placed t start w0 w1 w2
    placed = place_word-Placed start w0 w1 w2 (omega arith)

    result :
        (d : Bytes) × (get_difficulty t ≡ ok d)
        × IsU256 d
        × (value d ≡ value max_difficulty / value t)
    result = elim (Bool-cases (w0 == 0)) [
      | inl e ↦
          value-get_difficulty t (start + 1) valid_t (
            IsShort-shifted t start w0 w1 w2 placed (omega arith) ((==_iff w0 0).0 e)
              (ground arith))
      | inr e ↦
          value-get_difficulty t start valid_t
            (IsShort-full t start w0 w1 w2 placed (omega arith) (ground arith))
    ]
