-- ===== src/Utils/Target/Compact.antt =====
-- The fields of a compact target and the number that it decodes to (utils.rs).
use bitcoin_svm_bridge.Prelude.{
  ℕ, ◌+◌, ◌-◌, ◌*◌, ◌/◌, ◌%◌, ◌^◌, ◌≤◌, ◌<◌, ◌≡◌, ap, ◌∙◌, ok, fail, panic, arith, bit_and_mask,
}
use bitcoin_svm_bridge.ArrayUtils.{Bytes}
use bitcoin_svm_bridge.ArrayUtils.Value.{IsU256, value}
use bitcoin_svm_bridge.Utils.Target.{nbits_to_target, place_word}
use bitcoin_svm_bridge.Utils.Target.Expand.{place_word-IsU256, value-place_word}

-- the two fields of a compact target; the sign bit, 2 ^ 23, belongs to neither
abbrev pub nbits_size : ℕ → ℕ
nbits_size nbits = nbits / 2 ^ 24

abbrev pub mantissa : ℕ → ℕ
mantissa nbits = nbits % 2 ^ 23

-- the bytes that `nbits_to_target` places
abbrev pub target_of : ℕ → Bytes
target_of nbits =
    place_word (32 - nbits_size nbits) (nbits / 2 ^ 16 % 2 ^ 7) (nbits / 2 ^ 8 % 2 ^ 8)
      (nbits % 2 ^ 8)

-- Up to the size 32, `nbits_to_target` returns these bytes.
pub nbits_to_target-eq :
    (nbits : ℕ)
    → nbits < 2 ^ 32
    → nbits_size nbits ≤ 32
    → nbits_to_target nbits ≡ ok (target_of nbits)
unfolding nbits_to_target
nbits_to_target-eq nbits h k =
    rw
      (
        bit_and_mask 8 (nbits / 2 ^ 24),
        bit_and_mask 7 (nbits / 2 ^ 16),
        bit_and_mask 8 (nbits / 2 ^ 8),
        bit_and_mask 8 nbits,
        size,
      )
      (ground arith)
  where
    size : nbits / 2 ^ 24 % 2 ^ 8 ≡ nbits_size nbits
    size = omega arith

value-target_of :
    (nbits : ℕ)
    → nbits < 2 ^ 32
    → 3 ≤ nbits_size nbits
    → nbits_size nbits ≤ 32
    → value (target_of nbits) ≡ mantissa nbits * 256 ^ (nbits_size nbits - 3)
value-target_of nbits h lo hi =
    value-place_word (32 - nbits_size nbits) (nbits / 2 ^ 16 % 2 ^ 7) (nbits / 2 ^ 8 % 2 ^ 8)
      (nbits % 2 ^ 8) (omega arith)
    ∙ ap (λ (t : ℕ). t * 256 ^ (29 - (32 - nbits_size nbits))) word
    ∙ ap (λ (n : ℕ). mantissa nbits * 256 ^ n) exponent
  where
    word :
        nbits / 2 ^ 16 % 2 ^ 7 * 2 ^ 16 + nbits / 2 ^ 8 % 2 ^ 8 * 2 ^ 8 + nbits % 2 ^ 8
        ≡ mantissa nbits
    word = omega arith

    exponent : 29 - (32 - nbits_size nbits) ≡ nbits_size nbits - 3
    exponent = omega arith

-- Every 32-bit `nbits` of size 3 to 32 decodes to a 256-bit target whose number is the mantissa
-- times 256 ^ (size - 3); a size above 32 panics.
pub nbits_to_target-value :
    (nbits : ℕ)
    → nbits < 2 ^ 32
    → (3 ≤ nbits_size nbits
        → nbits_size nbits ≤ 32
        → (t : Bytes) × (nbits_to_target nbits ≡ ok t)
          × IsU256 t
          × (value t ≡ mantissa nbits * 256 ^ (nbits_size nbits - 3)))
      × (32 < nbits_size nbits → nbits_to_target nbits ≡ fail panic)
nbits_to_target-value nbits h = (
  λ lo hi. (
    target_of nbits,
    nbits_to_target-eq nbits h hi,
    place_word-IsU256 (32 - nbits_size nbits) (nbits / 2 ^ 16 % 2 ^ 7) (nbits / 2 ^ 8 % 2 ^ 8)
        (nbits % 2 ^ 8) (omega arith) (omega arith) (omega arith),
    value-target_of nbits h lo hi,
  ),
  too_large,
)
  where
    too_large : 32 < nbits_size nbits → nbits_to_target nbits ≡ fail panic
    too_large big = unfold nbits_to_target in rw (bit_and_mask 8 (nbits / 2 ^ 24)) (ground arith)
