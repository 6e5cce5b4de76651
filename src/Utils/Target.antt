-- ===== src/Utils/Target.antt =====
-- Difficulty targets (utils.rs): the compact form `nbits`, and the difficulty of a target.
-- `x >> k` is `x / 2 ^ k` and `x << k` is `x * 2 ^ k`, cut to 32 bits where bits can be lost.
pub mod Expand
pub mod Compact
pub mod RoundTrip
pub mod Difficulty
pub mod Work
use bitcoin_svm_bridge.Prelude.{
  ℕ, suc, ◌+◌, ◌-◌, ◌*◌, ◌/◌, ◌%◌, ◌^◌, ◌≤◌, ◌<◌, List, [], ◌∷◌, ◌++◌, Bool, Option, none, some,
  Result, ok, fail, panic, ◌>>=◌, ltb, if◌then◌else◌, bit_and, bit_or, checked_sub, set, replicate,
  get_or, take,
}
use bitcoin_svm_bridge.ArrayUtils.{Bytes, div_in_place}
use bitcoin_svm_bridge.Structs.{zero_hash}

abbrev pub max_difficulty : Bytes
max_difficulty = 0 ∷ 0 ∷ 0 ∷ 0 ∷ 0xFF ∷ 0xFF ∷ replicate 26 0

abbrev pub unrounded_max_target : Bytes
unrounded_max_target = 0 ∷ 0 ∷ 0 ∷ 0 ∷ replicate 28 0xFF

-- the index of the first byte that is not zero, counted from `i`
pub first_nonzero : Bytes → ℕ → Option ℕ
first_nonzero [] i = none
first_nonzero (b ∷ bs) i = if ltb 0 b then some i else first_nonzero bs (i + 1)

-- a byte for the compact form; what lies behind the array counts as zero
abbrev pub compact_byte : Bytes → ℕ → ℕ → ℕ
compact_byte target n_size i =
    let pos = 32 - n_size + i in if ltb pos 32 then get_or target pos 0 else 0

abbrev pub compact_size : Option ℕ → ℕ
compact_size none = 0
compact_size (some i) = 32 - i

-- the mantissa and the size before they are packed: a mantissa with its top bit set is shifted
abbrev pub compact_parts : Bytes → ℕ → ℕ × ℕ
compact_parts target n_size =
    let n_compact =
      bit_or
        (bit_or (bit_or 0 (compact_byte target n_size 0 * 2 ^ 16))
          (compact_byte target n_size 1 * 2 ^ 8))
        (compact_byte target n_size 2) in
    if ltb 0 (bit_and n_compact 0x00800000)
    then (n_compact / 2 ^ 8, n_size + 1)
    else (n_compact, n_size)

unfoldable pub target_to_nbits : Bytes → ℕ
unfolding first_nonzero
target_to_nbits target =
    let (n_compact, n_size) = compact_parts target (compact_size (first_nonzero target 0)) in
    bit_or (bit_and n_compact 0x00FFFFFF) (bit_and (n_size * 2 ^ 24 % 2 ^ 32) 0xFF000000)

-- the loop's write, with its test
abbrev pub write_byte : Bytes → ℕ → ℕ → Bytes
write_byte target pos b = if ltb pos 32 then set target pos b else target

abbrev pub place_word : ℕ → ℕ → ℕ → ℕ → Bytes
place_word start w0 w1 w2 =
    write_byte (write_byte (write_byte zero_hash start w0) (start + 1) w1) (start + 2) w2

-- A size above 32 underflows: `(32 - n_size) as usize` panics.
unfoldable pub nbits_to_target : ℕ → Result Bytes
nbits_to_target nbits = checked_sub 32 (bit_and (nbits / 2 ^ 24) 0xFF) >>= λ start. ok (
    place_word start (bit_and (nbits / 2 ^ 16) 0x7F) (bit_and (nbits / 2 ^ 8) 0xFF)
      (bit_and nbits 0xFF))

abbrev pub leading : Option ℕ → ℕ
leading none = 0
leading (some i) = i

-- the three bytes from `start` on, as a number
abbrev pub leading_word : Bytes → ℕ → ℕ
leading_word target start =
    bit_or
      (bit_or (bit_or 0 (get_or target start 0 * 2 ^ 16)) (get_or target (start + 1) 0 * 2 ^ 8))
      (get_or target (start + 2) 0)

-- `32 - start - 3` underflows for a target whose first byte lies behind index 29, and a target of
-- zeros divides by zero. The last loop copies the first `32 - shift` bytes behind `shift` zeros.
unfoldable pub get_difficulty : Bytes → Result Bytes
unfolding first_nonzero
get_difficulty target =
    let start = leading (first_nonzero target 0) in
    checked_sub (32 - start) 3 >>= λ shift.
    div_in_place max_difficulty (leading_word target start) >>= λ arr.
    ok (replicate shift 0 ++ take (32 - shift) arr)
