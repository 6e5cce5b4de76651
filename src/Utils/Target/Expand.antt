-- ===== src/Utils/Target/Expand.antt =====
-- The number of the array that `nbits_to_target` (utils.rs) writes.
use native.Mathlib.Nat.{pow-succ'}
use bitcoin_svm_bridge.Prelude.{
  ℕ, zero, suc, ◌+◌, ◌-◌, ◌*◌, ◌^◌, ◌≤◌, ◌<◌, ◌≡◌, refl, ap, ◌∙◌, [], ◌∷◌, All, length, set,
  length-set, replicate, get_or, arith, lt→ltb, ◌≢◌,
}
use bitcoin_svm_bridge.ArrayUtils.{Bytes}
use bitcoin_svm_bridge.ArrayUtils.Value.{IsByte, IsU256, value, weight-congr, weight-eq-pow}
use bitcoin_svm_bridge.Structs.{zero_hash}
use bitcoin_svm_bridge.Utils.Target.{place_word, write_byte}

bytes-set : (xs : Bytes) (i v : ℕ) → All IsByte xs → IsByte v → All IsByte (set xs i v)
bytes-set [] i v h k = tt
bytes-set (x ∷ xs) zero v h k = (k, h.1)
bytes-set (x ∷ xs) (suc i) v h k = (h.0, bytes-set xs i v h.1 k)

get_or-set_ne : (xs : Bytes) (i j v : ℕ) → (i ≡ j → ⊥) → get_or (set xs i v) j 0 ≡ get_or xs j 0
get_or-set_ne [] i j v h = refl
get_or-set_ne (x ∷ xs) zero zero v h = absurd (h refl)
get_or-set_ne (x ∷ xs) zero (suc j) v h = refl
get_or-set_ne (x ∷ xs) (suc i) zero v h = refl
get_or-set_ne (x ∷ xs) (suc i) (suc j) v h = get_or-set_ne xs i j v (λ e. h (ap suc e))

get_or-set_self : (xs : Bytes) (i v : ℕ) → i < length xs → get_or (set xs i v) i 0 ≡ v
get_or-set_self [] i v h = elim h [ ]
get_or-set_self (x ∷ xs) zero v h = refl
get_or-set_self (x ∷ xs) (suc i) v h = get_or-set_self xs i v (omega arith)

-- A write over a zero adds the byte at its weight.
value-set :
    (xs : Bytes) (i v : ℕ)
    → i < length xs
    → get_or xs i 0 ≡ 0
    → value (set xs i v) ≡ value xs + v * 256 ^ (length xs - 1 - i)
value-set [] i v h z = elim h [ ]
value-set (x ∷ xs) zero v h z =
    rw (z, ap (λ (n : ℕ). 256 ^ n) (shorter (length xs)), ← weight-eq-pow xs) (omega arith)
  where
    shorter : (n : ℕ) → suc n - 1 - 0 ≡ n
    shorter n = omega arith
value-set (x ∷ xs) (suc i) v h z =
    rw (weight-congr (set xs i v) xs (length-set xs i v), ap (λ (n : ℕ). 256 ^ n) shorter)
      (omega (arith, value-set xs i v (omega arith) z))
  where
    shorter : suc (length xs) - 1 - suc i ≡ length xs - 1 - i
    shorter = omega arith

get_or-zeros : (n i : ℕ) → get_or (replicate n zero) i 0 ≡ zero
get_or-zeros zero i = refl
get_or-zeros (suc n) zero = refl
get_or-zeros (suc n) (suc i) = get_or-zeros n i

pub place_word-IsU256 :
    (start w0 w1 w2 : ℕ) → w0 < 256 → w1 < 256 → w2 < 256 → IsU256 (place_word start w0 w1 w2)
place_word-IsU256 start w0 w1 w2 h0 h1 h2 =
    keep _ (start + 2) w2 h2 (keep _ (start + 1) w1 h1 (keep zero_hash start w0 h0 (omega arith)))
  where
    keep : (xs : Bytes) (i v : ℕ) → v < 256 → IsU256 xs → IsU256 (write_byte xs i v)
    keep xs i v h r = ground (arith, r.size, r.bytes, length-set xs i v, bytes-set xs i v r.bytes h)

value-write_byte :
    (xs : Bytes) (i v e : ℕ)
    → length xs ≡ 32
    → i + e ≡ 31
    → get_or xs i 0 ≡ 0
    → (length (write_byte xs i v) ≡ 32) × (value (write_byte xs i v) ≡ value xs + v * 256 ^ e)
value-write_byte xs i v e size here z = rw (lt→ltb i 32 (omega arith)) (
  omega (arith, length-set xs i v),
  value-set xs i v (omega arith) z ∙ ap (λ (n : ℕ). value xs + v * 256 ^ n) place,
)
  where
    place : length xs - 1 - i ≡ e
    place = omega arith

pub get_or-write_byte_ne :
    (xs : Bytes) (i j v : ℕ) → i ≢ j → get_or (write_byte xs i v) j 0 ≡ get_or xs j 0
get_or-write_byte_ne xs i j v ne = ground (arith, get_or-set_ne xs i j v ne)

pub get_or-write_byte_self :
    (xs : Bytes) (i v : ℕ) → i < 32 → length xs ≡ 32 → get_or (write_byte xs i v) i 0 ≡ v
get_or-write_byte_self xs i v h size = rw (lt→ltb i 32 h) (get_or-set_self xs i v (omega arith))

pub length-write_byte : (xs : Bytes) (i v : ℕ) → length (write_byte xs i v) ≡ length xs
length-write_byte xs i v = ground (arith, length-set xs i v)

pub zeros_at : (i : ℕ) → get_or zero_hash i 0 ≡ 0
zeros_at i = get_or-zeros 32 i

-- With the three bytes inside the array.
pub value-place_word :
    (start w0 w1 w2 : ℕ)
    → start ≤ 29
    → value (place_word start w0 w1 w2) ≡ (w0 * 2 ^ 16 + w1 * 2 ^ 8 + w2) * 256 ^ (29 - start)
value-place_word start w0 w1 w2 h =
    let e = 29 - start in
    let a = write_byte zero_hash start w0 in
    let b = write_byte a (start + 1) w1 in
    let va =
      value-write_byte zero_hash start w0 (suc (suc e)) refl (omega arith) (zeros_at start) in
    let vb =
      value-write_byte a (start + 1) w1 (suc e) va.0 (omega arith) (
        get_or-write_byte_ne zero_hash start (start + 1) w0 (omega arith) ∙ zeros_at (start + 1)) in
    let vc = value-write_byte b (start + 2) w2 e vb.0 (omega arith) (
      get_or-write_byte_ne a (start + 1) (start + 2) w1 (omega arith)
      ∙ get_or-write_byte_ne zero_hash start (start + 2) w0 (omega arith)
      ∙ zeros_at (start + 2)) in
    omega (
      arith,
      va.1,
      vb.1,
      vc.1,
      ap (λ (t : ℕ). w0 * t) (pow-succ' 256 (suc e)),
      ap (λ (t : ℕ). w0 * (256 * t)) (pow-succ' 256 e),
      ap (λ (t : ℕ). w1 * t) (pow-succ' 256 e),
    )
