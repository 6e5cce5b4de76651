-- ===== src/Prelude/Bits.antt =====
-- `|` and `&` split at a bit position, so that masks and shifts become sums and remainders.
use Prim.Native.Nat.{
  ℕ, zero, suc, ◌+◌, ◌-◌, ◌*◌, ◌/◌, ◌%◌, ◌^◌, ◌≤◌, ◌<◌, min, max, digits, bit_and, bit_or,
  bit_and-bitwise, bit_or-bitwise,
}
use mathlib.Core.Path.{◌≡◌, refl, ap, ap₂, ◌∙◌}
use native.Mathlib.Nat.{pow-suc, one-le-pow, div-add-mod, mod-lt}
use native.Mathlib.Omega.{arith}

-- Any two amounts of fuel that cover the first number agree.
module _ (rest : ℕ → ℕ) (op : ℕ → ℕ → ℕ) where
  fuel_agrees : (x y m n : ℕ) → x ≤ m → x ≤ n → digits rest op m x y ≡ digits rest op n x y
  fuel_agrees zero y zero zero hm hn = refl
  fuel_agrees zero y zero (suc n) hm hn = refl
  fuel_agrees zero y (suc m) zero hm hn = refl
  fuel_agrees zero y (suc m) (suc n) hm hn = refl
  fuel_agrees (suc x) y zero n hm hn = absurd (omega arith)
  fuel_agrees (suc x) y (suc m) zero hm hn = absurd (omega arith)
  fuel_agrees (suc x) y (suc m) (suc n) hm hn =
      ap (λ k. k * 2 + op (suc x % 2) (y % 2))
        (fuel_agrees (suc x / 2) (y / 2) m n (omega arith) (omega arith))

zero-bit_or : (y : ℕ) → bit_or 0 y ≡ y
zero-bit_or y = bit_or-bitwise 0 y

zero-bit_and : (y : ℕ) → bit_and 0 y ≡ 0
zero-bit_and y = bit_and-bitwise 0 y

or_peel : (x y : ℕ) → bit_or x y ≡ bit_or (x / 2) (y / 2) * 2 + max (x % 2) (y % 2)
or_peel zero y = omega (arith, zero-bit_or y, zero-bit_or (y / 2))
or_peel (suc x) y = omega (
  arith,
  bit_or-bitwise (suc x) y,
  bit_or-bitwise (suc x / 2) (y / 2),
  fuel_agrees (λ b. b) max (suc x / 2) (y / 2) x (suc x / 2) (omega arith) (omega arith),
)

and_peel : (x y : ℕ) → bit_and x y ≡ bit_and (x / 2) (y / 2) * 2 + min (x % 2) (y % 2)
and_peel zero y = omega (arith, zero-bit_and y, zero-bit_and (y / 2))
and_peel (suc x) y = omega (
  arith,
  bit_and-bitwise (suc x) y,
  bit_and-bitwise (suc x / 2) (y / 2),
  fuel_agrees (λ b. 0) min (suc x / 2) (y / 2) x (suc x / 2) (omega arith) (omega arith),
)

-- The two numbers cut at bit `k` are combined part by part.
pub bit_or-split :
    (k q r m s : ℕ)
    → r < 2 ^ k
    → s < 2 ^ k
    → bit_or (q * 2 ^ k + r) (m * 2 ^ k + s) ≡ bit_or q m * 2 ^ k + bit_or r s
bit_or-split zero q r m s hr hs =
    let er : r ≡ 0 = omega arith in
    let es : s ≡ 0 = omega arith in
    rw (er, es) (omega (arith, zero-bit_or 0, ap₂ bit_or (one_part q) (one_part m)))
  where
    one_part : (n : ℕ) → n * 2 ^ 0 + 0 ≡ n
    one_part n = omega arith
bit_or-split (suc k) q r m s hr hs =
    let hr' : r < 2 ^ k * 2 = omega (arith, pow-suc 2 k) in
    let hs' : s < 2 ^ k * 2 = omega (arith, pow-suc 2 k) in
    rw (pow-suc 2 k) (
      omega (
        arith,
        or_peel (q * (2 ^ k * 2) + r) (m * (2 ^ k * 2) + s),
        or_peel r s,
        bit_or-split k q (r / 2) m (s / 2) (omega arith) (omega arith),
        ap₂ bit_or (half q r) (half m s),
        parity q r,
        parity m s,
      ))
  where
    half : (a b : ℕ) → (a * (2 ^ k * 2) + b) / 2 ≡ a * 2 ^ k + b / 2
    half a b = omega arith

    parity : (a b : ℕ) → (a * (2 ^ k * 2) + b) % 2 ≡ b % 2
    parity a b = omega arith

pub bit_and-split :
    (k q r m s : ℕ)
    → r < 2 ^ k
    → s < 2 ^ k
    → bit_and (q * 2 ^ k + r) (m * 2 ^ k + s) ≡ bit_and q m * 2 ^ k + bit_and r s
bit_and-split zero q r m s hr hs =
    let er : r ≡ 0 = omega arith in
    let es : s ≡ 0 = omega arith in
    rw (er, es) (omega (arith, zero-bit_and 0, ap₂ bit_and (one_part q) (one_part m)))
  where
    one_part : (n : ℕ) → n * 2 ^ 0 + 0 ≡ n
    one_part n = omega arith
bit_and-split (suc k) q r m s hr hs =
    let hr' : r < 2 ^ k * 2 = omega (arith, pow-suc 2 k) in
    let hs' : s < 2 ^ k * 2 = omega (arith, pow-suc 2 k) in
    rw (pow-suc 2 k) (
      omega (
        arith,
        and_peel (q * (2 ^ k * 2) + r) (m * (2 ^ k * 2) + s),
        and_peel r s,
        bit_and-split k q (r / 2) m (s / 2) (omega arith) (omega arith),
        ap₂ bit_and (half q r) (half m s),
        parity q r,
        parity m s,
      ))
  where
    half : (a b : ℕ) → (a * (2 ^ k * 2) + b) / 2 ≡ a * 2 ^ k + b / 2
    half a b = omega arith

    parity : (a b : ℕ) → (a * (2 ^ k * 2) + b) % 2 ≡ b % 2
    parity a b = omega arith

bit_or-zero_fuel : (n x : ℕ) → x ≤ n → bit_or x 0 ≡ x
bit_or-zero_fuel n zero h = refl
bit_or-zero_fuel zero (suc x) h = absurd (omega arith)
bit_or-zero_fuel (suc n) (suc x) h =
    omega (arith, or_peel (suc x) 0, bit_or-zero_fuel n (suc x / 2) (omega arith))

bit_and-zero_fuel : (n x : ℕ) → x ≤ n → bit_and x 0 ≡ 0
bit_and-zero_fuel n zero h = refl
bit_and-zero_fuel zero (suc x) h = absurd (omega arith)
bit_and-zero_fuel (suc n) (suc x) h =
    omega (arith, and_peel (suc x) 0, bit_and-zero_fuel n (suc x / 2) (omega arith))

-- `(q << k) | s` is a sum where `s` fits below bit `k`.
pub bit_or_shifted : (k q s : ℕ) → s < 2 ^ k → bit_or (q * 2 ^ k) s ≡ q * 2 ^ k + s
bit_or_shifted k q s h = omega (
  arith,
  ap₂ bit_or (pad q) (low s),
  bit_or-split k q 0 0 s (one-le-pow k 2 (omega arith)) h,
  ap (λ (t : ℕ). t * 2 ^ k) (bit_or-zero_fuel q q (omega arith)),
  zero-bit_or s,
)
  where
    pad : (a : ℕ) → a * 2 ^ k ≡ a * 2 ^ k + 0
    pad a = omega arith

    low : (a : ℕ) → a ≡ 0 * 2 ^ k + a
    low a = omega arith

-- A mask of `k` ones keeps what fits below bit `k`.
mask_keeps : (k r : ℕ) → r < 2 ^ k → bit_and r (2 ^ k - 1) ≡ r
mask_keeps zero r h = let e : r ≡ 0 = omega arith in rw e (zero-bit_and (2 ^ 0 - 1))
mask_keeps (suc k) r h =
    let ones : (2 ^ suc k - 1) / 2 ≡ 2 ^ k - 1 = omega (arith, pow-suc 2 k) in
    let last : (2 ^ suc k - 1) % 2 ≡ 1 = omega (arith, pow-suc 2 k, one-le-pow k 2 (omega arith)) in
    omega (
      arith,
      and_peel r (2 ^ suc k - 1),
      ap (bit_and (r / 2)) ones,
      last,
      mask_keeps k (r / 2) (omega (arith, pow-suc 2 k)),
    )

-- A number is its parts above and below bit `k`.
cut : (k x : ℕ) → x ≡ x / 2 ^ k * 2 ^ k + x % 2 ^ k
cut k x = omega (arith, div-add-mod x (2 ^ k))

-- A mask of `k` low bits is a remainder.
pub bit_and_mask : (k x : ℕ) → bit_and x (2 ^ k - 1) ≡ x % 2 ^ k
bit_and_mask k x =
    ap₂ bit_and (cut k x) zeros_above
    ∙ bit_and-split k (x / 2 ^ k) (x % 2 ^ k) 0 (2 ^ k - 1) below (omega (arith, pos))
    ∙ omega (
      arith,
      mask_keeps k (x % 2 ^ k) below,
      ap (λ (t : ℕ). t * 2 ^ k) (bit_and-zero_fuel (x / 2 ^ k) (x / 2 ^ k) (omega arith)),
    )
  where
    pos : 0 < 2 ^ k
    pos = one-le-pow k 2 (omega arith)

    below : x % 2 ^ k < 2 ^ k
    below = mod-lt x pos

    zeros_above : 2 ^ k - 1 ≡ 0 * 2 ^ k + (2 ^ k - 1)
    zeros_above = omega arith

-- A mask of one bit tests it.
pub bit_and_bit : (k x : ℕ) → bit_and x (2 ^ k) ≡ x / 2 ^ k % 2 * 2 ^ k
bit_and_bit k x =
    ap₂ bit_and (cut k x) one_above
    ∙ bit_and-split k (x / 2 ^ k) (x % 2 ^ k) 1 0 (mod-lt x pos) pos
    ∙ omega (
      arith,
      ap (λ (t : ℕ). t * 2 ^ k) (bit_and_mask 1 (x / 2 ^ k)),
      bit_and-zero_fuel (x % 2 ^ k) (x % 2 ^ k) (omega arith),
    )
  where
    pos : 0 < 2 ^ k
    pos = one-le-pow k 2 (omega arith)

    one_above : 2 ^ k ≡ 1 * 2 ^ k + 0
    one_above = omega arith

-- `s | (q << k)` likewise.
pub bit_or_below : (k q s : ℕ) → s < 2 ^ k → bit_or s (q * 2 ^ k) ≡ q * 2 ^ k + s
bit_or_below k q s h = omega (
  arith,
  ap₂ bit_or low pad,
  bit_or-split k 0 s q 0 h (one-le-pow k 2 (omega arith)),
  ap (λ (t : ℕ). t * 2 ^ k) (zero-bit_or q),
  bit_or-zero_fuel s s (omega arith),
)
  where
    low : s ≡ 0 * 2 ^ k + s
    low = omega arith

    pad : q * 2 ^ k ≡ q * 2 ^ k + 0
    pad = omega arith

-- A mask above bit `k` on a number with zeros below it.
pub bit_and_shifted : (k q m : ℕ) → bit_and (q * 2 ^ k) (m * 2 ^ k) ≡ bit_and q m * 2 ^ k
bit_and_shifted k q m =
    ap₂ bit_and (pad q) (pad m)
    ∙ bit_and-split k q 0 m 0 (one-le-pow k 2 (omega arith)) (one-le-pow k 2 (omega arith))
    ∙ omega (arith, zero-bit_and 0)
  where
    pad : (a : ℕ) → a * 2 ^ k ≡ a * 2 ^ k + 0
    pad a = omega arith
