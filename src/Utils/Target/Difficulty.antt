-- ===== src/Utils/Target/Difficulty.antt =====
-- The number of `get_difficulty` (utils.rs).
use native.Mathlib.Nat.{div-eq_of_lt-le, div-div-eq-div-mul}
use native.Mathlib.Numerals.{towards_suc}
use bitcoin_svm_bridge.Prelude.{
  ℕ, zero, suc, ◌+◌, ◌-◌, ◌*◌, ◌/◌, ◌^◌, ◌≤◌, ◌<◌, ◌≡◌, refl, sym, ap, ap₂, ◌∙◌, [], ◌∷◌, ◌++◌, All,
  ok, some, arith, le→leb, get_or, length, take, drop, replicate, length-append, length-replicate,
  length-take_of_le, length-drop, get_or-drop, take-append-drop,
}
use bitcoin_svm_bridge.ArrayUtils.{Bytes, div_in_place}
use bitcoin_svm_bridge.ArrayUtils.Value.{
  IsByte, IsU256, value, weight, weight-eq-pow, value-append, value-lt-weight,
}
use bitcoin_svm_bridge.ArrayUtils.Div.{value-div_in_place}
use bitcoin_svm_bridge.Utils.Target.{get_difficulty, first_nonzero, leading_word, max_difficulty}
use bitcoin_svm_bridge.Utils.Target.RoundTrip.{word-sum}

bytes-append : (xs ys : Bytes) → All IsByte xs → All IsByte ys → All IsByte (xs ++ ys)
bytes-append [] ys h k = k
bytes-append (x ∷ xs) ys h k = (h.0, bytes-append xs ys h.1 k)

bytes-take : (n : ℕ) (xs : Bytes) → All IsByte xs → All IsByte (take n xs)
bytes-take zero xs h = tt
bytes-take (suc n) [] h = tt
bytes-take (suc n) (x ∷ xs) h = (h.0, bytes-take n xs h.1)

bytes-drop : (n : ℕ) (xs : Bytes) → All IsByte xs → All IsByte (drop n xs)
bytes-drop zero xs h = h
bytes-drop (suc n) [] h = tt
bytes-drop (suc n) (x ∷ xs) h = bytes-drop n xs h.1

bytes-zeros : (n : ℕ) → All IsByte (replicate n zero)
bytes-zeros zero = tt
bytes-zeros (suc n) = (omega arith, bytes-zeros n)

byte-get_or : (xs : Bytes) (i : ℕ) → All IsByte xs → get_or xs i 0 < 256
byte-get_or [] i h = omega arith
byte-get_or (x ∷ xs) zero h = h.0
byte-get_or (x ∷ xs) (suc i) h = byte-get_or xs i h.1

value-zeros : (n : ℕ) → value (replicate n zero) ≡ 0
value-zeros zero = refl
value-zeros (suc n) = omega (arith, value-zeros n)

value_of_zeros : (xs : Bytes) → ((j : ℕ) → get_or xs j 0 ≡ 0) → value xs ≡ 0
value_of_zeros [] h = refl
value_of_zeros (x ∷ xs) h = rw (h 0) (omega (arith, value_of_zeros xs (λ j. h (suc j))))

-- Cutting `k` bytes off the end divides by 256 ^ k.
value-take :
    (n k : ℕ) (xs : Bytes)
    → length xs ≡ n + k
    → All IsByte xs
    → value (take n xs) ≡ value xs / 256 ^ k
value-take n k xs size h = sym (div-eq_of_lt-le (256 ^ k) lower upper)
  where
    tail : ℕ
    tail = value (drop n xs)

    whole : value xs ≡ value (take n xs) * 256 ^ k + tail
    whole =
        ap value (sym (take-append-drop n xs))
        ∙ value-append (take n xs) (drop n xs)
        ∙ ap (λ (t : ℕ). value (take n xs) * t + tail)
            (weight-eq-pow (drop n xs) ∙ ap (λ (e : ℕ). 256 ^ e) (length-drop n xs ∙ omega arith))

    small : tail < 256 ^ k
    small = omega (
      arith,
      value-lt-weight (drop n xs) (bytes-drop n xs h),
      weight-eq-pow (drop n xs),
      ap (λ (e : ℕ). 256 ^ e) (length-drop n xs),
      ap (λ (e : ℕ). 256 ^ e) cut,
    )
      where
        cut : length xs - n ≡ k
        cut = omega arith

    lower : value (take n xs) * 256 ^ k ≤ value xs
    lower = omega (arith, whole)

    upper : value xs < (value (take n xs) + 1) * 256 ^ k
    upper = omega (arith, whole, small)

-- The first bytes of an array that begins with `start` zeros.
leading_value :
    (start : ℕ) (xs : Bytes)
    → suc (suc (suc start)) ≤ length xs
    → ((j : ℕ) → j < start → get_or xs j 0 ≡ 0)
    → value (take (suc (suc (suc start))) xs)
      ≡ get_or xs start 0 * 2 ^ 16 + get_or xs (suc start) 0 * 2 ^ 8 + get_or xs (suc (suc start)) 0
leading_value start [] h z = absurd (omega arith)
leading_value zero (a ∷ []) h z = absurd (omega arith)
leading_value zero (a ∷ b ∷ []) h z = absurd (omega arith)
leading_value zero (a ∷ b ∷ c ∷ xs) h z = omega arith
leading_value (suc start) (x ∷ xs) h z =
    rw (z 0 (omega arith))
      (omega (arith, leading_value start xs (omega arith) (λ j p. z (suc j) (omega arith))))

value-take_leading :
    (start : ℕ) (xs : Bytes)
    → start + 3 ≤ length xs
    → ((j : ℕ) → j < start → get_or xs j 0 ≡ 0)
    → value (take (start + 3) xs)
      ≡ get_or xs start 0 * 2 ^ 16 + get_or xs (start + 1) 0 * 2 ^ 8 + get_or xs (start + 2) 0
value-take_leading start xs h z = simp towards_suc (leading_value start xs (omega arith) z)

-- What is known of a target whose first byte that is not zero has the index `start`, and whose
-- bytes behind the third from there are zero.
pub record IsShort (t : Bytes) (start : ℕ) : Type 0 where
  pub found : first_nonzero t 0 ≡ some start
  pub nonzero : 0 < get_or t start 0
  pub early : start ≤ 29
  pub before : (j : ℕ) → j < start → get_or t j 0 ≡ 0
  pub behind : (j : ℕ) → start + 3 ≤ j → get_or t j 0 ≡ 0

leading_word-eq :
    (t : Bytes) (start : ℕ)
    → IsU256 t
    → IsShort t start
    → leading_word t start ≡ value (take (start + 3) t)
leading_word-eq t start u s =
    word-sum (get_or t start 0) (get_or t (start + 1) 0) (get_or t (start + 2) 0)
      (byte-get_or t (start + 1) u.bytes) (byte-get_or t (start + 2) u.bytes)
    ∙ sym (value-take_leading start t (omega (arith, u.size, s.early)) s.before)

value-eq_word :
    (t : Bytes) (start : ℕ)
    → IsU256 t
    → IsShort t start
    → value t ≡ leading_word t start * 256 ^ (29 - start)
value-eq_word t start u s =
    ap value (sym (take-append-drop (start + 3) t))
    ∙ value-append (take (start + 3) t) (drop (start + 3) t)
    ∙ ap₂ (λ (a b : ℕ). value (take (start + 3) t) * a + b) weight_rest rest
    ∙ ap (λ (w : ℕ). w * 256 ^ (29 - start) + 0) (sym (leading_word-eq t start u s))
    ∙ omega arith
  where
    rest : value (drop (start + 3) t) ≡ 0
    rest =
        value_of_zeros (drop (start + 3) t)
          (λ j. get_or-drop (start + 3) j t 0 ∙ s.behind (start + 3 + j) (omega arith))

    weight_rest : weight (drop (start + 3) t) ≡ 256 ^ (29 - start)
    weight_rest =
        weight-eq-pow (drop (start + 3) t)
        ∙ ap (λ (e : ℕ). 256 ^ e) (length-drop (start + 3) t ∙ omega (arith, u.size, s.early))

max_difficulty-IsU256 : IsU256 max_difficulty
max_difficulty-IsU256 = omega arith

leading_word-pos : (t : Bytes) (start : ℕ) → IsU256 t → IsShort t start → 0 < leading_word t start
leading_word-pos t start u s = omega (
  arith,
  word-sum (get_or t start 0) (get_or t (start + 1) 0) (get_or t (start + 2) 0)
      (byte-get_or t (start + 1) u.bytes) (byte-get_or t (start + 2) u.bytes),
  s.nonzero,
)

module _ (t : Bytes) (start : ℕ) (u : IsU256 t) (s : IsShort t start) (q : Bytes)
    (valid : IsU256 q) where
  -- the quotient moved down by the bytes behind the leading word
  abbrev moved : Bytes
  moved = replicate (32 - start - 3) 0 ++ take (32 - (32 - start - 3)) q

  get_difficulty-eq :
      div_in_place max_difficulty (leading_word t start) ≡ ok q → get_difficulty t ≡ ok moved
  unfolding get_difficulty
  get_difficulty-eq e = rw (s.found, le→leb 3 (32 - start) (omega (arith, s.early)), e)

  moved-IsU256 : IsU256 moved
  moved-IsU256 =
      let shift = 32 - start - 3 in
      record {
        size = omega (
          arith,
          length-append (replicate shift zero) (take (32 - shift) q),
          length-replicate shift zero,
          length-take_of_le (32 - shift) q (omega (arith, valid.size)),
        );
        bytes =
            bytes-append (replicate shift zero) (take (32 - shift) q) (bytes-zeros shift)
              (bytes-take (32 - shift) q valid.bytes);
      }

  value-moved : value moved ≡ value q / 256 ^ (29 - start)
  value-moved =
      let shift = 32 - start - 3 in
      let cut = take (32 - shift) q in
      value-append (replicate shift zero) cut
      ∙ ap (λ (n : ℕ). n * weight cut + value cut) (value-zeros shift)
      ∙ omega arith
      ∙ value-take (32 - shift) shift q (omega (arith, valid.size)) valid.bytes
      ∙ ap (λ (e : ℕ). value q / 256 ^ e) same
    where
      same : 32 - start - 3 ≡ 29 - start
      same = omega arith

-- The difficulty of such a target is `max_difficulty` divided by the target's number, rounded
-- down.
pub value-get_difficulty :
    (t : Bytes) (start : ℕ)
    → IsU256 t
    → IsShort t start
    → (d : Bytes) × (get_difficulty t ≡ ok d)
      × IsU256 d
      × (value d ≡ value max_difficulty / value t)
value-get_difficulty t start u s =
    let word = leading_word t start in
    let (q, e, valid, v) =
      value-div_in_place word max_difficulty-IsU256 (leading_word-pos t start u s) in
    (
      moved t start u s q valid,
      get_difficulty-eq t start u s q valid e,
      moved-IsU256 t start u s q valid,
      value-moved t start u s q valid
          ∙ ap (λ (n : ℕ). n / 256 ^ (29 - start)) v
          ∙ div-div-eq-div-mul (value max_difficulty) word (256 ^ (29 - start))
          ∙ ap (λ (n : ℕ). value max_difficulty / n) (sym (value-eq_word t start u s)),
    )
