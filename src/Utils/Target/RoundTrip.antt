-- ===== src/Utils/Target/RoundTrip.antt =====
-- `target_to_nbits` behind `nbits_to_target` (utils.rs), on the compact targets in normal form.
use bitcoin_svm_bridge.Prelude.{
  ℕ, zero, suc, ◌+◌, ◌-◌, ◌*◌, ◌/◌, ◌%◌, ◌^◌, ◌≤◌, ◌<◌, ◌≡◌, ◌≢◌, refl, ap, ap₂, ◌∙◌, inl, inr, [],
  ◌∷◌, ok, some, arith, bit_and, bit_or, bit_and_mask, bit_and_bit, bit_or_shifted, bit_or_below,
  bit_and_shifted, leb, get_or, if◌then◌else◌, length, lt→ltb, le→leb, Bool-cases, ==_iff, ◌==◌,
}
use bitcoin_svm_bridge.ArrayUtils.{Bytes}
use bitcoin_svm_bridge.Structs.{zero_hash}
use bitcoin_svm_bridge.Utils.Target.{
  nbits_to_target, place_word, target_to_nbits, first_nonzero, compact_parts, compact_byte,
  write_byte,
}
use bitcoin_svm_bridge.Utils.Target.Expand.{
  get_or-write_byte_ne, get_or-write_byte_self, length-write_byte, zeros_at,
}
use bitcoin_svm_bridge.Utils.Target.Compact.{nbits_size, target_of, nbits_to_target-eq}

-- A size from 3 to 32, no sign bit, and a mantissa that could not be shifted up by a byte.
pub record IsCanonical (nbits : ℕ) : Type 0 where
  pub min_size : 3 ≤ nbits_size nbits
  pub max_size : nbits_size nbits ≤ 32
  pub min_word : 2 ^ 15 ≤ nbits % 2 ^ 24
  pub max_word : nbits % 2 ^ 24 < 2 ^ 23

pub first_nonzero-at :
    (xs : Bytes) (i k : ℕ)
    → ((j : ℕ) → j < k → get_or xs j 0 ≡ 0)
    → 0 < get_or xs k 0
    → first_nonzero xs i ≡ some (i + k)
unfolding first_nonzero
first_nonzero-at [] i k before h = absurd (omega arith)
first_nonzero-at (x ∷ xs) i zero before h = ground arith
first_nonzero-at (x ∷ xs) i (suc k) before h =
    ground (arith, before 0, first_nonzero-at xs (i + 1) k (λ j p. before (suc j) (omega arith)) h)

-- The bytes of a target that `place_word` has written.
pub record Placed (t : Bytes) (start w0 w1 w2 : ℕ) : Type 0 where
  pub at0 : get_or t start 0 ≡ w0
  pub at1 : get_or t (start + 1) 0 ≡ w1
  pub at2 : get_or t (start + 2) 0 ≡ w2
  pub before : (j : ℕ) → j < start → get_or t j 0 ≡ 0
  pub behind : (j : ℕ) → start + 3 ≤ j → get_or t j 0 ≡ 0

pub place_word-Placed :
    (start w0 w1 w2 : ℕ) → start ≤ 29 → Placed (place_word start w0 w1 w2) start w0 w1 w2
place_word-Placed start w0 w1 w2 h =
    let a = write_byte zero_hash start w0 in
    let b = write_byte a (start + 1) w1 in
    let la : length a ≡ 32 = length-write_byte zero_hash start w0 in
    let lb : length b ≡ 32 = length-write_byte a (start + 1) w1 ∙ la in
    let other = λ (j : ℕ) (p : start ≢ j) (q : start + 1 ≢ j) (r : start + 2 ≢ j).
      get_or-write_byte_ne b (start + 2) j w2 r
      ∙ get_or-write_byte_ne a (start + 1) j w1 q
      ∙ get_or-write_byte_ne zero_hash start j w0 p
      ∙ zeros_at j in
    record {
      at0 =
          get_or-write_byte_ne b (start + 2) start w2 (omega arith)
          ∙ get_or-write_byte_ne a (start + 1) start w1 (omega arith)
          ∙ get_or-write_byte_self zero_hash start w0 (omega arith) refl;
      at1 =
          get_or-write_byte_ne b (start + 2) (start + 1) w2 (omega arith)
          ∙ get_or-write_byte_self a (start + 1) w1 (omega arith) la;
      at2 = get_or-write_byte_self b (start + 2) w2 (omega arith) lb;
      before = λ j p. other j (omega arith) (omega arith) (omega arith);
      behind = λ j p. other j (omega arith) (omega arith) (omega arith);
    }

-- Three bytes joined by `|`.
pub word-sum :
    (a b c : ℕ)
    → b < 256
    → c < 256
    → bit_or (bit_or (bit_or 0 (a * 2 ^ 16)) (b * 2 ^ 8)) c ≡ a * 2 ^ 16 + b * 2 ^ 8 + c
word-sum a b c hb hc = rw (bit_or_below 16 a 0 (omega arith)) (
    ap (λ (t : ℕ). bit_or (bit_or t (b * 2 ^ 8)) c) (omega arith)
    ∙ ap (λ (t : ℕ). bit_or t c) (bit_or_shifted 16 a (b * 2 ^ 8) (omega arith) ∙ joined)
    ∙ bit_or_shifted 8 (a * 2 ^ 8 + b) c hc
    ∙ omega arith)
  where
    joined : a * 2 ^ 16 + b * 2 ^ 8 ≡ (a * 2 ^ 8 + b) * 2 ^ 8
    joined = omega arith

compact_byte_at :
    (t : Bytes) (n i pos v : ℕ)
    → 32 - n + i ≡ pos
    → pos < 32
    → get_or t pos 0 ≡ v
    → compact_byte t n i ≡ v
compact_byte_at t n i pos v e h g = rw (e, lt→ltb pos 32 h) g

compact_byte_zero :
    (t : Bytes) (n i pos : ℕ) → 32 - n + i ≡ pos → get_or t pos 0 ≡ 0 → compact_byte t n i ≡ 0
compact_byte_zero t n i pos e g = rw e (ground (arith, g))

-- What the size and the three bytes in front make of a target: a top bit that is set moves the
-- mantissa down by a byte.
compact_parts-eq :
    (t : Bytes) (n a b c : ℕ)
    → a < 256
    → b < 256
    → c < 256
    → compact_byte t n 0 ≡ a
    → compact_byte t n 1 ≡ b
    → compact_byte t n 2 ≡ c
    → compact_parts t n ≡ (
        if leb 128 a
        then ((a * 2 ^ 16 + b * 2 ^ 8 + c) / 2 ^ 8, n + 1)
        else (a * 2 ^ 16 + b * 2 ^ 8 + c, n))
compact_parts-eq t n a b c ha hb hc ea eb ec =
    rw (ea, eb, ec, word-sum a b c hb hc, bit_and_bit 23 (a * 2 ^ 16 + b * 2 ^ 8 + c))
      (ground arith)

pack : ℕ × ℕ → ℕ
pack (n_compact, n_size) =
    bit_or (bit_and n_compact 0x00FFFFFF) (bit_and (n_size * 2 ^ 24 % 2 ^ 32) 0xFF000000)

pack-eq : (m n : ℕ) → m < 2 ^ 24 → n < 256 → pack (m, n) ≡ n * 2 ^ 24 + m
unfolding pack
pack-eq m n hm hn = ap₂ bit_or low high ∙ bit_or_below 24 n m hm
  where
    low : bit_and m 0x00FFFFFF ≡ m
    low = bit_and_mask 24 m ∙ omega arith

    high : bit_and (n * 2 ^ 24 % 2 ^ 32) 0xFF000000 ≡ n * 2 ^ 24
    high =
        ap (λ (t : ℕ). bit_and t 0xFF000000) fits
        ∙ bit_and_shifted 24 n 255
        ∙ ap (λ (t : ℕ). t * 2 ^ 24) (bit_and_mask 8 n ∙ omega arith)
      where
        fits : n * 2 ^ 24 % 2 ^ 32 ≡ n * 2 ^ 24
        fits = omega arith

-- The compact form of a target is found from its first byte that is not zero.
target_to_nbits-eq :
    (t : Bytes) (i m n : ℕ)
    → first_nonzero t 0 ≡ some i
    → compact_parts t (32 - i) ≡ (m, n)
    → m < 2 ^ 24
    → n < 256
    → target_to_nbits t ≡ n * 2 ^ 24 + m
unfolding target_to_nbits pack
target_to_nbits-eq t i m n f c hm hn = ap pack (rw f c) ∙ pack-eq m n hm hn

module _ (t : Bytes) (start w0 w1 w2 : ℕ) (p : Placed t start w0 w1 w2) (fits : start ≤ 29) where
  -- With a first byte below 128 that is not zero, the three bytes are the mantissa.
  pack_full :
      0 < w0
      → w0 < 128
      → w1 < 256
      → w2 < 256
      → target_to_nbits t ≡ (32 - start) * 2 ^ 24 + (w0 * 2 ^ 16 + w1 * 2 ^ 8 + w2)
  pack_full pos h0 h1 h2 =
      target_to_nbits-eq t start (w0 * 2 ^ 16 + w1 * 2 ^ 8 + w2) (32 - start)
        (first_nonzero-at t 0 start p.before (rw p.at0 pos) ∙ ap (λ (n : ℕ). some n) (omega arith))
        (compact_parts-eq t (32 - start) w0 w1 w2 (omega arith) h1 h2
            (compact_byte_at t (32 - start) 0 start w0 (omega arith) (omega arith) p.at0)
            (compact_byte_at t (32 - start) 1 (start + 1) w1 (omega arith) (omega arith) p.at1)
            (compact_byte_at t (32 - start) 2 (start + 2) w2 (omega arith) (omega arith) p.at2)
          ∙ ground arith)
        (omega arith) (omega arith)

  -- With a first byte of zero and a second from 128 on, they are shifted down by a byte.
  pack_shifted :
      w0 ≡ 0
      → 128 ≤ w1
      → w1 < 256
      → w2 < 256
      → target_to_nbits t ≡ (32 - start) * 2 ^ 24 + (w1 * 2 ^ 8 + w2)
  pack_shifted zero0 big h1 h2 =
      target_to_nbits-eq t (start + 1) (w1 * 2 ^ 8 + w2) (32 - start)
        (first_nonzero-at t 0 (start + 1) earlier (rw p.at1 (omega arith))
          ∙ ap (λ (n : ℕ). some n) (omega arith))
        (compact_parts-eq t (32 - (start + 1)) w1 w2 0 h1 h2 (omega arith)
            (compact_byte_at t _ 0 (start + 1) w1 (omega arith) (omega arith) p.at1)
            (compact_byte_at t _ 1 (start + 2) w2 (omega arith) (omega arith) p.at2)
            (compact_byte_zero t _ 2 (start + 3) (omega arith) (p.behind (start + 3) (omega arith)))
          ∙ rw (le→leb 128 w1 big) (ap₂ (λ (a b : ℕ). (a, b)) (omega arith) (omega arith)))
        (omega arith) (omega arith)
    where
      earlier : (j : ℕ) → j < start + 1 → get_or t j 0 ≡ 0
      earlier j h = elim (Bool-cases (j == start)) [
        | inl e ↦ rw ((==_iff j start).0 e) (p.at0 ∙ zero0)
        | inr e ↦ p.before j (ground arith)
      ]

-- For every `nbits` in normal form, `target_to_nbits` gives back the `nbits` that
-- `nbits_to_target` was given.
pub target_to_nbits-nbits_to_target :
    (nbits : ℕ)
    → nbits < 2 ^ 32
    → IsCanonical nbits
    → (t : Bytes) × (nbits_to_target nbits ≡ ok t) × (target_to_nbits t ≡ nbits)
target_to_nbits-nbits_to_target nbits h c = (
  target_of nbits,
  nbits_to_target-eq nbits h c.max_size,
  elim (Bool-cases (w0 == 0)) [
    | inl e ↦
        pack_shifted (target_of nbits) start w0 w1 w2 placed (omega arith) ((==_iff w0 0).0 e)
          (ground arith) (omega arith) (omega arith)
        ∙ ground arith
    | inr e ↦
        pack_full (target_of nbits) start w0 w1 w2 placed (omega arith) (ground arith) (omega arith)
          (omega arith) (omega arith)
        ∙ omega arith
  ],
)
  where
    start : ℕ
    start = 32 - nbits_size nbits

    w0 : ℕ
    w0 = nbits / 2 ^ 16 % 2 ^ 7

    w1 : ℕ
    w1 = nbits / 2 ^ 8 % 2 ^ 8

    w2 : ℕ
    w2 = nbits % 2 ^ 8

    placed : Placed (target_of nbits) start w0 w1 w2
    placed = place_word-Placed start w0 w1 w2 (omega arith)
