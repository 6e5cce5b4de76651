-- ===== src/TxUtils/Reads.antt =====
-- Reading at an offset of the data, by what stands from there on.
use native.Mathlib.Nat.{pow-succ'}
use bitcoin_svm_bridge.Prelude.{
  none, All, ◌%◌, ◌*◌, sym, leb→le, ok-injective, take-append-drop, length-take_of_le, ℕ, zero, suc,
  ◌+◌, ◌/◌, ◌^◌, ◌≤◌, ◌<◌, ◌≡◌, refl, ap, ◌∙◌, [], ◌∷◌, ◌++◌, true, some, ok, ltb, leb, le→leb,
  ltb→lt, length, get_elem?, take, drop, length-append, length-drop, arith, Bool-cases, inl, inr,
}
use bitcoin_svm_bridge.ArrayUtils.{Bytes}
use bitcoin_svm_bridge.ArrayUtils.Value.{IsByte}
use bitcoin_svm_bridge.TxUtils.{slice, from_le_bytes, read_le, read_var_int}
use bitcoin_svm_bridge.TxUtils.Layout.{to_le_bytes, var_int}

-- From the offset `i` on, the data is `rest`.
pub record At (bytes : Bytes) (i : ℕ) (rest : Bytes) : Type 0 where
  pub inside : i ≤ length bytes
  pub behind : drop i bytes ≡ rest

pub At-start : (bytes : Bytes) → At bytes 0 bytes
At-start bytes = record { inside = omega arith; behind = refl }

drop-add : (i n : ℕ) (xs : Bytes) → drop (i + n) xs ≡ drop n (drop i xs)
drop-add zero n xs = ap (λ k. drop k xs) (omega arith)
drop-add (suc i) zero [] = ap (λ k. drop k []) shifted
  where
    shifted : suc i + 0 ≡ suc i
    shifted = omega arith
drop-add (suc i) (suc n) [] = ap (λ k. drop k []) shifted
  where
    shifted : suc i + suc n ≡ suc (i + suc n)
    shifted = omega arith
drop-add (suc i) n (x ∷ xs) = ap (λ k. drop k (x ∷ xs)) shifted ∙ drop-add i n xs
  where
    shifted : suc i + n ≡ suc (i + n)
    shifted = omega arith

drop-append : (xs ys : Bytes) → drop (length xs) (xs ++ ys) ≡ ys
drop-append [] ys = refl
drop-append (x ∷ xs) ys = drop-append xs ys

take-append : (xs ys : Bytes) → take (length xs) (xs ++ ys) ≡ xs
take-append [] ys = refl
take-append (x ∷ xs) ys = ap (◌∷◌ x) (take-append xs ys)

module _ {bytes : Bytes} where
  -- the room that what stands at an offset has
  pub At-length : {i : ℕ} {rest : Bytes} → At bytes i rest → i + length rest ≡ length bytes
  At-length {i} {rest} a = omega (arith, length-drop i bytes, ap length a.behind, a.inside)

  -- past a part of `n` bytes
  pub At-skip :
      {i : ℕ} (xs : Bytes) {rest : Bytes} (n : ℕ)
      → length xs ≡ n
      → At bytes i (xs ++ rest)
      → At bytes (i + n) rest
  At-skip {i} xs {rest} n size a = record {
    inside = omega (arith, At-length a, length-append xs rest, size);
    behind = drop-add i n bytes ∙ ap (drop n) a.behind ∙ rw (← size) (drop-append xs rest);
  }

  pub slice-At :
      {i : ℕ} (xs rest : Bytes) (n : ℕ)
      → length xs ≡ n
      → At bytes i (xs ++ rest)
      → slice bytes i n ≡ ok xs
  unfolding slice
  slice-At {i} xs rest n size a =
      let fits : leb (i + n) (length bytes) ≡ true =
        le→leb _ _ (omega (arith, At-length a, length-append xs rest, size)) in
      rw (fits, a.behind, ← size) (ap ok (take-append xs rest))

  pub byte-At : {i b : ℕ} {rest : Bytes} → At bytes i (b ∷ rest) → get_elem? bytes i ≡ some b
  byte-At {i} a = first i bytes a.behind
    where
      first :
          (i : ℕ) (xs : Bytes) {b : ℕ} {rest : Bytes}
          → drop i xs ≡ b ∷ rest
          → get_elem? xs i ≡ some b
      first zero [] h = cc
      first zero (x ∷ xs) h = cc
      first (suc i) [] h = cc
      first (suc i) (x ∷ xs) h = first i xs h

pub none-At : {bytes : Bytes} {i : ℕ} → At bytes i [] → get_elem? bytes i ≡ none
none-At {bytes} {i} a = beyond i bytes (omega (arith, At-length a))
  where
    beyond : (i : ℕ) (xs : Bytes) → length xs ≤ i → get_elem? xs i ≡ none
    beyond i [] h = refl
    beyond zero (x ∷ xs) h = elim h [ ]
    beyond (suc i) (x ∷ xs) h = beyond i xs (omega arith)

pub length-to_le_bytes : (n v : ℕ) → length (to_le_bytes n v) ≡ n
length-to_le_bytes zero v = refl
length-to_le_bytes (suc n) v = ap suc (length-to_le_bytes n (v / 256))

from_le_bytes-to_le_bytes : (n v : ℕ) → v < 256 ^ n → from_le_bytes (to_le_bytes n v) ≡ v
from_le_bytes-to_le_bytes zero v h = omega arith
from_le_bytes-to_le_bytes (suc n) v h =
    let small : v / 256 < 256 ^ n = omega (arith, pow-succ' 256 n) in
    omega (arith, from_le_bytes-to_le_bytes n (v / 256) small)

to_le_bytes-from_le_bytes :
    (xs : Bytes) → All IsByte xs → to_le_bytes (length xs) (from_le_bytes xs) ≡ xs
to_le_bytes-from_le_bytes [] h = refl
to_le_bytes-from_le_bytes (x ∷ xs) (h, hs) =
    let low : (x + 256 * from_le_bytes xs) % 256 ≡ x = omega arith in
    let high : (x + 256 * from_le_bytes xs) / 256 ≡ from_le_bytes xs = omega arith in
    rw (low, high) (ap (◌∷◌ x) (to_le_bytes-from_le_bytes xs hs))

All-take : (n : ℕ) (xs : Bytes) → All IsByte xs → All IsByte (take n xs)
All-take zero xs h = tt
All-take (suc n) [] h = tt
All-take (suc n) (x ∷ xs) (h, hs) = (h, All-take n xs hs)

All-drop : (n : ℕ) (xs : Bytes) → All IsByte xs → All IsByte (drop n xs)
All-drop zero xs h = h
All-drop (suc n) [] h = h
All-drop (suc n) (x ∷ xs) (h, hs) = All-drop n xs hs

-- A number that is read stands there, byte by byte.
pub read_le-eq-ok :
    (bytes : Bytes) (i n : ℕ) {v : ℕ}
    → All IsByte bytes
    → read_le bytes i n ≡ ok v
    → drop i bytes ≡ to_le_bytes n v ++ drop n (drop i bytes)
unfolding read_le slice
read_le-eq-ok bytes i n h e = elim (Bool-cases (leb (i + n) (length bytes))) [
  | inl fits ↦
      let le = take n (drop i bytes) in
      let size : length le ≡ n =
        length-take_of_le n (drop i bytes) (omega (arith, length-drop i bytes, leb→le _ _ fits)) in
      let back = to_le_bytes-from_le_bytes le (All-take n (drop i bytes) (All-drop i bytes h)) in
      rw
        (
          ← ok-injective (rw fits at e),
          ← ap (λ (k : ℕ). to_le_bytes k (from_le_bytes le)) size,
          back,
        )
        (sym (take-append-drop n (drop i bytes)))
  | inr short ↦ cc (rw short at e)
]

module _ {bytes : Bytes} where
  pub read_le-At :
      {i : ℕ} (n v : ℕ) (rest : Bytes)
      → v < 256 ^ n
      → At bytes i (to_le_bytes n v ++ rest)
      → read_le bytes i n ≡ ok v
  unfolding read_le
  read_le-At n v rest fits a =
      rw (slice-At (to_le_bytes n v) rest n (length-to_le_bytes n v) a)
        (ap ok (from_le_bytes-to_le_bytes n v fits))

  pub At-next : {i b : ℕ} {rest : Bytes} → At bytes i (b ∷ rest) → At bytes (i + 1) rest
  At-next {i} {b} a = At-skip (b ∷ []) 1 refl a

  read_short :
      {i : ℕ} (v : ℕ) (rest : Bytes)
      → leb v 0xFC ≡ true
      → At bytes i (v ∷ rest)
      → read_var_int bytes i ≡ ok (v, 1)
  unfolding read_var_int
  read_short v rest e a = rw (byte-At a, e) refl

  read_2 :
      {i : ℕ} (v : ℕ) (rest : Bytes)
      → v < 2 ^ 16
      → At bytes i (0xFD ∷ (to_le_bytes 2 v ++ rest))
      → read_var_int bytes i ≡ ok (v, 3)
  unfolding read_var_int
  read_2 v rest fits a = rw (byte-At a, read_le-At 2 v rest fits (At-next a)) refl

  read_4 :
      {i : ℕ} (v : ℕ) (rest : Bytes)
      → v < 2 ^ 32
      → At bytes i (0xFE ∷ (to_le_bytes 4 v ++ rest))
      → read_var_int bytes i ≡ ok (v, 5)
  unfolding read_var_int
  read_4 v rest fits a = rw (byte-At a, read_le-At 4 v rest fits (At-next a)) refl

  read_8 :
      {i : ℕ} (v : ℕ) (rest : Bytes)
      → v < 2 ^ 64
      → At bytes i (0xFF ∷ (to_le_bytes 8 v ++ rest))
      → read_var_int bytes i ≡ ok (v, 9)
  unfolding read_var_int
  read_8 v rest fits a = rw (byte-At a, read_le-At 8 v rest fits (At-next a)) refl

  -- `read_var_int` reads back the shortest form of every 64-bit number at any offset of the data,
  -- and reports how many bytes that form takes.
  pub read_var_int-var_int :
      {i : ℕ} (v : ℕ) (rest : Bytes)
      → v < 2 ^ 64
      → At bytes i (var_int v ++ rest)
      → read_var_int bytes i ≡ ok (v, length (var_int v))
  read_var_int-var_int {i} v rest fits a = elim (Bool-cases (leb v 0xFC)) [
    | inl e ↦ rw e (read_short v rest e (rw e at a))
    | inr e ↦ elim (Bool-cases (ltb v (2 ^ 16))) [
      | inl e2 ↦ rw (e, e2) (read_2 v rest (ltb→lt _ _ e2) (rw (e, e2) at a))
      | inr e2 ↦ elim (Bool-cases (ltb v (2 ^ 32))) [
        | inl e4 ↦ rw (e, e2, e4) (read_4 v rest (ltb→lt _ _ e4) (rw (e, e2, e4) at a))
        | inr e4 ↦ rw (e, e2, e4) (read_8 v rest fits (rw (e, e2, e4) at a))
      ]
    ]
  ]
