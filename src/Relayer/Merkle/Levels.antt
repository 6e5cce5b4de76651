-- ===== src/Relayer/Merkle/Levels.antt =====
-- The Merkle tree of Bitcoin, level by level, and the rounds of `Proof::create` on it.
use bitcoin_svm_bridge.Prelude.{
  ℕ, zero, suc, ◌+◌, ◌/◌, ◌%◌, ◌≡◌, refl, ap, List, [], ◌∷◌, ◌++◌, some, ok, ◌⊎◌, inl, inr, ◌==◌,
  if◌then◌else◌, length, get_elem?, arith,
}
use bitcoin_svm_bridge.ArrayUtils.{Bytes}
use bitcoin_svm_bridge.Structs.{Platform}
use bitcoin_svm_bridge.Relayer.Merkle.{last?, pad, sibling, pair_hashes}

-- a level with its last node repeated if their number is odd, by pairs
abbrev pub padded : List Bytes → List Bytes
padded [] = []
padded (a ∷ []) = a ∷ a ∷ []
padded (a ∷ b ∷ hashes) = a ∷ b ∷ padded hashes

pub some-injective : {x y : Bytes} → some x ≡ some y → x ≡ y
some-injective h = cc

module _ (p : Platform) where
  -- the level above: a node without a partner is hashed with itself
  abbrev pub parents : List Bytes → List Bytes
  parents [] = []
  parents (a ∷ []) = p.sha256d (a ++ a) ∷ []
  parents (a ∷ b ∷ hashes) = p.sha256d (a ++ b) ∷ parents hashes

  -- The root of a tree with these leaves.
  pub data IsRoot : List Bytes → Bytes → Type 0 where
    leaf : (a : Bytes) → IsRoot (a ∷ []) a
    node :
        (a b : Bytes) (hashes : List Bytes) (root : Bytes)
        → IsRoot (parents (a ∷ b ∷ hashes)) root
        → IsRoot (a ∷ b ∷ hashes) root

  pub pair_hashes-padded :
      (hashes : List Bytes) → pair_hashes p (padded hashes) ≡ ok (parents hashes)
  unfolding pair_hashes
  pair_hashes-padded [] = refl
  pair_hashes-padded (a ∷ []) = refl
  pair_hashes-padded (a ∷ b ∷ hashes) = rw (pair_hashes-padded hashes)

  pub length-parents : (hashes : List Bytes) → length (parents hashes) ≡ (length hashes + 1) / 2
  length-parents [] = refl
  length-parents (a ∷ []) = refl
  length-parents (a ∷ b ∷ hashes) = omega (arith, length-parents hashes)

  -- the hash that the level above has over a node and its sibling
  abbrev pub joined : ℕ → Bytes → Bytes → Bytes
  joined offset current piece =
      p.sha256d (if offset % 2 == 0 then current ++ piece else piece ++ current)

  sibling_deeper : (offset : ℕ) → sibling (suc (suc offset)) ≡ suc (suc (sibling offset))
  sibling_deeper offset = ground arith

  half_deeper : (offset : ℕ) → suc (suc offset) / 2 ≡ suc (offset / 2)
  half_deeper offset = omega arith

  joined_deeper :
      (offset : ℕ) (current piece : Bytes)
      → joined (suc (suc offset)) current piece ≡ joined offset current piece
  joined_deeper offset current piece = rw (parity, joined) refl
    where
      parity : suc (suc offset) % 2 ≡ offset % 2
      parity = omega arith

  -- A node of a level has a sibling in the padded level, and their hash stands above them.
  pub sibling_lem :
      (hashes : List Bytes) (offset : ℕ) (current : Bytes)
      → get_elem? hashes offset ≡ some current
      → (piece : Bytes) × (get_elem? (padded hashes) (sibling offset) ≡ some piece)
        × (get_elem? (parents hashes) (offset / 2) ≡ some (joined offset current piece))
  sibling_lem [] offset current h = cc
  sibling_lem (a ∷ []) zero current h =
      (a, refl, ap (λ (x : Bytes). some (p.sha256d (x ++ a))) (some-injective h))
  sibling_lem (a ∷ []) (suc offset) current h = cc
  sibling_lem (a ∷ b ∷ hashes) zero current h =
      (b, refl, ap (λ (x : Bytes). some (p.sha256d (x ++ b))) (some-injective h))
  sibling_lem (a ∷ b ∷ hashes) (suc zero) current h =
      (a, refl, ap (λ (x : Bytes). some (p.sha256d (a ++ x))) (some-injective h))
  sibling_lem (a ∷ b ∷ hashes) (suc (suc offset)) current h =
      let (piece, beside, above) = sibling_lem hashes offset current h in
      (
        piece,
        rw (sibling_deeper offset) beside,
        rw (half_deeper offset, joined_deeper offset current piece) above,
      )

odd_even : (n : ℕ) → (n % 2 ≡ 0) ⊎ (n % 2 ≡ 1)
odd_even n = ground arith

last?-deeper :
    (a b x : Bytes) (hashes : List Bytes) → last? (a ∷ b ∷ x ∷ hashes) ≡ last? (x ∷ hashes)
last?-deeper a b x hashes = refl

pad_odd :
    (hashes : List Bytes)
    → length hashes % 2 ≡ 1
    → (last : Bytes) × (last? hashes ≡ some last) × (hashes ++ last ∷ [] ≡ padded hashes)
pad_odd [] h = absurd (omega arith)
pad_odd (a ∷ []) h = (a, refl, refl)
pad_odd (a ∷ b ∷ []) h = absurd (omega arith)
pad_odd (a ∷ b ∷ c ∷ hashes) h =
    let (last, is_last, same) = pad_odd (c ∷ hashes) (omega arith) in
    (last, is_last, ap (λ (xs : List Bytes). a ∷ b ∷ xs) same)

pad_even : (hashes : List Bytes) → length hashes % 2 ≡ 0 → padded hashes ≡ hashes
pad_even [] h = refl
pad_even (a ∷ []) h = absurd (omega arith)
pad_even (a ∷ b ∷ hashes) h = ap (λ (xs : List Bytes). a ∷ b ∷ xs) (pad_even hashes (omega arith))

pub pad-eq : (hashes : List Bytes) → pad hashes ≡ ok (padded hashes)
unfolding pad
pad-eq hashes = elim (odd_even (length hashes)) [
  | inl e ↦ rw (e, pad_even hashes e) refl
  | inr e ↦ let (last, is_last, same) = pad_odd hashes e in rw (e, is_last, ← same) refl
]
