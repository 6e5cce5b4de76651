-- ===== src/State/Fork.antt =====
-- The account of a fork as a list of commitments that grows at its end.
use native.Mathlib.Nat.{zero-add}
use bitcoin_svm_bridge.Prelude.{
  ℕ, ◌+◌, ◌≤◌, ◌<◌, ◌≡◌, ◌≢◌, refl, sym, ap, ◌∙◌, List, [], ◌∷◌, ◌++◌, some, ok, bind_ok,
  ok-injective, checked_add, checked_add-eq-ok, ltb, ltb→lt, length, get_elem?, set, length-set,
  length-append, get_elem?-set_self, get_elem?-set_ne, arith, Bool-cases, inl, inr,
}
use bitcoin_svm_bridge.ArrayUtils.{Bytes}
use bitcoin_svm_bridge.State.{ForkState, store_fork_commitment}

-- The hashes stand in the array from the index `i` on.
abbrev pub Held : List Bytes → List Bytes → ℕ → Type 0
Held array [] i = Unit
Held array (hash ∷ hashes) i = (get_elem? array i ≡ some hash) × Held array hashes (i + 1)

Held-set :
    (array hashes : List Bytes) (i k : ℕ) (c : Bytes)
    → i + length hashes ≤ k
    → Held array hashes i
    → Held (set array k c) hashes i
Held-set array [] i k c h held = tt
Held-set array (hash ∷ hashes) i k c h (here, held) =
    let other : k ≢ i = λ e. omega arith in
    (
      get_elem?-set_ne array k i c other ∙ here,
      Held-set array hashes (i + 1) k c (omega arith) held,
    )

Held-append :
    (array hashes : List Bytes) (i : ℕ) (c : Bytes)
    → Held array hashes i
    → get_elem? array (i + length hashes) ≡ some c
    → Held array (hashes ++ (c ∷ [])) i
Held-append array [] i c held h = (ap (get_elem? array) (omega arith) ∙ h, tt)
Held-append array (hash ∷ hashes) i c (here, held) h =
    (here, Held-append array hashes (i + 1) c held (ap (get_elem? array) (omega arith) ∙ h))

-- The account holds the commitments `hashes`, in order, and no more.
pub record Buffer (hashes : List Bytes) (f : ForkState) : Type 0 where
  pub size : length f.block_commitments ≡ 250
  pub count : f.length ≡ length hashes
  pub held : Held f.block_commitments hashes 0

-- A store on the account of a fork that succeeds adds the commitment at the end of those that the
-- account holds, while these are fewer than 250, and keeps the height that the fork starts at.
pub store_fork_commitment-Buffer :
    {hashes : List Bytes} (c : Bytes) (f : ForkState) {g : ForkState}
    → Buffer hashes f
    → store_fork_commitment c f ≡ ok g
    → (length hashes < 250)
      × Buffer (hashes ++ (c ∷ [])) g
      × (g.start_height ≡ f.start_height)
      × (g.initialized ≡ f.initialized)
unfolding store_fork_commitment
store_fork_commitment-Buffer {hashes} c f b h =
    elim (Bool-cases (ltb f.length (length f.block_commitments))) [
      | inl e ↦ bind_ok (checked_add 32 f.length 1) _ (rw e at h) λ n e0 h0.
          let (sum, _) = checked_add-eq-ok 32 f.length 1 e0 in
          let fits = ltb→lt f.length (length f.block_commitments) e in
          let array = set f.block_commitments f.length c in
          let kept =
            Held-set f.block_commitments hashes 0 f.length c (omega (arith, b.count)) b.held in
          let last : get_elem? array (length hashes) ≡ some c =
            ap (get_elem? array) (sym b.count)
            ∙ get_elem?-set_self f.block_commitments f.length c fits in
          (
            omega (arith, b.size, b.count, fits),
            rw (← ok-injective h0) (record {
              size = omega (arith, length-set f.block_commitments f.length c, b.size);
              count = omega (arith, sum, b.count, length-append hashes (c ∷ []));
              held = Held-append array hashes 0 c kept (rw (zero-add (length hashes)) last);
            }),
            rw (← ok-injective h0) refl,
            rw (← ok-injective h0) refl,
          )
      | inr e ↦ cc (rw e at h)
    ]
