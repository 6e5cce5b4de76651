-- ===== src/TxVerify/Exact.antt =====
-- Which instructions the check accepts.
use bitcoin_svm_bridge.Prelude.{
  ℕ, suc, Option, some, ◌+◌, ◌^◌, ◌<◌, ◌≡◌, ◌↔◌, ◌≢◌, refl, sym, ap, ◌∙◌, [], ◌∷◌, ◌++◌, Bool, true,
  false, All, Result, ok, bind_ok, ok-injective, if◌then◌else◌, ◌==◌, ==_iff, ==_refl, bytes_eq,
  bytes_eq→eq, eq→bytes_eq, drop, length, arith, Bool-cases, inl, inr,
}
use bitcoin_svm_bridge.ArrayUtils.{Bytes}
use bitcoin_svm_bridge.ArrayUtils.Value.{IsByte}
use bitcoin_svm_bridge.Structs.{Pubkey}
use bitcoin_svm_bridge.TxUtils.{read_le}
use bitcoin_svm_bridge.TxUtils.Layout.{to_le_bytes}
use bitcoin_svm_bridge.TxUtils.Reads.{
  At-start, At, At-skip, At-next, byte-At, none-At, read_le-eq-ok, read_le-At,
}
use bitcoin_svm_bridge.TxVerify.{
  btc_relay_id_base58, ix_prefix, same_bytes, check_tx_data, Instruction, verify_tx_ix,
}

-- the layout that the check expects, with anything behind it
abbrev pub ix_layout : Bytes → ℕ → Bytes → Bytes
ix_layout tx_id confirmations rest = ix_prefix ++ (tx_id ++ (to_le_bytes 4 confirmations ++ rest))

module _ {bytes : Bytes} where
  -- The loop finds the bytes where they stand, ...
  same_bytes-At :
      (xs : Bytes) (i : ℕ) (rest : Bytes)
      → At bytes i (xs ++ rest)
      → same_bytes xs bytes i ≡ ok true
  unfolding same_bytes
  same_bytes-At [] i rest a = refl
  same_bytes-At (x ∷ xs) i rest a =
      rw (byte-At a, ==_refl x) (same_bytes-At xs (i + 1) rest (At-next a))

  -- ... and where it succeeds they stand.
  At-same_bytes :
      (xs : Bytes) (i : ℕ) (rest : Bytes)
      → At bytes i rest
      → same_bytes xs bytes i ≡ ok true
      → (more : Bytes) × (rest ≡ xs ++ more)
  unfolding same_bytes
  At-same_bytes [] i rest a h = (rest, refl)
  At-same_bytes (x ∷ xs) i [] a h = cc (rw (none-At a) at h)
  At-same_bytes (x ∷ xs) i (b ∷ rest) a h = elim (Bool-cases (b == x)) [
    | inl e ↦
        let (more, same) = At-same_bytes xs (i + 1) rest (At-next a) (rw (byte-At a, e) at h) in
        (more, rw ((==_iff b x).0 e, same) refl)
    | inr e ↦ cc (rw (byte-At a, e) at h)
  ]

-- On data in the layout, the answer is whether the confirmations are those that are asked for.
check_tx_data-ix_layout :
    (tx_id rest : Bytes) (found confirmations : ℕ)
    → length tx_id ≡ 32
    → found < 2 ^ 32
    → check_tx_data (ix_layout tx_id found rest) tx_id confirmations
      ≡ ok (if confirmations == found then 0 else 3)
unfolding check_tx_data
check_tx_data-ix_layout tx_id rest found confirmations size fits =
    let bytes = ix_layout tx_id found rest in
    let at_id : At bytes 8 (tx_id ++ (to_le_bytes 4 found ++ rest)) =
      At-skip ix_prefix 8 refl (At-start bytes) in
    let at_found : At bytes 40 (to_le_bytes 4 found ++ rest) = At-skip tx_id 32 size at_id in
    rw
      (
        same_bytes-At ix_prefix 0 (tx_id ++ (to_le_bytes 4 found ++ rest)) (At-start bytes),
        same_bytes-At tx_id 8 (to_le_bytes 4 found ++ rest) at_id,
        read_le-At 4 found rest fits at_found,
      )
      refl

-- a test whose failure answers a number above 0
tested :
    (c : Bool) (m : Result ℕ) (k : ℕ)
    → (if c then m else ok (suc k)) ≡ ok 0
    → (c ≡ true) × (m ≡ ok 0)
tested true m k h = (refl, h)
tested false m k h = absurd (ne (ok-injective h))
  where
    ne : suc k ≢ 0
    ne e = omega arith

check_tx_data-eq-ok :
    (bytes tx_id : Bytes) (confirmations : ℕ)
    → All IsByte bytes
    → length tx_id ≡ 32
    → check_tx_data bytes tx_id confirmations ≡ ok 0
    → (rest : Bytes) × (bytes ≡ ix_layout tx_id confirmations rest)
unfolding check_tx_data
check_tx_data-eq-ok bytes tx_id confirmations h size e =
    bind_ok (same_bytes ix_prefix bytes 0) _ e λ prefixed e0 h0.
      let (is_prefixed, h1) = tested prefixed _ 0 h0 in
      bind_ok (same_bytes tx_id bytes 8) _ h1 λ named e2 h2.
        let (is_named, h3) = tested named _ 1 h2 in
        bind_ok (read_le bytes 40 4) _ h3 λ found e4 h4.
          let same : confirmations ≡ found = ground (arith, ok-injective h4) in
          let (after_prefix, p) =
            At-same_bytes ix_prefix 0 bytes (At-start bytes) (e0 ∙ ap ok is_prefixed) in
          let at_prefix : At bytes 0 (ix_prefix ++ after_prefix) = record {
            inside = omega arith;
            behind = p;
          } in
          let at_id : At bytes 8 after_prefix = At-skip ix_prefix 8 refl at_prefix in
          let (after_id, q) = At-same_bytes tx_id 8 after_prefix at_id (e2 ∙ ap ok is_named) in
          let at_named : At bytes 8 (tx_id ++ after_id) = record {
            inside = at_id.inside;
            behind = at_id.behind ∙ q;
          } in
          let at_found : At bytes 40 after_id = At-skip tx_id 32 size at_named in
          let r = read_le-eq-ok bytes 40 4 h e4 in
          let rest = drop 4 (drop 40 bytes) in
          let after =
            sym at_found.behind ∙ r ∙ ap (λ (n : ℕ). to_le_bytes 4 n ++ rest) (sym same) in
          (
            rest,
            p ∙ ap (λ (xs : Bytes). ix_prefix ++ xs) (q ∙ ap (λ (xs : Bytes). tx_id ++ xs) after),
          )

-- Where the constant text of the relay program's id is read as a key, and for a transaction id of 32
-- bytes and a 32-bit number of confirmations: `verify_tx_ix` answers 0 exactly for an instruction to
-- the program with this key whose data is the prefix, the id and the confirmations, with anything
-- behind them.
pub verify_tx_ix_exact :
    (from_str : Bytes → Option Pubkey) (btc_relay_id : Pubkey) (ix : Instruction) (tx_id : Bytes)
    (confirmations : ℕ)
    → from_str btc_relay_id_base58 ≡ some btc_relay_id
    → All IsByte ix.ix_data
    → length tx_id ≡ 32
    → confirmations < 2 ^ 32
    → (verify_tx_ix from_str ix tx_id confirmations ≡ ok 0) ↔ (
        (ix.program_id ≡ btc_relay_id)
        × (rest : Bytes) × (ix.ix_data ≡ ix_layout tx_id confirmations rest))
unfolding verify_tx_ix
verify_tx_ix_exact from_str btc_relay_id ix tx_id confirmations read bytes size fits = (
  sound,
  λ (id, rest, e).
      rw
        (
          read,
          eq→bytes_eq _ _ id,
          e,
          check_tx_data-ix_layout tx_id rest confirmations confirmations size fits,
          ==_refl confirmations,
        )
        refl,
)
  where
    sound :
        verify_tx_ix from_str ix tx_id confirmations ≡ ok 0
        → (ix.program_id ≡ btc_relay_id)
          × (rest : Bytes) × (ix.ix_data ≡ ix_layout tx_id confirmations rest)
    sound e =
        let (same, checked) = tested (bytes_eq ix.program_id btc_relay_id) _ 9 (rw read at e) in
        let (rest, layout) =
          check_tx_data-eq-ok ix.ix_data tx_id confirmations bytes size checked in
        (bytes_eq→eq _ _ same, rest, layout)
