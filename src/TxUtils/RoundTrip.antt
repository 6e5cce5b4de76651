-- ===== src/TxUtils/RoundTrip.antt =====
-- The parser on serialised transactions.
use bitcoin_svm_bridge.Prelude.{
  ◌+◌, ◌-◌, ◌^◌, ◌≤◌, ◌<◌, ◌≡◌, refl, sym, ap, [], ◌∷◌, ◌++◌, Bool, true, false, some, All, map, ok,
  bind_ok, ok-injective, ltb, leb, lt→ltb, le→leb, get_elem?, length, length-append, arith,
}
use bitcoin_svm_bridge.Structs.{Platform}
use bitcoin_svm_bridge.TxUtils.{
  BitcoinTransaction, read_le, read_var_int, read_inputs, read_outputs, skip_witnesses, hashed_data,
  parse_transaction,
}
use bitcoin_svm_bridge.TxUtils.Layout.{
  to_le_bytes, FullTransaction, put_body, concat, put_witness, legacy, segwit, IsTransaction,
}
use bitcoin_svm_bridge.TxUtils.Reads.{
  At-start, At-length, At-skip, byte-At, slice-At, read_le-At, length-to_le_bytes,
  read_var_int-var_int,
}
use bitcoin_svm_bridge.TxUtils.Parts.{skip_witnesses-At}
use bitcoin_svm_bridge.TxUtils.Body.{and_false, body_first, read_last, read_body, count_empty-All}

-- what the parser should answer
abbrev pub parsed : Platform → FullTransaction → Bool → BitcoinTransaction
parsed p t witness = record {
  version = t.version;
  tx_in = map (λ x. x.input) t.inputs;
  tx_out = t.outputs;
  locktime = t.locktime;
  hash = p.hash (p.hash (legacy t));
  witness = witness;
}

module _ (p : Platform) (t : FullTransaction) where
  -- `parse_transaction` reads back every transaction with at least one input from its serialisation
  -- without witnesses, as long as that is shorter than 2 GiB, and its hash is the double hash of this
  -- serialisation.
  pub parse_transaction-legacy :
      IsTransaction t
      → 0 < length t.inputs
      → length (legacy t) < 2 ^ 31
      → parse_transaction p (legacy t) ≡ ok (parsed p t false)
  unfolding parse_transaction legacy
  parse_transaction-legacy v some_input small =
      let lock = to_le_bytes 4 t.locktime in
      let version = read_le-At 4 t.version (put_body t ++ lock) v.version (At-start (legacy t)) in
      let at_body =
        At-skip (to_le_bytes 4 t.version) 4 (length-to_le_bytes 4 t.version)
          (At-start (legacy t)) in
      let body = read_body t 4 lock small v at_body in
      let (first, flag, nonzero) = body_first t 4 lock some_input at_body in
      let locktime = read_last t.locktime body.end v.locktime body.at_rest in
      rw
        (
          version,
          flag,
          nonzero,
          and_false (ltb 1 t.version),
          body.input_size,
          body.inputs,
          body.output_size,
          body.outputs,
          locktime,
        )
        refl

  -- what a transaction needs for the parser to find its witnesses: a version above 1, and no script
  -- in any input
  pub record IsSegwit : Type 0 where
    pub version : 1 < t.version
    pub empty : All (λ x. length x.script_sig ≡ 0) t.inputs
    pub witnesses : All (λ x. length x.witness < 2 ^ 64) t.inputs

  -- `parse_transaction` reads back every transaction whose inputs all have an empty script, of a
  -- version above 1, from its serialisation with witnesses, as long as that is shorter than 2 GiB,
  -- and its hash is the double hash of the serialisation without them.
  pub parse_transaction-segwit :
      IsTransaction t
      → IsSegwit
      → length (segwit t) < 2 ^ 31
      → parse_transaction p (segwit t) ≡ ok (parsed p t true)
  unfolding parse_transaction segwit legacy hashed_data
  parse_transaction-segwit v w small =
      let lock = to_le_bytes 4 t.locktime in
      let behind = concat put_witness t.inputs ++ lock in
      let at_version = At-start (segwit t) in
      let version = read_le-At 4 t.version (0 ∷ 1 ∷ (put_body t ++ behind)) v.version at_version in
      let at_flag =
        At-skip (to_le_bytes 4 t.version) 4 (length-to_le_bytes 4 t.version) at_version in
      let at_body = At-skip (0 ∷ 1 ∷ []) 2 refl at_flag in
      let body = read_body t 6 behind small v at_body in
      let count = count_empty-All t.inputs w.empty in
      let (offset, skipped, at_lock) =
        skip_witnesses-At small t.inputs body.end lock w.witnesses body.at_rest in
      let flag : get_elem? (segwit t) 4 ≡ some 0 = byte-At at_flag in
      let body_end : body.end ≡ 6 + length (put_body t) =
        omega
          (arith, At-length at_body, At-length body.at_rest, length-append (put_body t) behind) in
      let stripped =
        slice-At (put_body t) behind (body.end - 6) (omega (arith, body_end)) at_body in
      let ordered : leb 6 body.end ≡ true = le→leb 6 body.end (omega (arith, body_end)) in
      let locktime = read_last t.locktime offset v.locktime at_lock in
      rw
        (
          version,
          lt→ltb 1 t.version w.version,
          body.input_size,
          body.inputs,
          body.output_size,
          body.outputs,
          count,
          skipped,
          locktime,
          slice-At (to_le_bytes 4 t.version) (0 ∷ 1 ∷ (put_body t ++ behind)) 4
              (length-to_le_bytes 4 t.version) at_version,
          ordered,
          stripped,
          at_lock.behind,
        )
        refl

module _ (p : Platform) (t : FullTransaction) where
  -- From the serialisation with witnesses of a transaction of version 0 or 1, `parse_transaction`
  -- never reads an input: every result that it returns has none.
  pub parse_transaction_old_version :
      {r : BitcoinTransaction}
      → t.version ≤ 1
      → parse_transaction p (segwit t) ≡ ok r
      → r.tx_in ≡ []
  unfolding parse_transaction segwit read_inputs
  parse_transaction_old_version old h =
      let at_version = At-start (segwit t) in
      let rest = 1 ∷ (put_body t ++ (concat put_witness t.inputs ++ to_le_bytes 4 t.locktime)) in
      let version = read_le-At 4 t.version (0 ∷ rest) (omega arith) at_version in
      let at_flag =
        At-skip (to_le_bytes 4 t.version) 4 (length-to_le_bytes 4 t.version) at_version in
      let single : ltb 1 t.version ≡ false = ground arith in
      let none : read_var_int (segwit t) 4 ≡ ok (0, 1) =
        read_var_int-var_int 0 rest (omega arith) at_flag in
      bind_ok (read_var_int (segwit t) 5) _ (rw (version, single, none) at h) λ (outs, size) e0 h0.
        bind_ok (read_outputs outs (segwit t) (5 + size)) _ h0 λ (outputs, end) e1 h1.
          bind_ok (skip_witnesses 0 (segwit t) end) _ h1 λ offset e2 h2.
            bind_ok (read_le (segwit t) offset 4) _ h2 λ locktime e3 h3.
              bind_ok (hashed_data (segwit t) true end offset) _ h3
                λ hashed e4 h4. ap (λ (x : BitcoinTransaction). x.tx_in) (sym (ok-injective h4))
