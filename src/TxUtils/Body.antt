-- ===== src/TxUtils/Body.antt =====
-- What a transaction's serialisations share: the inputs, the outputs and the numbers around them.
use mathlib.Core.List.{append_assoc, append-nil}
use native.Mathlib.Nat.{zero-add}
use bitcoin_svm_bridge.Prelude.{
  ℕ, ◌+◌, ◌^◌, ◌≤◌, ◌<◌, ◌≡◌, refl, ap, ◌∙◌, List, [], ◌∷◌, ◌++◌, Bool, true, false, ◌&&◌, some,
  All, map, ok, ◌==◌, ltb, leb, get_elem?, length, length-append, arith, Bool-cases, inl, inr,
}
use bitcoin_svm_bridge.ArrayUtils.{Bytes}
use bitcoin_svm_bridge.TxUtils.{TxOutput, read_le, read_var_int, read_inputs, read_outputs}
use bitcoin_svm_bridge.TxUtils.Layout.{
  to_le_bytes, var_int, FullInput, FullTransaction, put_input, put_output, put_body, concat, sized,
  IsTransaction,
}
use bitcoin_svm_bridge.TxUtils.Reads.{
  At, At-length, At-skip, byte-At, read_le-At, read_var_int-var_int,
}
use bitcoin_svm_bridge.TxUtils.Parts.{count_empty, read_inputs-At, read_outputs-At}

count-le :
    {A : Type 0} (put : A → Bytes) (xs : List A)
    → ((x : A) → 0 < length (put x))
    → length xs ≤ length (concat put xs)
count-le put [] some_bytes = omega arith
count-le put (x ∷ xs) some_bytes =
    omega (arith, some_bytes x, count-le put xs some_bytes, length-append (put x) (concat put xs))

put_input-pos : (x : FullInput) → 0 < length (put_input x)
put_input-pos x = omega (
  arith,
  length-append x.input.utxo.hash
      (to_le_bytes 4 x.input.utxo.index ++ (sized x.script_sig ++ to_le_bytes 4 x.input.sequence)),
)

put_output-pos : (o : TxOutput) → 0 < length (put_output o)
put_output-pos o = omega arith

-- What the reads of a body answer, from the offset `i` on and up to `end`.
pub record BodyRead (bytes : Bytes) (t : FullTransaction) (i : ℕ) (rest : Bytes) : Type 0 where
  pub inputs_end : ℕ
  pub end : ℕ
  pub input_size : read_var_int bytes i ≡ ok (length t.inputs, length (var_int (length t.inputs)))
  pub inputs :
      read_inputs (length t.inputs) bytes (i + length (var_int (length t.inputs))) 0
      ≡ ok (map (λ x. x.input) t.inputs, inputs_end, count_empty t.inputs)
  pub output_size :
      read_var_int bytes inputs_end ≡ ok (length t.outputs, length (var_int (length t.outputs)))
  pub outputs :
      read_outputs (length t.outputs) bytes (inputs_end + length (var_int (length t.outputs)))
      ≡ ok (t.outputs, end)
  pub at_rest : At bytes end rest

body_parts :
    (t : FullTransaction) (rest : Bytes)
    → put_body t ++ rest
      ≡ var_int (length t.inputs)
        ++ (concat put_input t.inputs
            ++ (var_int (length t.outputs) ++ (concat put_output t.outputs ++ rest)))
body_parts t rest = simp (append_assoc)

pub read_body :
    {bytes : Bytes} (t : FullTransaction) (i : ℕ) (rest : Bytes)
    → length bytes < 2 ^ 31
    → IsTransaction t
    → At bytes i (put_body t ++ rest)
    → BodyRead bytes t i rest
read_body {bytes} t i rest small v a =
    let ins = length t.inputs in
    let outs = length t.outputs in
    let after_inputs = var_int outs ++ (concat put_output t.outputs ++ rest) in
    let at_count = rw (body_parts t rest) at a in
    let at_inputs = At-skip (var_int ins) (length (var_int ins)) refl at_count in
    let few_inputs : ins < 2 ^ 64 = omega (
      arith,
      At-length at_inputs,
      length-append (concat put_input t.inputs) after_inputs,
      count-le put_input t.inputs put_input-pos,
    ) in
    let (inputs_end, inputs, at_outs) =
      read_inputs-At small t.inputs (i + length (var_int ins)) after_inputs 0 v.inputs (omega arith)
        at_inputs in
    let at_outputs = At-skip (var_int outs) (length (var_int outs)) refl at_outs in
    let few_outputs : outs < 2 ^ 64 = omega (
      arith,
      At-length at_outputs,
      length-append (concat put_output t.outputs) rest,
      count-le put_output t.outputs put_output-pos,
    ) in
    let (end, outputs, at_rest) =
      read_outputs-At small t.outputs (inputs_end + length (var_int outs)) rest v.outputs
        at_outputs in
    record {
      inputs_end = inputs_end;
      end = end;
      input_size =
          read_var_int-var_int ins (concat put_input t.inputs ++ after_inputs) few_inputs at_count;
      inputs =
          inputs
          ∙ ap (λ (n : ℕ). ok (map (λ (x : FullInput). x.input) t.inputs, inputs_end, n))
              (zero-add (count_empty t.inputs));
      output_size =
          read_var_int-var_int outs (concat put_output t.outputs ++ rest) few_outputs at_outs;
      outputs = outputs;
      at_rest = at_rest;
    }

var_int-first :
    (v : ℕ) → 0 < v → (b : ℕ) × (more : Bytes) × (var_int v ≡ b ∷ more) × ((b == 0) ≡ false)
var_int-first v pos = elim (Bool-cases (leb v 0xFC)) [
  | inl e ↦ (v, [], rw e refl, ground arith)
  | inr e ↦ elim (Bool-cases (ltb v (2 ^ 16))) [
    | inl e2 ↦ (0xFD, to_le_bytes 2 v, rw (e, e2) refl, refl)
    | inr e2 ↦ elim (Bool-cases (ltb v (2 ^ 32))) [
      | inl e4 ↦ (0xFE, to_le_bytes 4 v, rw (e, e2, e4) refl, refl)
      | inr e4 ↦ (0xFF, to_le_bytes 8 v, rw (e, e2, e4) refl, refl)
    ]
  ]
]

pub count_empty-All :
    (xs : List FullInput) → All (λ x. length x.script_sig ≡ 0) xs → count_empty xs ≡ length xs
count_empty-All [] h = refl
count_empty-All (x ∷ xs) (h, hs) = rw h (omega (arith, count_empty-All xs hs))

pub and_false : (c : Bool) → (c && false) ≡ false
and_false true = refl
and_false false = refl

-- The first byte of a body with an input, which stands where a marker would, is not zero.
pub body_first :
    {bytes : Bytes} (t : FullTransaction) (i : ℕ) (rest : Bytes)
    → 0 < length t.inputs
    → At bytes i (put_body t ++ rest)
    → (b : ℕ) × (get_elem? bytes i ≡ some b) × ((b == 0) ≡ false)
body_first t i rest some_input a =
    let (b, more, begins, nonzero) = var_int-first (length t.inputs) some_input in
    (b, byte-At (rw begins at (rw (body_parts t rest) at a)), nonzero)

pub read_last :
    {bytes : Bytes} (n i : ℕ) → n < 2 ^ 32 → At bytes i (to_le_bytes 4 n) → read_le bytes i 4 ≡ ok n
read_last n i fits a = read_le-At 4 n [] fits (rw (append-nil (to_le_bytes 4 n)) a)
