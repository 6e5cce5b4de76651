-- ===== src/TxUtils/Parts.antt =====
-- The loops of the parser on the parts of a serialised transaction.
use mathlib.Core.List.{append_assoc}
use native.Mathlib.Nat.{zero-add, add-zero, add_assoc}
use bitcoin_svm_bridge.Prelude.{
  ℕ, ◌+◌, ◌^◌, ◌≤◌, ◌<◌, ◌≡◌, refl, List, [], ◌∷◌, ◌++◌, All, map, ok, checked_add_of_lt,
  if◌then◌else◌, ◌==◌, length, length-append, arith, Bool-cases, inl, inr,
}
use bitcoin_svm_bridge.ArrayUtils.{Bytes}
use bitcoin_svm_bridge.TxUtils.{
  TxOutput, read_input, read_inputs, read_output, read_outputs, skip_items, skip_witnesses,
}
use bitcoin_svm_bridge.TxUtils.Layout.{
  to_le_bytes, var_int, FullInput, put_input, put_output, concat, put_witness, sized, IsInput,
}
use bitcoin_svm_bridge.TxUtils.Reads.{
  At, At-length, At-skip, slice-At, read_le-At, length-to_le_bytes, read_var_int-var_int,
}

-- how many inputs have no script
abbrev pub count_empty : List FullInput → ℕ
count_empty [] = 0
count_empty (x ∷ xs) = (if length x.script_sig == 0 then 1 else 0) + count_empty xs

input_parts :
    (x : FullInput) (rest : Bytes)
    → put_input x ++ rest
      ≡ x.input.utxo.hash
        ++ (to_le_bytes 4 x.input.utxo.index
            ++ (var_int (length x.script_sig)
                ++ (x.script_sig ++ (to_le_bytes 4 x.input.sequence ++ rest))))
input_parts x rest = simp (append_assoc)

output_parts :
    (o : TxOutput) (rest : Bytes)
    → put_output o ++ rest
      ≡ to_le_bytes 8 o.value ++ (var_int (length o.script) ++ (o.script ++ rest))
output_parts o rest = simp (append_assoc)

sized_parts : (bytes rest : Bytes) → sized bytes ++ rest ≡ var_int (length bytes) ++ (bytes ++ rest)
sized_parts bytes rest = append_assoc (var_int (length bytes)) bytes rest

-- Data of less than 2 GiB: no offset and no count overflows.
module _ {bytes : Bytes} (small : length bytes < 2 ^ 31) where
  -- A part of the data is no longer than the data.
  part-lt : {i : ℕ} (xs rest : Bytes) → At bytes i (xs ++ rest) → i + length xs < 2 ^ 31
  part-lt xs rest a = omega (arith, At-length a, length-append xs rest)

  read_input-At :
      {i : ℕ} (x : FullInput) (rest : Bytes)
      → IsInput x
      → At bytes i (put_input x ++ rest)
      → (end : ℕ) × (read_input bytes i ≡ ok (x.input, end, length x.script_sig == 0))
        × (i < end)
        × At bytes end rest
  unfolding read_input
  read_input-At {i} x rest v a =
      let size = length x.script_sig in
      let digits = length (var_int size) in
      let tail = x.script_sig ++ (to_le_bytes 4 x.input.sequence ++ rest) in
      let at_hash = rw (input_parts x rest) at a in
      let at_index = At-skip x.input.utxo.hash 32 v.hash at_hash in
      let at_size =
        At-skip (to_le_bytes 4 x.input.utxo.index) 4 (length-to_le_bytes 4 x.input.utxo.index)
          at_index in
      let at_script = At-skip (var_int size) digits refl at_size in
      let at_sequence = At-skip x.script_sig size refl at_script in
      let at_rest =
        At-skip (to_le_bytes 4 x.input.sequence) 4 (length-to_le_bytes 4 x.input.sequence)
          at_sequence in
      let room = part-lt x.script_sig (to_le_bytes 4 x.input.sequence ++ rest) at_script in
      let total : i + 32 + 4 + digits + size ≡ i + 32 + 4 + (size + digits) = omega arith in
      (
        i + 32 + 4 + (size + digits) + 4,
        rw
            (
              slice-At x.input.utxo.hash _ 32 v.hash at_hash,
              read_le-At 4 x.input.utxo.index _ v.index at_index,
              read_var_int-var_int size tail (omega arith) at_size,
              checked_add_of_lt 64 size digits (omega arith),
              checked_add_of_lt 64 (i + 32 + 4) (size + digits) (omega arith),
              read_le-At 4 x.input.sequence rest v.sequence (rw total at at_sequence),
            )
            refl,
        omega arith,
        rw total at at_rest,
      )

  pub read_inputs-At :
      (xs : List FullInput) (i : ℕ) (rest : Bytes) (count : ℕ)
      → All IsInput xs
      → count ≤ i
      → At bytes i (concat put_input xs ++ rest)
      → (end : ℕ) × (read_inputs (length xs) bytes i count
          ≡ ok (map (λ x. x.input) xs, end, count + count_empty xs))
        × At bytes end rest
  unfolding read_inputs
  read_inputs-At [] i rest count v low a = (i, rw (add-zero count) refl, a)
  read_inputs-At (x ∷ xs) i rest count (v, vs) low a =
      let (middle, first, more, at_rest) =
        read_input-At x (concat put_input xs ++ rest) v
          (rw (append_assoc (put_input x) (concat put_input xs) rest) at a) in
      elim (Bool-cases (length x.script_sig == 0)) [
        | inl e ↦
            let (end, others, done) =
              read_inputs-At xs middle rest (count + 1) vs (omega arith) at_rest in
            (
              end,
              rw
                  (
                    first,
                    e,
                    checked_add_of_lt 31 count 1 (omega arith),
                    others,
                    add_assoc count 1 (count_empty xs),
                  )
                  refl,
              done,
            )
        | inr e ↦
            let (end, others, done) =
              read_inputs-At xs middle rest count vs (omega arith) at_rest in
            (end, rw (first, e, others, zero-add (count_empty xs)) refl, done)
      ]

  read_output-At :
      {i : ℕ} (o : TxOutput) (rest : Bytes)
      → o.value < 2 ^ 64
      → At bytes i (put_output o ++ rest)
      → (end : ℕ) × (read_output bytes i ≡ ok (o, end)) × At bytes end rest
  unfolding read_output
  read_output-At {i} o rest v a =
      let size = length o.script in
      let digits = length (var_int size) in
      let at_value = rw (output_parts o rest) at a in
      let at_size = At-skip (to_le_bytes 8 o.value) 8 (length-to_le_bytes 8 o.value) at_value in
      let at_script = At-skip (var_int size) digits refl at_size in
      let room = part-lt o.script rest at_script in
      (
        i + 8 + digits + size,
        rw
            (
              read_le-At 8 o.value _ v at_value,
              read_var_int-var_int size (o.script ++ rest) (omega arith) at_size,
              slice-At o.script rest size refl at_script,
            )
            refl,
        At-skip o.script size refl at_script,
      )

  pub read_outputs-At :
      (os : List TxOutput) (i : ℕ) (rest : Bytes)
      → All (λ o. o.value < 2 ^ 64) os
      → At bytes i (concat put_output os ++ rest)
      → (end : ℕ) × (read_outputs (length os) bytes i ≡ ok (os, end)) × At bytes end rest
  unfolding read_outputs
  read_outputs-At [] i rest v a = (i, refl, a)
  read_outputs-At (o ∷ os) i rest (v, vs) a =
      let (middle, first, at_more) =
        read_output-At o (concat put_output os ++ rest) v
          (rw (append_assoc (put_output o) (concat put_output os) rest) at a) in
      let (end, others, at_rest) = read_outputs-At os middle rest vs at_more in
      (end, rw (first, others) refl, at_rest)

  skip_items-At :
      (items : List Bytes) (i : ℕ) (rest : Bytes)
      → At bytes i (concat sized items ++ rest)
      → (end : ℕ) × (skip_items (length items) bytes i ≡ ok end) × At bytes end rest
  unfolding skip_items
  skip_items-At [] i rest a = (i, refl, a)
  skip_items-At (item ∷ items) i rest a =
      let size = length item in
      let digits = length (var_int size) in
      let more = concat sized items ++ rest in
      let at_size =
        rw
          (
            append_assoc (sized item) (concat sized items) rest,
            append_assoc (var_int size) item more,
          )
          at a in
      let at_item = At-skip (var_int size) digits refl at_size in
      let room = part-lt item more at_item in
      let (end, others, at_rest) =
        skip_items-At items (i + digits + size) rest (At-skip item size refl at_item) in
      (
        end,
        rw
            (
              read_var_int-var_int size (item ++ more) (omega arith) at_size,
              checked_add_of_lt 64 (i + digits) size (omega arith),
              others,
            )
            refl,
        at_rest,
      )

  pub skip_witnesses-At :
      (xs : List FullInput) (i : ℕ) (rest : Bytes)
      → All (λ x. length x.witness < 2 ^ 64) xs
      → At bytes i (concat put_witness xs ++ rest)
      → (end : ℕ) × (skip_witnesses (length xs) bytes i ≡ ok end) × At bytes end rest
  unfolding skip_witnesses
  skip_witnesses-At [] i rest v a = (i, refl, a)
  skip_witnesses-At (x ∷ xs) i rest (v, vs) a =
      let count = length x.witness in
      let items = concat sized x.witness in
      let more = concat put_witness xs ++ rest in
      let at_count =
        rw
          (
            append_assoc (put_witness x) (concat put_witness xs) rest,
            append_assoc (var_int count) items more,
          )
          at a in
      let (middle, first, at_more) =
        skip_items-At x.witness (i + length (var_int count)) more
          (At-skip (var_int count) (length (var_int count)) refl at_count) in
      let (end, others, at_rest) = skip_witnesses-At xs middle rest vs at_more in
      (end, rw (read_var_int-var_int count (items ++ more) v at_count, first, others) refl, at_rest)
