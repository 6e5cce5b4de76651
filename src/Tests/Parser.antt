-- ===== src/Tests/Parser.antt =====
-- Witnesses of the theorems on the parser of transactions and on the check of instructions.
use bitcoin_svm_bridge.Prelude.{
  some, ℕ, ◌^◌, ◌<◌, ◌≡◌, ◌↔◌, refl, [], ◌∷◌, true, false, ok, length, arith,
}
use bitcoin_svm_bridge.ArrayUtils.{Bytes}
use bitcoin_svm_bridge.TxUtils.{
  BitcoinTransaction, slice, read_le, read_inputs, read_outputs, skip_witnesses, read_var_int,
  parse_transaction,
}
use bitcoin_svm_bridge.TxUtils.Layout.{FullInput, FullTransaction, legacy, segwit, IsTransaction}
use bitcoin_svm_bridge.TxUtils.RoundTrip.{
  parsed, parse_transaction-legacy, IsSegwit, parse_transaction-segwit,
  parse_transaction_old_version,
}
use bitcoin_svm_bridge.TxVerify.{Instruction, verify_tx_ix}
use bitcoin_svm_bridge.TxVerify.Exact.{ix_layout, verify_tx_ix_exact}
use bitcoin_svm_bridge.Tests.{constant_hash, low_hash}

abbrev input_with : Bytes → FullInput
input_with script_sig = record {
  input = record { utxo = record { hash = low_hash; index = 3 }; sequence = 0xFFFFFFFE };
  script_sig = script_sig;
  witness = (9 ∷ 8 ∷ []) ∷ [] ∷ [];
}

abbrev transaction_of : ℕ → Bytes → FullTransaction
transaction_of version script_sig = record {
  version = version;
  inputs = input_with script_sig ∷ [];
  outputs = record { value = 5000; script = 1 ∷ 2 ∷ [] } ∷ record { value = 7; script = [] } ∷ [];
  locktime = 800000;
}

transaction_of-IsTransaction :
    (version : ℕ) (script_sig : Bytes)
    → version < 2 ^ 32
    → IsTransaction (transaction_of version script_sig)
transaction_of-IsTransaction version script_sig h = record {
  version = h;
  locktime = omega arith;
  inputs = (record { hash = refl; index = omega arith; sequence = omega arith }, tt);
  outputs = (omega arith, (omega arith, tt));
}

legacy_small : length (legacy (transaction_of 1 (4 ∷ 5 ∷ []))) < 2 ^ 31
unfolding legacy
legacy_small = omega arith

parse_transaction-legacy_example :
    parse_transaction constant_hash (legacy (transaction_of 1 (4 ∷ 5 ∷ [])))
    ≡ ok (parsed constant_hash (transaction_of 1 (4 ∷ 5 ∷ [])) false)
parse_transaction-legacy_example =
    parse_transaction-legacy constant_hash (transaction_of 1 (4 ∷ 5 ∷ []))
      (transaction_of-IsTransaction 1 (4 ∷ 5 ∷ []) (omega arith)) (omega arith) legacy_small

segwit_small : length (segwit (transaction_of 2 [])) < 2 ^ 31
unfolding segwit
segwit_small = omega arith

segwit_found : IsSegwit constant_hash (transaction_of 2 [])
segwit_found = record { version = omega arith; empty = (refl, tt); witnesses = (omega arith, tt) }

parse_transaction-segwit_example :
    parse_transaction constant_hash (segwit (transaction_of 2 []))
    ≡ ok (parsed constant_hash (transaction_of 2 []) true)
parse_transaction-segwit_example =
    parse_transaction-segwit constant_hash (transaction_of 2 [])
      (transaction_of-IsTransaction 2 [] (omega arith)) segwit_found segwit_small

-- An old transaction with one input and one output without a script: the flag is read as the number
-- of outputs, and the first bytes of the input as an output.
abbrev misread : BitcoinTransaction
misread = record {
  version = 1;
  tx_in = [];
  tx_out = record { value = 0x0101010101010101; script = 1 ∷ [] } ∷ [];
  locktime = 0x01010101;
  hash = low_hash;
  witness = true;
}

old_ran : parse_transaction constant_hash (segwit (transaction_of 1 [])) ≡ ok misread
unfolding parse_transaction segwit read_le slice read_var_int read_inputs read_outputs
    skip_witnesses
old_ran = refl

parse_transaction_old_version_example : misread.tx_in ≡ []
parse_transaction_old_version_example =
    parse_transaction_old_version constant_hash (transaction_of 1 []) (omega arith) old_ran

abbrev instruction : Instruction
instruction = record { program_id = low_hash; ix_data = ix_layout low_hash 6 (1 ∷ []) }

verify_tx_ix_exact_example :
    (verify_tx_ix (λ text. some low_hash) instruction low_hash 6 ≡ ok 0) ↔ (
      (instruction.program_id ≡ low_hash)
      × (rest : Bytes) × (instruction.ix_data ≡ ix_layout low_hash 6 rest))
verify_tx_ix_exact_example =
    verify_tx_ix_exact (λ text. some low_hash) low_hash instruction low_hash 6 refl (ground arith)
      refl (omega arith)
