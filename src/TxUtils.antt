-- ===== src/TxUtils.antt =====
-- utils/txutils.rs: the parser of raw Bitcoin transactions. `usize` has 64 bits. An index or a range
-- out of the data panics, and so does a sum that overflows; where a sum is at once the end of a
-- range, the range is what is tested, since no data is that long.
pub mod Layout
pub mod Reads
pub mod Parts
pub mod Body
pub mod RoundTrip
use bitcoin_svm_bridge.Prelude.{
  ℕ, zero, suc, ◌+◌, ◌-◌, ◌*◌, List, [], ◌∷◌, ◌++◌, Bool, true, false, ◌&&◌, Result, ok, fail,
  panic, ◌>>=◌, or_panic, checked_add, ltb, leb, ◌==◌, if◌then◌else◌, length, get_elem?, take, drop,
}
use bitcoin_svm_bridge.ArrayUtils.{Bytes}
use bitcoin_svm_bridge.Structs.{Platform}

pub record Utxo : Type 0 where
  pub hash : Bytes
  pub index : ℕ

pub record TxInput : Type 0 where
  pub utxo : Utxo
  pub sequence : ℕ

pub record TxOutput : Type 0 where
  pub value : ℕ
  pub script : Bytes

pub record BitcoinTransaction : Type 0 where
  pub version : ℕ
  pub tx_in : List TxInput
  pub tx_out : List TxOutput
  pub locktime : ℕ
  pub hash : Bytes
  pub witness : Bool

-- `data[start..start + n]`
unfoldable pub slice : Bytes → ℕ → ℕ → Result Bytes
slice bytes start n =
    if leb (start + n) (length bytes) then ok (take n (drop start bytes)) else fail panic

-- `data[start..end]`
abbrev pub range : Bytes → ℕ → ℕ → Result Bytes
range bytes start end = if leb start end then slice bytes start (end - start) else fail panic

-- `u16::from_le_bytes` and its kin
abbrev pub from_le_bytes : Bytes → ℕ
from_le_bytes [] = 0
from_le_bytes (b ∷ bytes) = b + 256 * from_le_bytes bytes

unfoldable pub read_le : Bytes → ℕ → ℕ → Result ℕ
read_le bytes start n = slice bytes start n >>= λ le. ok (from_le_bytes le)

-- the value and the number of bytes that it takes
unfoldable pub read_var_int : Bytes → ℕ → Result (ℕ × ℕ)
read_var_int bytes start = or_panic (get_elem? bytes start) >>= λ first.
    if leb first 0xFC
    then ok (first, 1)
    else if first == 0xFD
    then (read_le bytes (start + 1) 2 >>= λ val. ok (val, 3))
    else if first == 0xFE
    then (read_le bytes (start + 1) 4 >>= λ val. ok (val, 5))
    else (read_le bytes (start + 1) 8 >>= λ val. ok (val, 9))

-- One round of the loop over the inputs: the input, the offset behind it, and whether its script is
-- empty.
unfoldable pub read_input : Bytes → ℕ → Result (TxInput × ℕ × Bool)
read_input bytes offset = do
  prev_tx_hash ← slice bytes offset 32
  utxo_index ← read_le bytes (offset + 32) 4
  (script_len, script_len_size) ← read_var_int bytes (offset + 32 + 4)
  total_len ← checked_add 64 script_len script_len_size
  behind ← checked_add 64 (offset + 32 + 4) total_len
  sequence ← read_le bytes behind 4
  ok (
    record { utxo = record { hash = prev_tx_hash; index = utxo_index }; sequence = sequence },
    behind + 4,
    script_len == 0,
  )

-- `witness_input_count` is an `i32`.
unfoldable pub read_inputs : ℕ → Bytes → ℕ → ℕ → Result (List TxInput × ℕ × ℕ)
unfolding read_input
read_inputs zero bytes offset witness_input_count = ok ([], offset, witness_input_count)
read_inputs (suc rounds) bytes offset witness_input_count = do
  (input, behind, empty) ← read_input bytes offset
  count ← if empty then checked_add 31 witness_input_count 1 else ok witness_input_count
  (inputs, end, total) ← read_inputs rounds bytes behind count
  ok (input ∷ inputs, end, total)

unfoldable pub read_output : Bytes → ℕ → Result (TxOutput × ℕ)
read_output bytes offset = do
  value ← read_le bytes offset 8
  (script_len, script_len_size) ← read_var_int bytes (offset + 8)
  script ← slice bytes (offset + 8 + script_len_size) script_len
  ok (record { value = value; script = script }, offset + 8 + script_len_size + script_len)

unfoldable pub read_outputs : ℕ → Bytes → ℕ → Result (List TxOutput × ℕ)
unfolding read_output
read_outputs zero bytes offset = ok ([], offset)
read_outputs (suc rounds) bytes offset = do
  (output, behind) ← read_output bytes offset
  (outputs, end) ← read_outputs rounds bytes behind
  ok (output ∷ outputs, end)

-- the inner loop over the items of a witness, which are skipped without being read
unfoldable pub skip_items : ℕ → Bytes → ℕ → Result ℕ
skip_items zero bytes offset = ok offset
skip_items (suc rounds) bytes offset = do
  (item_len, item_len_size) ← read_var_int bytes offset
  behind ← checked_add 64 (offset + item_len_size) item_len
  skip_items rounds bytes behind

unfoldable pub skip_witnesses : ℕ → Bytes → ℕ → Result ℕ
unfolding skip_items
skip_witnesses zero bytes offset = ok offset
skip_witnesses (suc rounds) bytes offset = do
  (items, items_size) ← read_var_int bytes offset
  behind ← skip_items items bytes (offset + items_size)
  skip_witnesses rounds bytes behind

-- what is hashed: for a transaction with the marker, the data without marker, flag and witnesses
unfoldable pub hashed_data : Bytes → Bool → ℕ → ℕ → Result Bytes
hashed_data bytes witness witness_start_index locktime_offset =
    if witness
    then (slice bytes 0 4 >>= λ version. range bytes 6 witness_start_index >>= λ body.
        ok (version ++ (body ++ drop locktime_offset bytes)))
    else ok bytes

unfoldable pub parse_transaction : Platform → Bytes → Result BitcoinTransaction
unfolding hashed_data
parse_transaction p bytes = do
  version ← read_le bytes 0 4
  flag ← or_panic (get_elem? bytes 4)
  let start = if ltb 1 version && flag == 0 then 6 else 4
  (input_size, input_size_len) ← read_var_int bytes start
  (inputs, inputs_end, witness_input_count) ←
      read_inputs input_size bytes (start + input_size_len) 0
  (output_size, output_size_len) ← read_var_int bytes inputs_end
  (outputs, witness_start_index) ← read_outputs output_size bytes (inputs_end + output_size_len)
  offset ←
      if flag == 0
      then skip_witnesses witness_input_count bytes witness_start_index
      else ok witness_start_index
  locktime ← read_le bytes offset 4
  hashed ← hashed_data bytes (flag == 0) witness_start_index offset
  ok (record {
    version = version;
    tx_in = inputs;
    tx_out = outputs;
    locktime = locktime;
    hash = p.hash (p.hash hashed);
    witness = flag == 0;
  })
