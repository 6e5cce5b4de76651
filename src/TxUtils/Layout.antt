-- ===== src/TxUtils/Layout.antt =====
-- The serialisation of transactions that Bitcoin prescribes, as a specification of the parser.
use bitcoin_svm_bridge.Prelude.{
  ℕ, zero, suc, ◌/◌, ◌%◌, ◌^◌, ◌<◌, ◌≡◌, List, [], ◌∷◌, ◌++◌, All, leb, ltb, if◌then◌else◌, length,
}
use bitcoin_svm_bridge.ArrayUtils.{Bytes}
use bitcoin_svm_bridge.TxUtils.{TxInput, TxOutput}

-- `n` bytes, the least significant first
abbrev pub to_le_bytes : ℕ → ℕ → Bytes
to_le_bytes zero v = []
to_le_bytes (suc n) v = v % 256 ∷ to_le_bytes n (v / 256)

abbrev pub var_int : ℕ → Bytes
var_int v =
    if leb v 0xFC
    then v ∷ []
    else if ltb v (2 ^ 16)
    then 0xFD ∷ to_le_bytes 2 v
    else if ltb v (2 ^ 32)
    then 0xFE ∷ to_le_bytes 4 v
    else 0xFF ∷ to_le_bytes 8 v

-- an input with its script and its witness, of which the parser keeps nothing
pub record FullInput : Type 0 where
  pub input : TxInput
  pub script_sig : Bytes
  pub witness : List Bytes

pub record FullTransaction : Type 0 where
  pub version : ℕ
  pub inputs : List FullInput
  pub outputs : List TxOutput
  pub locktime : ℕ

-- a byte array behind its length
abbrev pub sized : Bytes → Bytes
sized bytes = var_int (length bytes) ++ bytes

abbrev pub put_input : FullInput → Bytes
put_input i =
    i.input.utxo.hash
    ++ (to_le_bytes 4 i.input.utxo.index ++ (sized i.script_sig ++ to_le_bytes 4 i.input.sequence))

abbrev pub put_output : TxOutput → Bytes
put_output o = to_le_bytes 8 o.value ++ sized o.script

abbrev pub concat {ℓ} : {A : Type ℓ} → (A → Bytes) → List A → Bytes
concat put [] = []
concat put (x ∷ xs) = put x ++ concat put xs

-- the inputs and the outputs, each behind their number
abbrev pub put_body : FullTransaction → Bytes
put_body t =
    var_int (length t.inputs)
    ++ (concat put_input t.inputs ++ (var_int (length t.outputs) ++ concat put_output t.outputs))

abbrev pub put_witness : FullInput → Bytes
put_witness i = var_int (length i.witness) ++ concat sized i.witness

-- without witnesses
unfoldable pub legacy : FullTransaction → Bytes
legacy t = to_le_bytes 4 t.version ++ (put_body t ++ to_le_bytes 4 t.locktime)

-- with marker, flag and witnesses
unfoldable pub segwit : FullTransaction → Bytes
segwit t =
    to_le_bytes 4 t.version
    ++ (0 ∷ 1 ∷ (put_body t ++ (concat put_witness t.inputs ++ to_le_bytes 4 t.locktime)))

-- the numbers in their types' ranges and the hashes of 32 bytes
pub record IsInput (i : FullInput) : Type 0 where
  pub hash : length i.input.utxo.hash ≡ 32
  pub index : i.input.utxo.index < 2 ^ 32
  pub sequence : i.input.sequence < 2 ^ 32

pub record IsTransaction (t : FullTransaction) : Type 0 where
  pub version : t.version < 2 ^ 32
  pub locktime : t.locktime < 2 ^ 32
  pub inputs : All IsInput t.inputs
  pub outputs : All (λ o. o.value < 2 ^ 64) t.outputs
