-- ===== src/TxVerify.antt =====
-- utils/txverify.rs: the check that another instruction of the same transaction was a verification
-- by the relay program. An index out of the data panics.
pub mod Exact
use bitcoin_svm_bridge.Prelude.{
  ℕ, zero, suc, ◌+◌, List, [], ◌∷◌, Option, Bool, true, false, Result, ok, fail, panic, ◌>>=◌,
  or_panic, bytes_eq, ◌==◌, if◌then◌else◌, get_elem?,
}
use bitcoin_svm_bridge.ArrayUtils.{Bytes}
use bitcoin_svm_bridge.Structs.{Pubkey}
use bitcoin_svm_bridge.TxUtils.{read_le}

abbrev pub ix_prefix : Bytes
ix_prefix = 0x9d ∷ 0x7e ∷ 0xc1 ∷ 0x86 ∷ 0x31 ∷ 0x33 ∷ 0x07 ∷ 0x58 ∷ []

-- a loop that leaves at the first byte that differs from the expected ones
unfoldable pub same_bytes : Bytes → Bytes → ℕ → Result Bool
same_bytes [] bytes i = ok true
same_bytes (b ∷ expected) bytes i = do
  found ← or_panic (get_elem? bytes i)
  (let rest = same_bytes expected bytes (i + 1) in if found == b then rest else ok false)

-- A `reversed_tx_id` has 32 bytes.
unfoldable pub check_tx_data : Bytes → Bytes → ℕ → Result ℕ
check_tx_data bytes reversed_tx_id confirmations = same_bytes ix_prefix bytes 0 >>= λ prefixed.
    if prefixed
    then (same_bytes reversed_tx_id bytes 8 >>= λ named.
        if named
        then (read_le bytes 40 4 >>= λ found. ok (if confirmations == found then 0 else 3))
        else ok 2)
    else ok 1

-- The instruction of Solana's interface, as far as it is read.
pub record Instruction : Type 0 where
  pub program_id : Pubkey
  pub ix_data : Bytes

-- the text of the relay program's id, 8DMFpUfCk8KPkNLtE25XHuCSsT1GqYxuLdGzu59QK3Rt, in ASCII
abbrev pub btc_relay_id_base58 : Bytes
btc_relay_id_base58 =
    56 ∷ 68 ∷ 77 ∷ 70 ∷ 112 ∷ 85 ∷ 102 ∷ 67 ∷ 107 ∷ 56 ∷ 75 ∷ 80 ∷ 107 ∷ 78 ∷ 76 ∷ 116 ∷ 69 ∷ 50
    ∷ 53 ∷ 88 ∷ 72 ∷ 117 ∷ 67 ∷ 83 ∷ 115 ∷ 84 ∷ 49 ∷ 71 ∷ 113 ∷ 89 ∷ 120 ∷ 117 ∷ 76 ∷ 100 ∷ 71 ∷ 122
    ∷ 117 ∷ 53 ∷ 57 ∷ 81 ∷ 75 ∷ 51 ∷ 82 ∷ 116 ∷ []

-- `from_str` is the reading of a key from a text in Solana's library.
unfoldable pub verify_tx_ix : (Bytes → Option Pubkey) → Instruction → Bytes → ℕ → Result ℕ
verify_tx_ix from_str ix reversed_tx_id confirmations =
    or_panic (from_str btc_relay_id_base58) >>= λ btc_relay_id.
    if bytes_eq ix.program_id btc_relay_id
    then check_tx_data ix.ix_data reversed_tx_id confirmations
    else ok 10
