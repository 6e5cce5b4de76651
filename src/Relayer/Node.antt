-- ===== src/Relayer/Node.antt =====
-- What the relayer reads from a Bitcoin node and from Solana: the calls belong to libraries and may
-- answer anything, an error included.
use bitcoin_svm_bridge.Prelude.{ap, ◌≡◌, refl, ℕ, List, Option, none, some, Result, ok, fail}
use bitcoin_svm_bridge.ArrayUtils.{Bytes}
use bitcoin_svm_bridge.Structs.{BlockHeader}
use bitcoin_svm_bridge.State.{MainState}

-- the outcome of a function of the relayer: a value, an error or a panic
pub data Call (E A : Type 0) : Type 0 where
  done : A → Call E A
  error : E → Call E A
  crash : Call E A

-- `?`
infixl 5 ◌>>=◌
abbrev pub ◌>>=◌ : {E X Y : Type 0} → Call E X → (X → Call E Y) → Call E Y
done x >>= next = next x
error e >>= next = error e
crash >>= next = crash

pub bind_done :
    {E X Y : Type 0} (m : Call E X) {f : X → Call E Y} {y : Y}
    → (m >>= f) ≡ done y
    → (x : X) × (m ≡ done x) × (f x ≡ done y)
bind_done (done x) h = (x, refl, h)
bind_done (error e) h = cc
bind_done crash h = cc

pub done-injective : {E X : Type 0} {x y : X} → ◌≡◌ {A = Call E X} (done x) (done y) → x ≡ y
done-injective h = cc

abbrev pub map_err : {E F A : Type 0} → (E → F) → Call E A → Call F A
map_err from (done a) = done a
map_err from (error e) = error (from e)
map_err from crash = crash

abbrev pub ok_or : {E A : Type 0} → E → Option A → Call E A
ok_or e none = error e
ok_or e (some a) = done a

-- a function whose only failures are panics
abbrev pub or_crash : {E A : Type 0} → Result A → Call E A
or_crash (ok a) = done a
or_crash (fail why) = crash

-- The header of the bitcoin crate, with `version.to_consensus() as u32` for its version and
-- `bits.to_consensus()` for its bits.
pub record Header : Type 0 where
  pub version : ℕ
  pub prev_blockhash : Bytes
  pub merkle_root : Bytes
  pub time : ℕ
  pub bits : ℕ
  pub nonce : ℕ

-- of a block only its header is read
pub record Block : Type 0 where
  pub header : Header

pub record BlockInfo : Type 0 where
  pub height : ℕ
  pub tx : List Bytes

pub record TransactionInfo : Type 0 where
  pub hex : Bytes
  pub blockhash : Option Bytes

pub record BitcoinRpc (E : Type 0) : Type 0 where
  pub get_block_header : Bytes → Call E Header
  pub get_block_hash : ℕ → Call E Bytes
  pub get_block : Bytes → Call E Block
  pub get_best_block_hash : Call E Bytes
  pub get_block_info : Bytes → Call E BlockInfo
  pub get_raw_transaction_info : Bytes → Call E TransactionInfo

-- the bytes of the main account, and Anchor's reading of them
pub record Solana (E : Type 0) : Type 0 where
  pub get_account : Call E Bytes
  pub try_deserialize_unchecked : Bytes → Call E MainState

-- `yona_block_header`
abbrev pub yona_block_header : Header → BlockHeader
yona_block_header header = record {
  version = header.version;
  reversed_prev_blockhash = header.prev_blockhash;
  merkle_root = header.merkle_root;
  timestamp = header.time;
  nbits = header.bits;
  nonce = header.nonce;
}

pub map_err_done :
    {E F A : Type 0} (from : E → F) (m : Call E A) {a : A} → map_err from m ≡ done a → m ≡ done a
map_err_done from (done a) h = ap done (done-injective h)
map_err_done from (error e) h = cc
map_err_done from crash h = cc
