-- ===== src/Prelude/Checked.antt =====
-- The outcome of an instruction, and Rust's arithmetic as the on-chain program is compiled: with
-- `overflow-checks = true` (Cargo.toml), so an operation out of range panics.
-- The error codes are programs/btc-relay/src/errors.rs.
use Prim.Native.Nat.{ℕ, ◌+◌, ◌-◌, ◌*◌, ◌^◌, ◌≤◌, ◌<◌}
use mathlib.Core.Path.{◌≡◌, refl}
use mathlib.Core.Bool.{Bool, true, false}
use mathlib.Core.Option.{Option, none, some}
use native.Mathlib.Omega.{arith}
use bitcoin_svm_bridge.Prelude.Tests.{ltb, leb, if◌then◌else◌}

pub data RelayErrorCode : Type 0 where
  prev_block_commitment : RelayErrorCode
  prev_block : RelayErrorCode
  err_diff_target : RelayErrorCode
  err_pow_toolow : RelayErrorCode
  err_timestamp_toolow : RelayErrorCode
  err_timestamp_too_high : RelayErrorCode
  invalid_header_topic : RelayErrorCode
  no_headers : RelayErrorCode
  fork_too_short : RelayErrorCode
  err_init : RelayErrorCode
  block_confirmations : RelayErrorCode
  merkle_root_mismatch : RelayErrorCode
  invalid_blockheight : RelayErrorCode
  invalid_fork_id : RelayErrorCode
  invalid_remaining_accounts : RelayErrorCode
  no_deposit_outputs : RelayErrorCode

-- Why a call ended early: a code of the program, an error of the runtime's account loader, or a
-- panic. The runtime rolls every write back in each of these cases.
pub data Failure : Type 0 where
  code : RelayErrorCode → Failure
  runtime : Failure
  panic : Failure

pub data Result {ℓ} (A : Type ℓ) : Type ℓ where
  ok : A → Result A
  fail : Failure → Result A

-- `require!`
abbrev pub require : Bool → RelayErrorCode → Result (Unit {0})
require holds e = if holds then ok tt else fail (code e)

-- `?`, and a step of which only the failure matters
infixl 5 ◌>>=◌ ◌>>◌
abbrev pub ◌>>=◌ {μ ν} : {X : Type μ} {Y : Type ν} → Result X → (X → Result Y) → Result Y
fail why >>= next = fail why
ok x >>= next = next x

abbrev pub ◌>>◌ {ν} : {Y : Type ν} → Result (Unit {0}) → Result Y → Result Y
first >> next = first >>= λ done. next

-- an index out of range, `unwrap` of `None`
abbrev pub or_panic {ℓ} : {A : Type ℓ} → Option A → Result A
or_panic none = fail panic
or_panic (some a) = ok a

-- `a + b` and `a * b` at a width of `w` bits; `a - b` at any unsigned width
abbrev pub checked_add : ℕ → ℕ → ℕ → Result ℕ
checked_add w a b = if ltb (a + b) (2 ^ w) then ok (a + b) else fail panic

abbrev pub checked_mul : ℕ → ℕ → ℕ → Result ℕ
checked_mul w a b = if ltb (a * b) (2 ^ w) then ok (a * b) else fail panic

abbrev pub checked_sub : ℕ → ℕ → Result ℕ
checked_sub a b = if leb b a then ok (a - b) else fail panic

-- What a successful `?` has gone through.
pub >>=-eq-ok {μ ν} :
    {X : Type μ} {Y : Type ν} (first : Result X) (next : X → Result Y) {y : Y}
    → first >>= next ≡ ok y
    → (x : X) × (first ≡ ok x) × (next x ≡ ok y)
>>=-eq-ok (fail why) next e = cc
>>=-eq-ok (ok x) next e = (x, refl, e)

pub require-eq-ok {ℓ} :
    {B : Type ℓ} (c : Bool) (e : RelayErrorCode) (k : Result B) {b : B}
    → (require c e >> k) ≡ ok b
    → (c ≡ true) × (k ≡ ok b)
require-eq-ok true e k h = (refl, h)
require-eq-ok false e k h = cc

pub checked_add-eq-ok : (w a b : ℕ) {c : ℕ} → checked_add w a b ≡ ok c → (c ≡ a + b) × (c < 2 ^ w)
checked_add-eq-ok w a b h = ground arith

pub checked_add_of_lt : (w a b : ℕ) → a + b < 2 ^ w → checked_add w a b ≡ ok (a + b)
checked_add_of_lt w a b h = ground arith

pub checked_mul-eq-ok : (w a b : ℕ) {c : ℕ} → checked_mul w a b ≡ ok c → (c ≡ a * b) × (c < 2 ^ w)
checked_mul-eq-ok w a b h = ground arith

pub checked_sub-eq-ok : (a b : ℕ) {c : ℕ} → checked_sub a b ≡ ok c → (c + b ≡ a) × (b ≤ a)
checked_sub-eq-ok a b h = ground arith

pub require-eq-ok_tt : (c : Bool) (e : RelayErrorCode) → require c e ≡ ok tt → c ≡ true
require-eq-ok_tt true e h = refl
require-eq-ok_tt false e h = cc

pub ok-injective {ℓ} : {A : Type ℓ} {a b : A} → ok a ≡ ok b → a ≡ b
ok-injective h = cc

-- Inversion in the form that a chain of steps uses: each step hands its value and what is left on.
pub bind_ok {ℓ κ μ} :
    {A : Type ℓ} {B : Type κ} {C : Type μ} (m : Result A) (f : A → Result B) {b : B}
    → (m >>= f) ≡ ok b
    → ((a : A) → m ≡ ok a → f a ≡ ok b → C)
    → C
bind_ok (ok a) f h k = k a refl h
bind_ok (fail e) f h k = cc

pub require_ok {ℓ μ} :
    {B : Type ℓ} {C : Type μ} (c : Bool) (e : RelayErrorCode) (m : Result B) {b : B}
    → (require c e >> m) ≡ ok b
    → (c ≡ true → m ≡ ok b → C)
    → C
require_ok true e m h k = k refl h
require_ok false e m h k = cc
