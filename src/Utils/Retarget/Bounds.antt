-- ===== src/Utils/Retarget/Bounds.antt =====
-- The numbers of a retarget (utils.rs).
use native.Mathlib.Nat.{mod-eq_of_lt, mul-le-mul}
use bitcoin_svm_bridge.Prelude.{
  ℕ, ◌-◌, ◌*◌, ◌/◌, ◌^◌, ◌≤◌, ◌<◌, ◌≡◌, ap, ◌∙◌, inl, inr, ok, fail, panic, arith, ltb, le→leb,
  if◌then◌else◌, Bool-cases,
}
use bitcoin_svm_bridge.ArrayUtils.{Bytes, mul_in_place, div_in_place, gt_arr}
use bitcoin_svm_bridge.ArrayUtils.Value.{IsU256, value}
use bitcoin_svm_bridge.ArrayUtils.Mul.{value-mul_in_place}
use bitcoin_svm_bridge.ArrayUtils.Div.{value-div_in_place}
use bitcoin_svm_bridge.ArrayUtils.Order.{arr-order}
use bitcoin_svm_bridge.Utils.Target.{target_to_nbits, unrounded_max_target}
use bitcoin_svm_bridge.Utils.Retarget.{compute_new_nbits, clamp_timespan, target_timespan}

max_target-IsU256 : IsU256 unrounded_max_target
max_target-IsU256 = omega arith

pub clamp_timespan_bounds : (s : ℕ) → (302400 ≤ clamp_timespan s) × (clamp_timespan s ≤ 4838400)
clamp_timespan_bounds s = ground arith

-- at least three and a half days, at most eight weeks, in seconds
abbrev pub clamped : ℕ → ℕ
clamped time_span =
    if ltb time_span 302400 then 302400 else if ltb 4838400 time_span then 4838400 else time_span

clamp_timespan-eq : (s : ℕ) → clamp_timespan s ≡ clamped s
clamp_timespan-eq s = ground arith

-- The number that the new target should have: two weeks are 1209600 seconds, and the limit is
-- 2 ^ 224 - 1.
abbrev pub retarget_spec : ℕ → ℕ → ℕ
retarget_spec prev time_span =
    let scaled = prev * clamped time_span / 1209600 in
    if ltb (2 ^ 224 - 1) scaled then 2 ^ 224 - 1 else scaled

-- The product of a target within the limit and a clamped time span fits 256 bits.
scaled_fits : (v s : ℕ) → v ≤ value unrounded_max_target → v * clamp_timespan s < 2 ^ 256
scaled_fits v s h = omega (arith, mul-le-mul h (clamp_timespan_bounds s).1)

-- the array that is packed at the end
abbrev capped : Bytes → Bytes
capped q = if gt_arr q unrounded_max_target then unrounded_max_target else q

capped-IsU256 : (q : Bytes) → IsU256 q → IsU256 (capped q)
capped-IsU256 q u = elim (Bool-cases (gt_arr q unrounded_max_target)) [
  | inl g ↦ rw g max_target-IsU256
  | inr g ↦ rw g u
]

value-capped :
    (q : Bytes)
    → IsU256 q
    → value (capped q)
      ≡ (if ltb (value unrounded_max_target) (value q) then value unrounded_max_target else value q)
value-capped q u =
    rw (← (arr-order u max_target-IsU256).0)
      (elim (Bool-cases (gt_arr q unrounded_max_target)) [ inl g ↦ rw g | inr g ↦ rw g ])

compute_new_nbits-eq :
    (prev_time start_time : ℕ) (target q : Bytes)
    → start_time ≤ prev_time
    → div_in_place (mul_in_place target (clamp_timespan (prev_time - start_time))) target_timespan
      ≡ ok q
    → compute_new_nbits prev_time start_time target ≡ ok (target_to_nbits (capped q))
unfolding compute_new_nbits
compute_new_nbits-eq prev_time start_time target q order e =
    rw (le→leb start_time prev_time order, e)
      (elim (Bool-cases (gt_arr q unrounded_max_target)) [ inl g ↦ rw g | inr g ↦ rw g ])

-- From a target of at most 2 ^ 224 - 1 and a period that does not end before it starts,
-- `compute_new_nbits` returns the compact form of the old target times the time span, clamped to
-- between 302400 and 4838400 seconds (a quarter of two weeks, and four times as much), divided by
-- the 1209600 seconds of two weeks, rounded down, and capped at 2 ^ 224 - 1: no intermediate product
-- is cut off.
pub compute_new_nbits_lem :
    (prev_time start_time : ℕ) {target : Bytes}
    → IsU256 target
    → value target ≤ 2 ^ 224 - 1
    → start_time ≤ prev_time
    → (t : Bytes) × IsU256 t
      × (value t ≡ retarget_spec (value target) (prev_time - start_time))
      × (compute_new_nbits prev_time start_time target ≡ ok (target_to_nbits t))
compute_new_nbits_lem prev_time start_time {target} u limit order =
    let span = prev_time - start_time in
    let (um, vm) = value-mul_in_place (clamp_timespan span) u in
    let (q, e, uq, vq) = value-div_in_place target_timespan um (omega arith) in
    (
      capped q,
      capped-IsU256 q uq,
      value-capped q uq
          ∙ ap
              (λ (n : ℕ).
                if ltb (value unrounded_max_target) n then value unrounded_max_target else n)
              (vq
                ∙ ap (λ (n : ℕ). n / target_timespan)
                    (vm
                      ∙ mod-eq_of_lt (scaled_fits (value target) span limit)
                      ∙ ap (λ (n : ℕ). value target * n) (clamp_timespan-eq span))),
      compute_new_nbits-eq prev_time start_time target q order e,
    )

-- A period that ends before it starts panics.
pub compute_new_nbits_backwards :
    (prev_time start_time : ℕ) (target : Bytes)
    → prev_time < start_time
    → compute_new_nbits prev_time start_time target ≡ fail panic
unfolding compute_new_nbits
compute_new_nbits_backwards prev_time start_time target h = ground arith
