-- ===== src/SharedBudgets/Floats.antt =====
-- The threshold of a spending rule in contracts/shared-budgets/src/lib.rs, which the source computes
-- with `f64`: a share of an amount, as `(amount as f64 * (percentage as f64 / 100.0)) as i128`.
use stellarspend_contracts.Common.{
  ℕ, zero, suc, ◌+◌, ◌-◌, ◌*◌, ◌/◌, ◌%◌, ◌^◌, Bool, false, ◌&&◌, ◌||◌, ◌==◌, ltb, if◌then◌else◌,
}
use stellarspend_contracts.Common.Int.{ℤ, pos, pos_part, saturate}

-- A value of `f64` that is not negative: mantissa * 2 ^ up / 2 ^ down.
pub record F64 : Type 0 where
  pub mantissa : ℕ
  pub up : ℕ
  pub down : ℕ

-- The number of binary digits of a number below 2 ^ fuel.
unfoldable pub bits : (fuel : ℕ) → ℕ → ℕ
bits zero n = 0
bits (suc fuel) n = let rest = bits fuel (n / 2) in if n == 0 then 0 else 1 + rest

-- Rounding to 53 digits, to the nearest, and to an even mantissa from the middle. The value is
-- (n + rest) / 2 ^ down, with a rest below 1 that is positive if `inexact`.
unfoldable pub round_53 : (n : ℕ) → (inexact : Bool) → (up down : ℕ) → F64
round_53 n inexact up down =
    let drop = bits 256 n - 53 in
    let kept = n / 2 ^ drop in
    let twice = 2 * (n % 2 ^ drop) in
    let rounds_up =
      ltb (2 ^ drop) twice || (ltb 0 drop && (twice == 2 ^ drop) && (inexact || (kept % 2 == 1))) in
    record { mantissa = if rounds_up then kept + 1 else kept; up = up + drop; down = down }

-- `n as f64`
abbrev pub of_int : ℕ → F64
of_int n = round_53 n false 0 0

-- `n as f64 / 100.0`: 64 digits behind the point are more than the mantissa holds.
abbrev pub hundredths : ℕ → F64
hundredths n = round_53 (n * 2 ^ 64 / 100) (ltb 0 (n * 2 ^ 64 % 100)) 0 64

-- `x * y`
abbrev pub multiply : F64 → F64 → F64
multiply x y = round_53 (x.mantissa * y.mantissa) false (x.up + y.up) (x.down + y.down)

-- `x as i128`, which drops the fraction and saturates.
abbrev pub truncate : F64 → ℤ
truncate x = saturate (pos (x.mantissa * 2 ^ x.up / 2 ^ x.down))

unfoldable pub share : ℤ → (percentage : ℕ) → ℤ
share amount percentage = truncate (multiply (of_int (pos_part amount)) (hundredths percentage))
