-- ===== src/Prelude/Rounding/Bounds.antt =====
-- How far rounding moves a number, and what the digits of a number say of its size.
use native.Mathlib.Nat.{pow-succ', div-add-mod', mod-lt}
use code_zard.Prelude.Tests.{◌==◌, Bool-cases}
use Prim.Native.Nat.{ℕ, zero, suc, ◌+◌, ◌*◌, ◌/◌, ◌^◌, ◌≤◌, ◌<◌}
use mathlib.Core.Path.{◌≡◌, refl, ap}
use mathlib.Core.Logic.{inl, inr}
use mathlib.Core.Bool.{true}
use native.Mathlib.Omega.{arith}
use code_zard.Prelude.Rounding.{digits_in, round_half_even, round_up}

-- Rounding to the nearest moves by a half at most.
pub round_half_even_lem :
    (n d : ℕ)
    → 0 < d
    → (2 * (round_half_even n d * d) ≤ 2 * n + d) × (2 * n ≤ 2 * (round_half_even n d * d) + d)
round_half_even_lem n d h = grind (arith, div-add-mod' n d, mod-lt n h)

-- Rounding up gives the least multiple that covers the number.
pub round_up_lem : (n d : ℕ) → 0 < d → (n ≤ round_up n d * d) × (round_up n d * d < n + d)
round_up_lem n d h = grind arith

pub ten_pow_add : (i j : ℕ) → 10 ^ (i + j) ≡ 10 ^ i * 10 ^ j
ten_pow_add zero j = grind arith
ten_pow_add (suc i) j =
    let next : suc i + j ≡ suc (i + j) = omega arith in
    rw (next, pow-succ' 10 (i + j), pow-succ' 10 i, ten_pow_add i j) (grind arith)

==→≡ : (m n : ℕ) → (m == n) ≡ true → m ≡ n
==→≡ m n h = ground arith

digits_in_zero : (fuel : ℕ) → digits_in fuel 0 ≡ 0
unfolding digits_in
digits_in_zero zero = refl
digits_in_zero (suc fuel) = refl

-- A number has no more digits than it needs.
pub digits_in-le : (fuel n : ℕ) → 0 < n → 10 ^ digits_in fuel n ≤ 10 * n
unfolding digits_in
digits_in-le zero n h = omega arith
digits_in-le (suc fuel) n h = elim (Bool-cases (n / 10 == 0)) [
  | inl last ↦
      ground (arith, ap (λ (x : ℕ). digits_in fuel x) (==→≡ (n / 10) 0 last), digits_in_zero fuel)
  | inr more ↦
      ground
        (arith, pow-succ' 10 (digits_in fuel (n / 10)), digits_in-le fuel (n / 10) (ground arith))
]
