-- ===== src/Prelude/Rounding.antt =====
pub mod Bounds
-- The rounding of Python's `decimal` under its default context.
use Prim.Native.Nat.{ℕ, zero, suc, ◌+◌, ◌-◌, ◌*◌, ◌/◌, ◌%◌, ◌^◌}
use code_zard.Prelude.Tests.{ltb, ◌==◌, if◌then◌else◌}

-- The precision of the default context.
abbrev pub precision : ℕ
precision = 28

-- The number of decimal digits; the fuel is a bound on them.
unfoldable pub digits_in : ℕ → ℕ → ℕ
digits_in zero n = 0
digits_in (suc fuel) n = let more = suc (digits_in fuel (n / 10)) in if n == 0 then 0 else more

-- n / d, where a half goes up, where it goes to the even neighbour, and where all goes up.
abbrev pub round_half_up : ℕ → ℕ → ℕ
round_half_up n d = (2 * n + d) / (2 * d)

abbrev pub round_half_even : ℕ → ℕ → ℕ
round_half_even n d =
    let r = n % d in
    let q = n / d in if ltb (2 * r) d then q else if ltb d (2 * r) then q + 1 else q + q % 2

abbrev pub round_up : ℕ → ℕ → ℕ
round_up n d = (n + d - 1) / d

-- A product keeps 28 digits.
unfoldable pub rounded : ℕ → ℕ
unfolding digits_in
rounded n =
    let excess = digits_in n n - precision in
    let unit = 10 ^ excess in if ltb n (10 ^ precision) then n else round_half_even n unit * unit
