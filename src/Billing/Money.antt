-- ===== src/Billing/Money.antt =====
-- `Money` of `domain/billing.py`: an exact number of USD micros.
use code_zard.Prelude.{ℕ, if◌then◌else◌, ◌==◌, ◌&&◌, Bool}
use code_zard.Prelude.Int.{ℤ, pos, pos_part, neg_part, ◌+ℤ◌, ◌-ℤ◌, ◌*ℤ◌, ◌//ℤ◌, neg as neg_ℤ}
use code_zard.Prelude.Result.{Result, ok, err}
use code_zard.Billing.Errors.{BillingError, scaled_by_zero}

pub record Money : Type 0 where
  pub micros : ℤ

abbrev pub zero_money : Money
zero_money = record { micros = pos 0 }

abbrev pub micros_per_dollar : ℕ
micros_per_dollar = 1_000_000

-- `Money.usd`
unfoldable usd : ℤ → Money
usd dollars = record { micros = dollars *ℤ pos micros_per_dollar }

-- `value == 0` on an integer.
abbrev pub is_zero_ℤ : ℤ → Bool
is_zero_ℤ a = pos_part a == 0 && neg_part a == 0

unfoldable pub is_zero : Money → Bool
is_zero m = is_zero_ℤ m.micros

unfoldable pub add : Money → Money → Money
add m n = record { micros = m.micros +ℤ n.micros }

unfoldable sub : Money → Money → Money
sub m n = record { micros = m.micros -ℤ n.micros }

unfoldable pub neg : Money → Money
neg m = record { micros = neg_ℤ m.micros }

-- `scaled`: `m * numerator / denominator`, rounded half up.
unfoldable pub scaled : Money → ℤ → ℤ → Result BillingError Money
scaled m numerator denominator =
    if is_zero_ℤ denominator
    then err scaled_by_zero
    else ok (record { micros = (m.micros *ℤ numerator +ℤ denominator //ℤ pos 2) //ℤ denominator })
