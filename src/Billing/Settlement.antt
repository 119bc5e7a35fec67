-- ===== src/Billing/Settlement.antt =====
-- `ObservedPayment.settles` of `domain/billing.py`.
use code_zard.Prelude.{◌^◌, Bool, false, not, ◌||◌, Option, none, some, if◌then◌else◌}
use code_zard.Prelude.Int.{pos, ◌*ℤ◌, leb_ℤ}
use code_zard.Prelude.Text.{same, upper}
use code_zard.Prelude.Decimal.{Decimal, finite, infinite, nan, decimal}
use code_zard.Billing.Invoice.{Invoice, memo_of, ObservedPayment}

-- What `settles` returns, or `none` where comparing with a NaN raises `InvalidOperation`.
abbrev pub Verdict : Type 0
Verdict = Option Bool

-- `paid >= owed * (9_900 / 10_000)`: the tolerance is the default of 100 basis points.
unfoldable at_least : Decimal → Decimal → Verdict
at_least nan _ = none
at_least (infinite _) nan = none
at_least (finite _ _) nan = none
at_least (infinite minus) (infinite owed_minus) = some (not minus || owed_minus)
at_least (infinite minus) (finite _ _) = some (not minus)
at_least (finite _ _) (infinite owed_minus) = some owed_minus
at_least (finite paid i) (finite owed j) =
    some (leb_ℤ (owed *ℤ pos 9_900 *ℤ pos (10 ^ i)) (paid *ℤ pos 10_000 *ℤ pos (10 ^ j)))

abbrev compare_amounts : Option Decimal → Option Decimal → Verdict
compare_amounts none _ = some false
compare_amounts (some paid) none = some false
compare_amounts (some paid) (some owed) = at_least paid owed

unfoldable pub settles : ObservedPayment → Invoice → Verdict
unfolding memo_of decimal at_least
settles p i =
    if not (same p.memo (memo_of i)) || not (same p.destination i.destination)
    then some false
    else if not (same (upper p.asset) (upper i.asset))
    then some false
    else compare_amounts (decimal p.amount) (decimal i.amount)
