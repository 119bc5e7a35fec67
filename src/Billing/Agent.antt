-- ===== src/Billing/Agent.antt =====
-- `Money.parse` and `Usage.from_agent` of `domain/billing.py`: what an agent reports, read from JSON.
pub mod Reports
use code_zard.Prelude.{
  ℕ, zero, suc, ◌+◌, ◌-◌, ◌*◌, ◌/◌, ◌%◌, ◌^◌, ◌==◌, String, Bool, true, false, ◌&&◌, ◌||◌, Option,
  none, some, ltb, leb, if◌then◌else◌,
}
use code_zard.Prelude.Int.{ℤ, pos, negsuc, neg, max_ℤ, pos_part, neg_part}
use code_zard.Prelude.Result.{Result, ok, err}
use code_zard.Prelude.Rounding.{precision, round_half_up, rounded}
use code_zard.Prelude.Decimal.{Decimal, finite, infinite, nan, decimal}
use code_zard.Json.{
  Json, null, boolean, integer, real, text, array, object, Fields, get, as_object, truthy, str,
  IntError, overflow_error, type_error, value_error, IntResult, int_ok, int_err, int,
}
use code_zard.Billing.Money.{Money, zero_money, micros_per_dollar}
use code_zard.Billing.Pricing.{Usage}

-- What stops a reading: `BillingError`, and the exceptions that no clause of the code catches: decimal's
-- `InvalidOperation`, and an overflow, the `OverflowError` of `int` or the `Overflow` of a product.
pub data ReadError : Type 0 where
  not_an_amount invalid_operation overflow : ReadError

abbrev with_sign : Bool → ℕ → ℤ
with_sign true n = neg (pos n)
with_sign false n = pos n

-- The largest exponent of Python's default context: a product from the next power of ten on overflows,
-- and a shorter one that has more digits than the precision cannot be quantized.
unfoldable pub too_long : ℕ → ReadError
too_long micros = if leb (10 ^ 1_000_000) micros then overflow else invalid_operation

-- `(amount * MICROS).quantize(Decimal(1), rounding=ROUND_HALF_UP)`.
quantized : Bool → ℕ → ℕ → Result ReadError Money
unfolding rounded neg too_long
quantized minus c k =
    let micros = round_half_up (rounded (c * micros_per_dollar)) (10 ^ k) in
    if leb (10 ^ precision) micros
    then err (too_long micros)
    else ok (record { micros = with_sign minus micros })

parse_decimal : Option Decimal → Result ReadError Money
unfolding quantized
parse_decimal none = err not_an_amount
parse_decimal (some nan) = err not_an_amount
parse_decimal (some (infinite minus)) = err not_an_amount
parse_decimal (some (finite (pos n) k)) = quantized false n k
parse_decimal (some (finite (negsuc n) k)) = quantized true (suc n) k

abbrev pub caught : Result ReadError Money → Result ReadError Money
caught (ok m) = ok m
caught (err not_an_amount) = ok zero_money
caught (err e) = err e

module _ (render : Json → String) where
  -- `Money.parse`
  unfoldable pub parse : Json → Result ReadError Money
  unfolding parse_decimal str decimal
  parse value = parse_decimal (decimal (str render value))

  -- `_money`
  unfoldable pub money_or_zero : Json → Result ReadError Money
  unfolding parse
  money_or_zero null = ok zero_money
  money_or_zero value = caught (parse value)

abbrev pub at_least_zero : IntResult → Result ReadError ℤ
at_least_zero (int_ok n) = ok (max_ℤ (pos 0) n)
at_least_zero (int_err type_error) = ok (pos 0)
at_least_zero (int_err value_error) = ok (pos 0)
at_least_zero (int_err overflow_error) = err overflow

-- `_int`
unfoldable pub int_or_zero : Json → Result ReadError ℤ
unfolding int
int_or_zero value = at_least_zero (int value)

abbrev pub no_usage : Usage
no_usage = record { tokens = pos 0; calls = pos 0; cost = zero_money; simulated = false }

-- `usage if isinstance(usage, Mapping) else panel`
abbrev pub usage_source : Fields → Option Fields → Fields
usage_source panel none = panel
usage_source panel (some inner) = inner

abbrev bind_read :
    {A B : Type 0} → Result ReadError A → (A → Result ReadError B) → Result ReadError B
bind_read (ok a) f = f a
bind_read (err e) f = err e

module _ (render : Json → String) where
  unfoldable pub read_usage : Fields → Result ReadError Usage
  unfolding int_or_zero money_or_zero truthy get
  read_usage source = bind_read (int_or_zero (get "tokens" source)) λ tokens.
      bind_read (int_or_zero (get "calls" source)) λ calls.
        bind_read (money_or_zero render (get "cost_usd" source)) λ cost. ok (record {
          tokens = tokens;
          calls = calls;
          cost = cost;
          simulated = truthy (get "simulated" source);
        })

  abbrev pub read_panel : Option Fields → Result ReadError Usage
  read_panel none = ok no_usage
  read_panel (some panel) = read_usage (usage_source panel (as_object (get "usage" panel)))

  -- `Usage.from_agent`
  unfoldable pub from_agent : Json → Result ReadError Usage
  unfolding read_usage get
  from_agent panel = read_panel (as_object panel)
