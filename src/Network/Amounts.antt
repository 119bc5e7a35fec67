-- ===== src/Network/Amounts.antt =====
-- Amounts of `infrastructure/billing/stellar.py`: `_decimal`, `_amount` and the division of a quote.
use code_zard.Prelude.{
  ℕ, zero, suc, ◌+◌, ◌-◌, ◌*◌, ◌/◌, ◌^◌, ◌==◌, String, Bool, Option, none, some, leb, ltb,
  if◌then◌else◌, ◌≡◌, refl,
}
use code_zard.Prelude.Int.{ℤ, pos, pos_part, neg_part, leb_ℤ, ltb_ℤ, ◌*ℤ◌}
use code_zard.Prelude.Text.{same, concat, spell, last_digits}
use code_zard.Prelude.Result.{Result, ok, err}
use code_zard.Prelude.Decimal.{Decimal, finite, infinite, nan, decimal}
use code_zard.Prelude.Rounding.{precision, digits_in, round_half_even, round_up, rounded}
use code_zard.Json.{Json, truthy, str}
use code_zard.Billing.Money.{Money}
use code_zard.Network.{NetworkError, invalid_operation}

-- The fraction numerator / 10 ^ scale: a finite decimal.
pub record Amount : Type 0 where
  pub numerator : ℤ
  pub scale : ℕ

abbrev finite_or_zero : Option Decimal → Amount
finite_or_zero (some (finite c k)) = record { numerator = c; scale = k }
finite_or_zero (some (infinite _)) = record { numerator = pos 0; scale = 0 }
finite_or_zero (some nan) = record { numerator = pos 0; scale = 0 }
finite_or_zero none = record { numerator = pos 0; scale = 0 }

-- `_decimal` of a text, and of a JSON value.
unfoldable pub text_amount : String → Amount
unfolding decimal
text_amount s = finite_or_zero (decimal (if same s "" then "0" else s))

unfoldable pub json_amount : (Json → String) → Json → Amount
unfolding truthy str decimal
json_amount render v = finite_or_zero (decimal (if truthy v then str render v else "0"))

abbrev pub is_positive : Amount → Bool
is_positive a = ltb_ℤ (pos 0) a.numerator

-- `paid >= owed`
unfoldable pub covers : Amount → Amount → Bool
covers paid owed =
    leb_ℤ (owed.numerator *ℤ pos (10 ^ paid.scale)) (paid.numerator *ℤ pos (10 ^ owed.scale))

abbrev pub magnitude : ℤ → ℕ
magnitude z = pos_part z + neg_part z

abbrev pub is_negative : ℤ → Bool
is_negative z = ltb 0 (neg_part z)

-- `str` of a decimal with seven places: below ten units Python writes an exponent.
unfoldable pub spell_stroops : ℕ → String
unfolding last_digits spell
spell_stroops n =
    if ltb n 10
    then concat (spell (pos n)) "E-7"
    else concat (spell (pos (n / 10 ^ 7))) (concat "." (last_digits 7 n))

-- The number of stroops of n / d, rounded up.
abbrev pub stroops : ℕ → ℕ → ℕ
stroops n d = round_up (n * 10 ^ 7) d

-- What `quantize` gives, which raises where the result has more digits than the precision.
abbrev pub quantized_text : Bool → ℕ → Result NetworkError String
quantized_text minus n =
    if leb (10 ^ precision) n
    then err invalid_operation
    else ok (if minus then concat "-" (spell_stroops n) else spell_stroops n)

-- `_amount`. A zero has no sign.
unfoldable pub amount_text : Amount → Result NetworkError String
unfolding spell_stroops
amount_text a =
    quantized_text (is_negative a.numerator) (stroops (magnitude a.numerator) (10 ^ a.scale))

-- By how many powers of ten `a` has to grow to reach `b`; the fuel is a bound on them.
unfoldable pub places_below : ℕ → ℕ → ℕ → ℕ
places_below zero a b = 0
places_below (suc fuel) a b =
    let more = suc (places_below fuel (a * 10) b) in if leb b a then 0 else more

-- a / b to 28 digits, as a numerator over a power of ten.
unfoldable pub quotient : ℕ → ℕ → ℕ × ℕ
unfolding digits_in places_below
quotient a b =
    let size = digits_in (a / b) (a / b) in
    let above = 10 ^ (size - precision) in
    let scale = if size == 0 then precision - 1 + places_below b a b else precision - size in
    if ltb precision size
    then (round_half_even a (b * above) * above, 0)
    else (round_half_even (a * 10 ^ scale) b, scale)

-- `_amount(price.decimal)`
unfoldable pub exact_quote : Money → Result NetworkError String
unfolding rounded spell_stroops
exact_quote price =
    quantized_text (is_negative price.micros) (stroops (rounded (magnitude price.micros)) (10 ^ 6))

-- `_amount(price.decimal / rate)`, for a positive rate.
unfoldable pub rated_quote : Money → Amount → Result NetworkError String
unfolding rounded quotient spell_stroops
rated_quote price rate =
    let (q, s) =
      quotient (rounded (magnitude price.micros) * 10 ^ rate.scale)
        (magnitude rate.numerator * 10 ^ 6) in
    quantized_text (is_negative price.micros) (stroops q (10 ^ s))

quote_tiny :
    rated_quote (record { micros = pos 1 }) (record { numerator = pos 35; scale = 2 })
    ≡ ok "0.0000029"
unfolding rated_quote
quote_tiny = refl
