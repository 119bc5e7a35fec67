-- ===== src/Prelude/Decimal.antt =====
-- Python's `Decimal(text)` as the program uses it: a sign, digits with an optional point, an
-- optional exponent, the infinities and NaN, in ASCII; a NaN's payload and the signalling NaN are not read.
-- Values are exact fractions over a power of ten.
use Prim.Native.Char.{code}
use Prim.Native.String.{String, [], ◌∷◌}
use mathlib.Core.List.{List}
use code_zard.Prelude.{
  ℕ, ◌+◌, ◌-◌, ◌*◌, ◌^◌, Bool, true, false, not, ◌&&◌, ◌||◌, Option, none, some, leb, ◌==◌,
  if◌then◌else◌,
}
use code_zard.Prelude.Text.{strip}
use code_zard.Prelude.Rounding.{digits_in}
use code_zard.Prelude.Int.{ℤ, pos, neg}

-- `finite c k` is c / 10 ^ k; the infinities carry their sign.
pub data Decimal : Type 0 where
  finite : ℤ → ℕ → Decimal
  infinite : Bool → Decimal
  nan : Decimal

-- The code points of a text, with its ASCII capitals made small and without the underscores, which Python
-- leaves out wherever they stand.
lower_codes : String → List ℕ
lower_codes [] = List.[]
lower_codes (c ∷ s) =
    let n = code c in
    let rest = lower_codes s in
    if n == b'_' then rest else List.◌∷◌ (if leb b'A' n && leb n b'Z' then n + 32 else n) rest

is_digit : ℕ → Bool
is_digit n = leb b'0' n && leb n b'9'

-- What a run of digits reads: the number, how many they were, and the text behind them.
record Digits : Type 0 where
  value : ℕ
  count : ℕ
  rest : List ℕ

digits : ℕ → ℕ → List ℕ → Digits
unfolding is_digit
digits value count List.[] = record { value = value; count = count; rest = List.[] }
digits value count (List.◌∷◌ c cs) =
    let more = digits (value * 10 + (c - b'0')) (count + 1) cs in
    if is_digit c then more else record { value = value; count = count; rest = List.◌∷◌ c cs }

signed : Bool → ℕ → ℤ
signed true n = neg (pos n)
signed false n = pos n

shifted : Bool → ℕ → ℕ → ℕ → Bool → Decimal
unfolding signed
shifted minus value scale exponent true = finite (signed minus value) (scale + exponent)
shifted minus value scale exponent false =
    finite (signed minus (value * 10 ^ (exponent - scale))) (scale - exponent)

-- The exponents of a decimal that Python builds without loss.
unfoldable is_exponent : ℕ → ℕ → ℕ → Bool → Bool
unfolding digits_in
is_exponent value scale exponent true = leb (scale + exponent) 1_999_999_999_999_999_997
is_exponent value scale exponent false =
    leb (exponent + (if value == 0 then 1 else digits_in value value))
      (1_000_000_000_000_000_000 + scale)

-- The exponent's digits have to be there and to end the text.
exponent_of : Bool → ℕ → ℕ → Bool → List ℕ → Option Decimal
unfolding digits shifted is_exponent
exponent_of minus value scale down cs =
    let e = digits 0 0 cs in
    elim e.rest [
      | List.[] ↦
          if e.count == 0 || not (is_exponent value scale e.value down)
          then none
          else some (shifted minus value scale e.value down)
      | List.◌∷◌ _ _ ↦ none
    ]

after_e : Bool → ℕ → ℕ → List ℕ → Option Decimal
unfolding exponent_of
after_e minus value scale List.[] = none
after_e minus value scale (List.◌∷◌ c cs) =
    if c == b'-'
    then exponent_of minus value scale true cs
    else if c == b'+'
    then exponent_of minus value scale false cs
    else exponent_of minus value scale false (List.◌∷◌ c cs)

after_mantissa : Bool → ℕ → ℕ → List ℕ → Option Decimal
unfolding after_e signed
after_mantissa minus value scale List.[] = some (finite (signed minus value) scale)
after_mantissa minus value scale (List.◌∷◌ c cs) =
    if c == b'e' then after_e minus value scale cs else none

-- Digits, then a point with more of them; there is at least one digit in all.
number : Bool → List ℕ → Option Decimal
unfolding digits after_mantissa
number minus cs =
    let whole = digits 0 0 cs in
    elim whole.rest [
      | List.[] ↦ if whole.count == 0 then none else after_mantissa minus whole.value 0 List.[]
      | List.◌∷◌ c more ↦
          if c == b'.'
          then (let both = digits whole.value 0 more in
              if whole.count + both.count == 0
              then none
              else after_mantissa minus both.value both.count both.rest)
          else if whole.count == 0
          then none
          else after_mantissa minus whole.value 0 (List.◌∷◌ c more)
    ]

equal_codes : List ℕ → List ℕ → Bool
equal_codes List.[] List.[] = true
equal_codes (List.◌∷◌ a as_) (List.◌∷◌ b bs) = a == b && equal_codes as_ bs
equal_codes _ _ = false

unsigned : Bool → List ℕ → Option Decimal
unfolding lower_codes equal_codes number
unsigned minus cs =
    if equal_codes cs (lower_codes "inf") || equal_codes cs (lower_codes "infinity")
    then some (infinite minus)
    else if equal_codes cs (lower_codes "nan")
    then some nan
    else number minus cs

after_sign : List ℕ → Option Decimal
unfolding unsigned
after_sign List.[] = none
after_sign (List.◌∷◌ c cs) =
    if c == b'-'
    then unsigned true cs
    else if c == b'+'
    then unsigned false cs
    else unsigned false (List.◌∷◌ c cs)

-- White space around the number does not count; `none` is `InvalidOperation`.
unfoldable pub decimal : String → Option Decimal
unfolding lower_codes after_sign strip
decimal text = after_sign (lower_codes (strip text))
