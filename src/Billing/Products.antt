-- ===== src/Billing/Products.antt =====
-- `Cadence`, `Plan`, `Pack` and `Product` of `domain/billing.py`.
use code_zard.Prelude.{ℕ, String, Bool, ◌*◌}
use code_zard.Prelude.Int.{ℤ}
use code_zard.Billing.Money.{Money, is_zero}

pub data Cadence : Type 0 where
  weekly monthly one_off : Cadence

-- Lengths of time are in microseconds.
abbrev pub day : ℕ
day = 86_400_000_000

abbrev pub week : ℕ
week = 7 * day

abbrev month : ℕ
month = 30 * day

pub record Plan : Type 0 where
  pub id : String
  pub name : String
  pub price : Money
  pub tokens : ℤ
  pub cadence : Cadence
  pub description : String
  pub overage : Bool

-- `PERIODS.get(cadence, MONTH)`
abbrev period_of : Cadence → ℕ
period_of weekly = week
period_of monthly = month
period_of one_off = month

unfoldable pub period : Plan → ℕ
period p = period_of p.cadence

unfoldable pub is_free : Plan → Bool
unfolding is_zero
is_free p = is_zero p.price

pub record Pack : Type 0 where
  pub id : String
  pub name : String
  pub price : Money
  pub tokens : ℤ
  pub description : String

pub data Product : Type 0 where
  plan : Plan → Product
  pack : Pack → Product

abbrev pub product_id : Product → String
product_id (plan p) = p.id
product_id (pack p) = p.id

abbrev pub product_name : Product → String
product_name (plan p) = p.name
product_name (pack p) = p.name

abbrev pub product_tokens : Product → ℤ
product_tokens (plan p) = p.tokens
product_tokens (pack p) = p.tokens

abbrev pub product_price : Product → Money
product_price (plan p) = p.price
product_price (pack p) = p.price
