-- ===== src/Billing/Pricing.antt =====
-- `Usage` and `Pricing` of `domain/billing.py`: where tokens and money meet.
pub mod Bounds
use code_zard.Prelude.{ℕ, if◌then◌else◌, ◌&&◌, ◌||◌, Bool}
use code_zard.Prelude.Int.{ℤ, pos, ◌+ℤ◌, ◌*ℤ◌, ◌//ℤ◌, leb_ℤ, max_ℤ}
use code_zard.Prelude.Result.{Result, ok, ◌>>=◌}
use code_zard.Billing.Errors.{BillingError}
use code_zard.Billing.Money.{Money, is_zero, is_zero_ℤ, scaled}

abbrev pub per_million_tokens : ℕ
per_million_tokens = 1_000_000

pub record Usage : Type 0 where
  pub tokens : ℤ
  pub calls : ℤ
  pub cost : Money
  pub simulated : Bool

-- `Usage.is_empty`
unfoldable pub is_empty : Usage → Bool
is_empty u = is_zero_ℤ u.calls && is_zero_ℤ u.tokens

pub record Pricing : Type 0 where
  pub per_million : Money
  pub margin_bps : ℤ
  pub minimum_charge : ℤ

-- The defaults of the class: six dollars a million, 30% margin, a thousand tokens a run.
abbrev pub default_pricing : Pricing
default_pricing = record {
  per_million = record { micros = pos 6_000_000 };
  margin_bps = pos 3_000;
  minimum_charge = pos 1_000;
}

unfoldable cost_of : Pricing → ℤ → Result BillingError Money
cost_of p tokens = scaled p.per_million (max_ℤ (pos 0) tokens) (pos per_million_tokens)

unfoldable pub tokens_for : Pricing → Money → ℤ
tokens_for p amount =
    if leb_ℤ p.per_million.micros (pos 0)
    then pos 0
    else max_ℤ (pos 0) (amount.micros *ℤ pos per_million_tokens //ℤ p.per_million.micros)

unfoldable pub billable : Pricing → Usage → Result BillingError ℤ
billable p u =
    if u.simulated || is_empty u
    then ok (pos 0)
    else if is_zero u.cost
    then ok (max_ℤ p.minimum_charge u.tokens)
    else do
      marked_up ← scaled u.cost (pos 10_000 +ℤ p.margin_bps) (pos 10_000)
      ok (max_ℤ p.minimum_charge (tokens_for p marked_up))
