-- ===== src/Billing/Catalog.antt =====
-- `Catalog` of `domain/billing.py`: everything on sale, looked up by its id.
use code_zard.Prelude.{ℕ, String, true, Option, none, some, List, [], ◌∷◌, ◌++◌, map, if◌then◌else◌}
use code_zard.Prelude.Int.{pos}
use code_zard.Prelude.Text.{same}
use code_zard.Prelude.Result.{Result, ok, err}
use code_zard.Billing.Errors.{BillingError, unknown_product}
use code_zard.Billing.Money.{Money, zero_money}
use code_zard.Billing.Pricing.{Pricing, tokens_for}
use code_zard.Billing.Products.{weekly, monthly, Plan, is_free, Pack, Product, product_id}

pub record Catalog : Type 0 where
  pub plans : List Plan
  pub packs : List Pack
  pub pricing : Pricing

-- `[*self.plans, *self.packs]`
unfoldable everything : Catalog → List Product
everything c = map Product.plan c.plans ++ map Product.pack c.packs

unfoldable find_product : List Product → String → Result BillingError Product
find_product [] sku = err (unknown_product sku)
find_product (p ∷ ps) sku = if same (product_id p) sku then ok p else find_product ps sku

unfoldable pub product : Catalog → String → Result BillingError Product
unfolding everything find_product
product c sku = find_product (everything c) sku

abbrev as_plan : String → Result BillingError Product → Result BillingError Plan
as_plan plan_id (ok (Product.plan p)) = ok p
as_plan plan_id (ok (Product.pack p)) = err (unknown_product plan_id)
as_plan plan_id (err e) = err e

unfoldable pub plan : Catalog → String → Result BillingError Plan
plan c plan_id = as_plan plan_id (product c plan_id)

-- `next((plan for plan in plans if plan.is_free), None)`
unfoldable pub first_free : List Plan → Option Plan
first_free [] = none
first_free (p ∷ ps) = if is_free p then some p else first_free ps

abbrev free_plan_id : String
free_plan_id = "free"

-- `Money.parse("5.00")`
abbrev free_weekly_value : Money
free_weekly_value = record { micros = pos 5_000_000 }

abbrev paid_plan : String → String → ℕ → ℕ → String → Plan
paid_plan id name micros tokens description = record {
  id = id;
  name = name;
  price = record { micros = pos micros };
  tokens = pos tokens;
  cadence = monthly;
  description = description;
  overage = true;
}

abbrev token_pack : String → String → ℕ → ℕ → Pack
token_pack id name micros tokens = record {
  id = id;
  name = name;
  price = record { micros = pos micros };
  tokens = pos tokens;
  description = "";
}

unfoldable pub default_catalog : Pricing → Catalog
unfolding tokens_for
default_catalog pricing = record {
  plans =
      record {
        id = free_plan_id;
        name = "Free";
        price = zero_money;
        tokens = tokens_for pricing free_weekly_value;
        cadence = weekly;
        description =
            "US$ 5 en tokens por semana, sin pagar nada. Se renueva solo y no se acumula.";
        overage = true;
      }
      ∷ paid_plan "starter" "Starter" 19_000_000 4_000_000
          "Para probar la idea: un proyecto mediano por semana."
      ∷ paid_plan "builder" "Builder" 49_000_000 12_000_000
          "Uso continuo, varios proyectos en paralelo."
      ∷ paid_plan "studio" "Studio" 149_000_000 40_000_000 "Equipos que generan todos los dias."
      ∷ [];
  packs =
      token_pack "tokens-1m" "1M tokens" 8_000_000 1_000_000
      ∷ token_pack "tokens-5m" "5M tokens" 35_000_000 5_000_000
      ∷ token_pack "tokens-20m" "20M tokens" 120_000_000 20_000_000
      ∷ [];
  pricing = pricing;
}
