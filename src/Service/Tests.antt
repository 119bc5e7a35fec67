-- ===== src/Service/Tests.antt =====
-- A small gateway that exercises the theorems about the service.
use code_zard.Prelude.{◌*◌, String, Option, none, some, false, [], ◌∷◌, ◌≡◌, ◌≢◌, ◌⊎◌, refl, arith}
use code_zard.Prelude.Text.{concat, spell, spell_grouped}
use code_zard.Prelude.Int.{pos, negsuc, ◌*ℤ◌, ◌//ℤ◌, ◌+ℤ◌, ◌≤ℤ◌, max_ℤ}
use code_zard.Prelude.Result.{Result, ok, err}
use code_zard.Billing.Errors.{BillingError, insufficient_funds, unknown_product}
use code_zard.Billing.Money.{zero_money, scaled, is_zero}
use code_zard.Billing.Pricing.{default_pricing, Usage, billable, tokens_for, is_empty}
use code_zard.Billing.Products.{week, Plan, monthly}
use code_zard.OnChain.{OnChainSubscription}
use code_zard.Service.Mirror.{mirrored_once}
use code_zard.Service.Undelivered.{settle_invoice_unsold}
use code_zard.Service.Sales.{settle_invoice, confirm}
use code_zard.Billing.Invoice.{Invoice, ObservedPayment, pending, mark_paid}
use code_zard.Billing.Catalog.{default_catalog}
use code_zard.Billing.Ledger.{LedgerEntry, grant, purchase, usage, total, balance_of}
use code_zard.Store.{
  fits_column, all_entries, append, has_id, find_reference, subscription, find_subscription,
  put_subscription,
}
use code_zard.Billing.Subscription.{Subscription, active, begin}
use code_zard.Service.World.{Env, World}
use code_zard.Service.Accounts.{credit, charge}
use code_zard.Service.Periods.{
  mirror_plan, settle_period, authorize, mirror_chain, begin_free, begin_on, grant_period,
  settle_row,
}
use code_zard.Service.Reachable.{empty_world}
use code_zard.Service.Exactness.{credit_once, charge_once, authorize_lem}

-- A day passes between two readings of the clock.
abbrev gateway : Env
gateway = record {
  catalog = default_catalog default_pricing;
  asset = "XLM";
  reserve = pos 50_000;
  clock = λ n. n * 86_400_000_000;
  entry_id = λ n. concat "e" (spell (pos n));
  new_invoice_id = λ n. concat "cz" (spell (pos n));
  isoformat = λ t. spell (pos t);
  destination = "GD";
  quote = λ n price asset. some "10.0000000";
  payment_for = λ n i. some none;
  chain_available = false;
  contract_id = "";
  chain_subscription = λ n account. some none;
}

abbrev generation : Usage
generation = record {
  tokens = pos 20_000;
  calls = pos 3;
  cost = record { micros = pos 500_000 };
  simulated = false;
}

invoice_named : ◌≢◌ {A = String} "invoice:cz1" ""
invoice_named e = cc

abbrev bought : Result BillingError LedgerEntry × World
bought = credit gateway "GA" (pos 700) purchase "invoice:cz1" zero_money "a pack" empty_world

abbrev bought_row : LedgerEntry
bought_row = record {
  id = "e0";
  account = "GA";
  kind = purchase;
  tokens = pos 700;
  at = 86_400_000_000;
  amount = zero_money;
  reference = "invoice:cz1";
  memo = "a pack";
}

credit_once_example :
    let again = credit gateway "GB" (pos 900) grant "invoice:cz1" zero_money "again" bought.1 in
    (again.0 ≡ ok bought_row) × (again.1.db ≡ bought.1.db)
unfolding credit append has_id find_reference spell fits_column
credit_once_example =
    credit_once gateway "GA" "GB" "invoice:cz1" (pos 700) (pos 900) purchase grant zero_money
      zero_money "a pack" "again" empty_world bought_row invoice_named refl (omega arith) refl refl

abbrev debited : Result BillingError (Option LedgerEntry) × World
debited = charge gateway "GA" "r1" generation empty_world

abbrev debited_row : LedgerEntry
debited_row = record {
  id = "e0";
  account = "GA";
  kind = usage;
  tokens = negsuc 108_332;
  at = 86_400_000_000;
  amount = generation.cost;
  reference = "run:r1";
  memo = "20,000 tokens · 3 calls";
}

charge_once_example :
    let again = charge gateway "GA" "r1" generation debited.1 in
    (again.0 ≡ ok (some debited_row)) × (again.1.db ≡ debited.1.db)
unfolding charge append has_id find_reference spell spell_grouped billable scaled tokens_for is_zero
    is_empty max_ℤ ◌*ℤ◌ ◌//ℤ◌ ◌+ℤ◌ default_catalog
charge_once_example = charge_once gateway "GA" "GA" "r1" generation empty_world debited_row refl

abbrev free_week : Subscription
free_week = record {
  account = "GA";
  plan_id = "free";
  started_at = 0;
  renews_at = week;
  status = active;
}

settled_fresh : (settle_period gateway "GA" empty_world).0 ≡ ok (some free_week)
unfolding settle_period mirror_chain begin_free begin_on settle_row subscription find_subscription
    code_zard.Billing.Catalog.first_free default_catalog code_zard.Billing.Products.is_free
    grant_period credit max_ℤ ◌//ℤ◌ ◌*ℤ◌ append has_id put_subscription find_reference begin
settled_fresh = refl

-- A fresh account holds the free week, which is more than the reserve.
authorize_lem_example :
    let settled = (settle_period gateway "GA" empty_world).1 in
    let b = balance_of "GA" (all_entries "GA" settled.db) in
    let required = max_ℤ (pos 0) gateway.reserve in
    ((required ≤ℤ total b) × (authorize gateway "GA" (pos 0) empty_world ≡ (ok b, settled)))
    ⊎ ((¬ (required ≤ℤ total b))
        × (authorize gateway "GA" (pos 0) empty_world
            ≡ (err (insufficient_funds required (total b)), settled)))
authorize_lem_example = authorize_lem gateway "GA" (pos 0) empty_world settled_fresh

abbrev studio : Plan
studio = record {
  id = "studio";
  name = "Studio";
  price = record { micros = pos 20_000_000 };
  tokens = pos 2_000_000;
  cadence = monthly;
  description = "";
  overage = false;
}

abbrev on_chain : OnChainSubscription
on_chain = record { plan = "studio"; started = 7_000_000; expires = 9_000_000; periods = 1 }

abbrev mirrored : Result BillingError (Option Subscription) × World
mirrored = mirror_plan gateway "GA" on_chain (some studio) empty_world

abbrev mirrored_subscription : Subscription
mirrored_subscription = record {
  account = "GA";
  plan_id = "studio";
  started_at = 7_000_000;
  renews_at = 9_000_000;
  status = active;
}

mirrored_once_example :
    (mirror_plan gateway "GB" on_chain (some studio) mirrored.1).1.db.ledger ≡ mirrored.1.db.ledger
unfolding mirror_plan credit append has_id put_subscription find_reference
mirrored_once_example =
    mirrored_once gateway "GA" "GB" on_chain studio empty_world (some mirrored_subscription)
      (omega arith) refl

-- A call paid through x402, which is no product of the catalog.
abbrev x402_invoice : Invoice
x402_invoice = record {
  id = "cz9";
  account = "GA";
  sku = "x402";
  tokens = pos 1_000;
  price = record { micros = pos 10_000 };
  asset = "XLM";
  amount = "0.1000000";
  destination = "GD";
  created_at = 0;
  expires_at = 900_000_000;
  status = pending;
  kind = "x402";
  tx_hash = "";
  payer = "";
}

abbrev x402_payment : ObservedPayment
x402_payment = record {
  tx_hash = "t1";
  payer = "GA";
  destination = "GD";
  asset = "XLM";
  amount = "0.1000000";
  memo = "cz9";
  at = 1_000_000;
}

abbrev billed_world : World
billed_world = record {
  db = record { ledger = []; invoices = x402_invoice ∷ []; subscriptions = [] };
  readings = 0;
}

settle_invoice_unsold_example :
    let w' = (settle_invoice gateway x402_invoice x402_payment billed_world).1 in
    ((settle_invoice gateway x402_invoice x402_payment billed_world).0
      ≡ err (unknown_product "x402"))
    × (w'.db.ledger ≡ [])
    × (confirm gateway "cz9" w' ≡ (ok (mark_paid x402_invoice "t1" "GA"), w'))
unfolding code_zard.Store.invoice code_zard.Store.find_invoice code_zard.Billing.Catalog.product
    default_catalog
settle_invoice_unsold_example =
    settle_invoice_unsold gateway x402_invoice x402_payment (unknown_product "x402") billed_world
      refl refl
