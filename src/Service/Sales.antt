-- ===== src/Service/Sales.antt =====
-- The sales of `application/billing_service.py`: `checkout`, `confirm`, `_deliver` and `reconcile`.
use code_zard.Prelude.{
  ℕ, ◌+◌, String, Option, none, some, Bool, true, false, not, List, [], ◌∷◌, if◌then◌else◌,
}
use code_zard.Prelude.Result.{Result, ok, err}
use code_zard.Prelude.Text.{same, concat, upper}
use code_zard.Billing.Errors.{
  BillingError, invoice_not_found, subscribed_on_chain, costs_nothing, no_destination,
  network_failed, invalid_operation,
}
use code_zard.Billing.Products.{
  Plan, is_free, Product, product_id, product_name, product_tokens, product_price,
}
use code_zard.Billing.Catalog
use code_zard.Billing.Ledger.{EntryKind, grant, purchase}
use code_zard.Billing.Subscription.{Subscription, begin, renewed}
use code_zard.Billing.Invoice.{
  Invoice, InvoiceStatus, invoice_ttl, is_paid, is_open, mark_paid, mark_expired, ObservedPayment,
}
use code_zard.Billing.Settlement.{settles}
use code_zard.Store.{invoice, put_invoice, open_invoices, subscription, put_subscription}
use code_zard.Service.World.{
  Env, World, Action, pure, raise, ◌>>=◌, ◌>>◌, lift, reading, query, write,
}
use code_zard.Service.Accounts.{credit}

abbrev is_plan : Product → Bool
is_plan (Product.plan p) = true
is_plan (Product.pack p) = false

-- The two refusals of `checkout` that are about plans.
abbrev pub plan_refusal : Env → Product → Option BillingError
plan_refusal env (Product.pack p) = none
plan_refusal env (Product.plan p) =
    if is_free p
    then some (costs_nothing p.name)
    else if env.chain_available
    then some (subscribed_on_chain p.name)
    else none

abbrev pub or_raise : {A : Type 0} → Option A → BillingError → Action A
or_raise none e = raise e
or_raise (some a) e = pure a

-- `asset or self._asset`
abbrev asset_or_default : Env → String → String
asset_or_default env asset = if same asset "" then env.asset else asset

-- The invoice that `checkout` writes, once nothing refuses it.
unfoldable pub quote_invoice : Env → String → Product → String → Action Invoice
quote_invoice env account product asset = do
  now ← reading env.clock
  id ← reading env.new_invoice_id
  quoted ← reading (λ n. env.quote n (product_price product) asset)
  amount ← or_raise quoted network_failed
  write (
      put_invoice (record {
        id = id;
        account = account;
        sku = product_id product;
        tokens = product_tokens product;
        price = product_price product;
        asset = asset;
        amount = amount;
        destination = env.destination;
        created_at = now;
        expires_at = now + invoice_ttl;
        status = InvoiceStatus.pending;
        kind = if is_plan product then "plan" else "pack";
        tx_hash = "";
        payer = "";
      }))

unfoldable pub sell : Env → String → String → Product → Action Invoice
unfolding quote_invoice
sell env account asset product = elim (plan_refusal env product) [
  | some e ↦ raise e
  | none ↦
      if same env.destination ""
      then raise no_destination
      else quote_invoice env account product (upper (asset_or_default env asset))
]

unfoldable pub checkout : Env → String → String → String → Action Invoice
unfolding sell
checkout env account sku asset = do
  product ← lift (Catalog.product env.catalog sku)
  sell env account asset product

-- `f"invoice:{invoice.id}"`
abbrev invoice_reference : Invoice → String
invoice_reference i = concat "invoice:" i.id

abbrev delivery_kind : Product → EntryKind
delivery_kind (Product.plan p) = grant
delivery_kind (Product.pack p) = purchase

abbrev next_subscription : Invoice → Plan → ℕ → Option Subscription → Subscription
next_subscription i plan now none = begin i.account plan now
next_subscription i plan now (some current) =
    if same current.plan_id plan.id then renewed current plan now else begin i.account plan now

unfoldable pub deliver_product : Env → Invoice → Product → Action Unit
deliver_product env i (Product.pack p) = pure tt
deliver_product env i (Product.plan p) = do
  now ← reading env.clock
  current ← query (subscription i.account)
  write (put_subscription (next_subscription i p now current))
  pure tt

-- `_deliver`
unfoldable pub deliver : Env → Invoice → Action Unit
unfolding deliver_product
deliver env i = do
  product ← lift (Catalog.product env.catalog i.sku)
  credit env i.account i.tokens (delivery_kind product) (invoice_reference i) i.price
      (concat (product_name product) (concat " · " (concat i.amount (concat " " i.asset))))
  deliver_product env i product

unfoldable pub settle_invoice : Env → Invoice → ObservedPayment → Action Invoice
settle_invoice env i payment = do
  paid ← write (put_invoice (mark_paid i payment.tx_hash payment.payer))
  deliver env paid
  pure paid

-- `payment.settles(invoice)` and what follows from it.
unfoldable pub act_on : Env → Invoice → ObservedPayment → Option Bool → Action Invoice
unfolding settle_invoice
act_on env i payment none = raise invalid_operation
act_on env i payment (some true) = settle_invoice env i payment
act_on env i payment (some false) = pure i

-- What the payment network has seen decides what becomes of an invoice that is not paid.
unfoldable pub confirm_seen : Env → Invoice → Option ObservedPayment → Action Invoice
unfolding act_on
confirm_seen env i none = do
  now ← reading env.clock
  if not (is_open i now) then write (put_invoice (mark_expired i)) else pure i
confirm_seen env i (some payment) = act_on env i payment (settles payment i)

unfoldable pub confirm_row : Env → Invoice → Action Invoice
unfolding confirm_seen
confirm_row env i = if is_paid i.status then pure i else do
  answer ← reading (λ n. env.payment_for n i)
  seen ← or_raise answer network_failed
  confirm_seen env i seen

unfoldable pub confirm : Env → String → Action Invoice
unfolding confirm_row
confirm env invoice_id = do
  row ← query (invoice invoice_id)
  i ← or_raise row (invoice_not_found invoice_id)
  confirm_row env i

-- The `try` around one invoice of the sweep: what it wrote stays, and a raise is only logged.
abbrev tally : Result BillingError Invoice → List Invoice → List Invoice
tally (err e) settled = settled
tally (ok i) settled = if is_paid i.status then i ∷ settled else settled

unfoldable pub sweep : Env → List Invoice → World → List Invoice × World
sweep env [] w = ([], w)
sweep env (i ∷ later) w =
    let (r, w') = confirm env i.id w in
    let (settled, w'') = sweep env later w' in (tally r settled, w'')

unfoldable pub reconcile : Env → ℕ → World → List Invoice × World
unfolding sweep
reconcile env limit w = sweep env (open_invoices limit w.db) w
