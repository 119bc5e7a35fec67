-- ===== src/Service/Undelivered.antt =====
-- `confirm` of `application/billing_service.py` for an invoice whose product is no longer sold.
use code_zard.Prelude.{String, some, ◌≡◌, refl, ap, ◌∙◌}
use code_zard.Prelude.Text.{same_refl}
use code_zard.Prelude.Result.{ok, err}
use code_zard.Billing.Errors.{BillingError}
use code_zard.Billing.Catalog
use code_zard.Billing.Invoice.{Invoice, ObservedPayment, mark_paid, paid}
use code_zard.Store.{invoice, put_invoice}
use code_zard.Store.Invoices.{invoice-put_invoice}
use code_zard.Service.World.{Env, World}
use code_zard.Service.Sales.{settle_invoice, deliver, confirm, confirm_row}

-- The world when the invoice is written as paid.
abbrev paid_world : Invoice → ObservedPayment → World → World
paid_world i payment w = record w {
  db = (put_invoice (mark_paid i payment.tx_hash payment.payer) w.db).1;
}

settle_raises :
    (env : Env) (i : Invoice) (payment : ObservedPayment) (e : BillingError) (w : World)
    → Catalog.product env.catalog i.sku ≡ err e
    → settle_invoice env i payment w ≡ (err e, paid_world i payment w)
unfolding settle_invoice deliver mark_paid put_invoice
settle_raises env i payment e w gone = rw gone

paid_row :
    (i : Invoice) (payment : ObservedPayment) (w : World)
    → invoice i.id w.db ≡ some i
    → invoice i.id (paid_world i payment w).db ≡ some (mark_paid i payment.tx_hash payment.payer)
unfolding mark_paid
paid_row i payment w here =
    invoice-put_invoice (mark_paid i payment.tx_hash payment.payer) i.id w.db
    ∙ rw (same_refl i.id, here)

confirm_paid :
    (env : Env) (id : String) (i : Invoice) (w : World)
    → invoice id w.db ≡ some i
    → i.status ≡ paid
    → confirm env id w ≡ (ok i, w)
unfolding confirm confirm_row
confirm_paid env id i w here done = rw (here, done)

-- A stored invoice whose payment arrived, but whose product the catalog no longer has, is written as
-- paid while its settlement raises and credits nothing; confirming it after that returns it as paid
-- and changes nothing.
pub settle_invoice_unsold :
    (env : Env) (i : Invoice) (payment : ObservedPayment) (e : BillingError) (w : World)
    → invoice i.id w.db ≡ some i
    → Catalog.product env.catalog i.sku ≡ err e
    → let w' = (settle_invoice env i payment w).1 in
      ((settle_invoice env i payment w).0 ≡ err e)
      × (w'.db.ledger ≡ w.db.ledger)
      × (confirm env i.id w' ≡ (ok (mark_paid i payment.tx_hash payment.payer), w'))
unfolding put_invoice mark_paid
settle_invoice_unsold env i payment e w here gone =
    let raised = settle_raises env i payment e w gone in
    let again = confirm_paid env i.id _ (paid_world i payment w) (paid_row i payment w here) refl in
    (ap (λ x. x.0) raised, ap (λ x. x.1.db.ledger) raised, rw (raised) again)
