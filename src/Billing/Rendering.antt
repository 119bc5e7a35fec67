-- ===== src/Billing/Rendering.antt =====
-- How `domain/billing.py` renders its values for clients: the text of an amount, and the `as_json`s.
use code_zard.Prelude.{
  ℕ, ◌+◌, ◌/◌, ◌^◌, String, Option, none, some, List, [], ◌∷◌, ltb, if◌then◌else◌, ◌≡◌, refl,
}
use code_zard.Prelude.Int.{pos, negsuc, pos_part, neg_part}
use code_zard.Prelude.Text.{concat, spell, last_digits, rstrip}
use code_zard.Prelude.Rounding.{rounded}
use code_zard.Json.{Json, null, boolean, integer, text, array, object, Items, nil, item, end, field}
use code_zard.Billing.Money.{Money}
use code_zard.Billing.Pricing.{Usage, Pricing}
use code_zard.Billing.Ledger.{
  EntryKind, grant, purchase, usage, refund, adjustment, expiry, LedgerEntry, Balance, total,
  UsageSummary,
}
use code_zard.Billing.Products.{Cadence, weekly, monthly, one_off, day, Plan, period, is_free, Pack}
use code_zard.Billing.Catalog.{Catalog}
use code_zard.Billing.Subscription as Subscription
use code_zard.Billing.Subscription.{Subscription, SubscriptionStatus}
use code_zard.Billing.Invoice.{Invoice, InvoiceStatus, memo_of}

-- `Money.__str__`: six decimals, without the zeros at the end and without a point at the end.
unfoldable pub money_text : Money → String
unfolding rounded spell last_digits rstrip
money_text m =
    let n = rounded (pos_part m.micros + neg_part m.micros) in
    let amount = concat (spell (pos (n / 10 ^ 6))) (concat "." (last_digits 6 n)) in
    let shown = rstrip b'.' (rstrip b'0' amount) in
    if ltb 0 (neg_part m.micros) then concat "-" shown else shown

cents : money_text (record { micros = negsuc 1_249_999 }) ≡ "-1.25"
unfolding money_text
cents = refl

dollars : money_text (record { micros = pos 100_000_000 }) ≡ "100"
unfolding money_text
dollars = refl

-- `Money.as_json`
unfoldable pub money_json : Money → Json
unfolding money_text
money_json m = object (field "micros" (integer m.micros) (field "usd" (text (money_text m)) end))

abbrev cadence_text : Cadence → String
cadence_text weekly = "weekly"
cadence_text monthly = "monthly"
cadence_text one_off = "one_off"

-- `Plan.as_json`
unfoldable pub plan_json : Plan → Json
unfolding money_json period is_free
plan_json p = object (
    field "id" (text p.id) (
      field "kind" (text "plan") (
        field "name" (text p.name) (
          field "price" (money_json p.price) (
            field "tokens" (integer p.tokens) (
              field "cadence" (text (cadence_text p.cadence)) (
                field "period_days" (integer (pos (period p / day))) (
                  field "free" (boolean (is_free p)) (
                    field "description" (text p.description)
                      (field "overage" (boolean p.overage) end))))))))))

-- `Pack.as_json`
unfoldable pub pack_json : Pack → Json
unfolding money_json
pack_json p = object (
    field "id" (text p.id) (
      field "kind" (text "pack") (
        field "name" (text p.name) (
          field "price" (money_json p.price)
            (field "tokens" (integer p.tokens) (field "description" (text p.description) end))))))

-- `Pricing.as_json`
unfoldable pub pricing_json : Pricing → Json
unfolding money_json
pricing_json p = object (
    field "per_million" (money_json p.per_million) (
      field "margin_bps" (integer p.margin_bps)
        (field "minimum_charge" (integer p.minimum_charge) end)))

unfoldable pub items_of : {A : Type 0} → (A → Json) → List A → Items
items_of f [] = nil
items_of f (x ∷ xs) = item (f x) (items_of f xs)

-- `Catalog.as_json`
unfoldable pub catalog_json : Catalog → Json
unfolding items_of plan_json pack_json pricing_json
catalog_json c = object (
    field "plans" (array (items_of plan_json c.plans)) (
      field "packs" (array (items_of pack_json c.packs))
        (field "pricing" (pricing_json c.pricing) end)))

-- `Usage.as_json`
unfoldable pub usage_json : Usage → Json
unfolding money_json
usage_json u = object (
    field "tokens" (integer u.tokens) (
      field "calls" (integer u.calls)
        (field "cost" (money_json u.cost) (field "simulated" (boolean u.simulated) end))))

abbrev kind_text : EntryKind → String
kind_text grant = "grant"
kind_text purchase = "purchase"
kind_text usage = "usage"
kind_text refund = "refund"
kind_text adjustment = "adjustment"
kind_text expiry = "expiry"

-- `Balance.as_json`
unfoldable pub balance_json : Balance → Json
unfolding total
balance_json b = object (
    field "account" (text b.account) (
      field "granted" (integer b.granted)
        (field "purchased" (integer b.purchased) (field "total" (integer (total b)) end))))

abbrev status_text : SubscriptionStatus → String
status_text Subscription.active = "active"
status_text Subscription.expired = "expired"
status_text Subscription.cancelled = "cancelled"

abbrev invoice_status_text : InvoiceStatus → String
invoice_status_text InvoiceStatus.pending = "pending"
invoice_status_text InvoiceStatus.paid = "paid"
invoice_status_text InvoiceStatus.expired = "expired"
invoice_status_text InvoiceStatus.cancelled = "cancelled"

-- How an instant is spelled comes from outside.
module _ (isoformat : ℕ → String) where
  -- `LedgerEntry.as_json`
  unfoldable pub entry_json : LedgerEntry → Json
  unfolding money_json
  entry_json e = object (
      field "id" (text e.id) (
        field "kind" (text (kind_text e.kind)) (
          field "tokens" (integer e.tokens) (
            field "at" (text (isoformat e.at)) (
              field "amount" (money_json e.amount)
                (field "reference" (text e.reference) (field "memo" (text e.memo) end)))))))

  abbrev pub entries_json : List LedgerEntry → Items
  entries_json es = items_of entry_json es

  -- `Subscription.as_json`
  unfoldable pub subscription_json : Subscription → Json
  subscription_json s = object (
      field "account" (text s.account) (
        field "plan" (text s.plan_id) (
          field "status" (text (status_text s.status)) (
            field "started_at" (text (isoformat s.started_at))
              (field "renews_at" (text (isoformat s.renews_at)) end)))))

  -- `UsageSummary.as_json`
  abbrev instant_or_null : Option ℕ → Json
  instant_or_null none = null
  instant_or_null (some t) = text (isoformat t)

  unfoldable pub usage_summary_json : UsageSummary → Json
  unfolding money_json
  usage_summary_json u = object (
      field "tokens" (integer u.tokens) (
        field "runs" (integer (pos u.runs))
          (field "cost" (money_json u.cost) (field "since" (instant_or_null u.since) end))))

  -- `Invoice.as_json`
  unfoldable pub invoice_json : Invoice → Json
  unfolding money_json memo_of
  invoice_json i = object (
      field "id" (text i.id) (
        field "account" (text i.account) (
          field "sku" (text i.sku) (
            field "kind" (text i.kind) (
              field "tokens" (integer i.tokens) (
                field "price" (money_json i.price) (
                  field "asset" (text i.asset) (
                    field "amount" (text i.amount) (
                      field "destination" (text i.destination) (
                        field "memo" (text (memo_of i)) (
                          field "status" (text (invoice_status_text i.status)) (
                            field "created_at" (text (isoformat i.created_at)) (
                              field "expires_at" (text (isoformat i.expires_at))
                                (field "tx_hash" (text i.tx_hash) end))))))))))))))
