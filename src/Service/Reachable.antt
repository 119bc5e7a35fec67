-- ===== src/Service/Reachable.antt =====
-- The sales keep the ledger sound too, and so does any sequence of calls of the service.
use code_zard.Prelude.{
  ℕ, String, Option, none, some, Bool, true, false, List, [], ◌∷◌, ◌≡◌, Option-cases, inl, inr,
}
use code_zard.Prelude.Int.{ℤ, pos, max_ℤ}
use code_zard.Billing.Errors.{BillingError}
use code_zard.Billing.Money.{Money}
use code_zard.Billing.Pricing.{Usage}
use code_zard.Billing.Products.{Product}
use code_zard.Billing.Ledger.{EntryKind, total, balance_of}
use code_zard.Billing.Ledger.Conservation.{net, total-balance_of}
use code_zard.Billing.Invoice.{Invoice, ObservedPayment}
use code_zard.Billing.Settlement.{settles}
use code_zard.Store.{empty_db, all_entries, open_invoices}
use code_zard.Service.World.{Env, World}
use code_zard.Service.Accounts.{balance, credit, charge}
use code_zard.Service.Periods.{settle_period, authorize}
use code_zard.Service.Sales.{
  plan_refusal, or_raise, quote_invoice, sell, checkout, deliver_product, deliver, settle_invoice,
  act_on, confirm_seen, confirm_row, confirm, sweep, reconcile,
}
use code_zard.Service.Views.{view}
use code_zard.Service.Keeps.{Keeps, keeps_rules, Keeps-pure, Keeps-raise}
use code_zard.Service.Soundness.{IsSound}
use code_zard.Service.Conserves.{
  put_subscription-IsSound, put_invoice-IsSound, credit-IsSound, charge-IsSound,
  settle_period-IsSound, authorize-IsSound,
}

pub Keeps-or_raise : {A : Type 0} (o : Option A) (e : BillingError) → Keeps IsSound (or_raise o e)
Keeps-or_raise none e = Keeps-raise e
Keeps-or_raise (some a) e = Keeps-pure a

ruleset sale_rules =
    (keeps_rules, Keeps-or_raise, put_invoice-IsSound, put_subscription-IsSound, credit-IsSound)

module _ (env : Env) where
  quote_invoice-IsSound :
      (account : String) (product : Product) (asset : String)
      → Keeps IsSound (quote_invoice env account product asset)
  unfolding quote_invoice
  quote_invoice-IsSound account product asset = search sale_rules depth 9

  sell-IsSound :
      (account asset : String) (product : Product) → Keeps IsSound (sell env account asset product)
  unfolding sell
  sell-IsSound account asset product = elim (Option-cases (plan_refusal env product)) [
    | inl fine ↦ rw (fine, sell) (search (keeps_rules, quote_invoice-IsSound))
    | inr (e, refused) ↦ rw (refused, sell) (Keeps-raise e)
  ]

  checkout-IsSound : (account sku asset : String) → Keeps IsSound (checkout env account sku asset)
  unfolding checkout
  checkout-IsSound account sku asset = search (keeps_rules, sell-IsSound)

  deliver_product-IsSound :
      (i : Invoice) (product : Product) → Keeps IsSound (deliver_product env i product)
  unfolding deliver_product
  deliver_product-IsSound i (Product.pack p) = search keeps_rules
  deliver_product-IsSound i (Product.plan p) = search sale_rules

  settle_invoice-IsSound :
      (i : Invoice) (payment : ObservedPayment) → Keeps IsSound (settle_invoice env i payment)
  unfolding settle_invoice deliver
  settle_invoice-IsSound i payment = search (sale_rules, deliver_product-IsSound) depth 9

  confirm_seen-IsSound :
      (i : Invoice) (seen : Option ObservedPayment) → Keeps IsSound (confirm_seen env i seen)
  confirm_seen-IsSound i none = unfold confirm_seen in search sale_rules
  confirm_seen-IsSound i (some payment) = unfold confirm_seen in go (settles payment i)
    where
      go : (verdict : Option Bool) → Keeps IsSound (act_on env i payment verdict)
      go none = unfold act_on in search keeps_rules
      go (some true) = unfold act_on in settle_invoice-IsSound i payment
      go (some false) = unfold act_on in search keeps_rules

  confirm-IsSound : (id : String) → Keeps IsSound (confirm env id)
  unfolding confirm confirm_row
  confirm-IsSound id = search (sale_rules, confirm_seen-IsSound) depth 8

  sweep-IsSound :
      (later : List Invoice) (w : World) → IsSound w.db → IsSound (sweep env later w).1.db
  unfolding sweep
  sweep-IsSound [] w h = h
  sweep-IsSound (i ∷ later) w h =
      let (r, w') = confirm env i.id w in sweep-IsSound later w' ((confirm-IsSound i.id).at w h)

  view-IsSound : (account : String) (limit : ℕ) → Keeps IsSound (view env account limit)
  unfolding view balance
  view-IsSound account limit = search (keeps_rules, settle_period-IsSound env) depth 9

-- A call of one of the methods.
pub data Call : Type 0 where
  credit_call : String → ℤ → EntryKind → String → Money → String → Call
  charge_call : String → String → Usage → Call
  settle_call : String → Call
  authorize_call : String → ℤ → Call
  checkout_call : String → String → String → Call
  confirm_call : String → Call
  reconcile_call : ℕ → Call
  view_call : String → ℕ → Call

-- What a call leaves, whether it returns or raises.
unfoldable pub run : Env → Call → World → World
run env (credit_call a t k r m memo) w = (credit env a t k r m memo w).1
run env (charge_call a id u) w = (charge env a id u w).1
run env (settle_call a) w = (settle_period env a w).1
run env (authorize_call a needed) w = (authorize env a needed w).1
run env (checkout_call a sku asset) w = (checkout env a sku asset w).1
run env (confirm_call id) w = (confirm env id w).1
run env (reconcile_call limit) w = (reconcile env limit w).1
run env (view_call a limit) w = (view env a limit w).1

unfoldable pub run_all : Env → List Call → World → World
run_all env [] w = w
run_all env (c ∷ cs) w = run_all env cs (run env c w)

abbrev pub empty_world : World
empty_world = record { db = empty_db; readings = 0 }

pub run-IsSound : (env : Env) (c : Call) (w : World) → IsSound w.db → IsSound (run env c w).db
unfolding run reconcile
run-IsSound env (credit_call a t k r m memo) w h = (credit-IsSound env a t k r m memo).at w h
run-IsSound env (charge_call a id u) w h = (charge-IsSound env a id u).at w h
run-IsSound env (settle_call a) w h = (settle_period-IsSound env a).at w h
run-IsSound env (authorize_call a needed) w h = (authorize-IsSound env a needed).at w h
run-IsSound env (checkout_call a sku asset) w h = (checkout-IsSound env a sku asset).at w h
run-IsSound env (confirm_call id) w h = (confirm-IsSound env id).at w h
run-IsSound env (reconcile_call limit) w h = sweep-IsSound env (open_invoices limit w.db) w h
run-IsSound env (view_call a limit) w h = (view-IsSound env a limit).at w h

run_all-IsSound :
    (env : Env) (cs : List Call) (w : World) → IsSound w.db → IsSound (run_all env cs w).db
unfolding run_all
run_all-IsSound env [] w h = h
run_all-IsSound env (c ∷ cs) w h = run_all-IsSound env cs (run env c w) (run-IsSound env c w h)

pub empty-IsSound : IsSound empty_db
unfolding all_entries
empty-IsSound account = tt

-- From an empty store, whatever is called in whatever order, with whatever the clock, the payment
-- network and the contract answer, every account's balance is the sum of its rows, or zero where it
-- spent more than came in.
pub balance_is_sum :
    (env : Env) (cs : List Call) (account : String)
    → let rows = all_entries account (run_all env cs empty_world).db in
      total (balance_of account rows) ≡ max_ℤ (pos 0) (net rows)
balance_is_sum env cs account =
    let w = run_all env cs empty_world in
    total-balance_of account (all_entries account w.db)
      (run_all-IsSound env cs empty_world empty-IsSound account)
