-- ===== src/Service/World.antt =====
-- What `BillingService` (`application/billing_service.py`) runs in: the tables of its store, and a
-- count of the readings that it takes of the outside. A method returns or raises, and what it wrote
-- before a raise stays written.
use code_zard.Prelude.{ℕ, ◌+◌, String, Bool, Option}
use code_zard.Prelude.Int.{ℤ}
use code_zard.Prelude.Result.{Result, ok, err}
use code_zard.Billing.Errors.{BillingError}
use code_zard.Billing.Money.{Money}
use code_zard.Billing.Catalog.{Catalog}
use code_zard.Billing.Invoice.{Invoice, ObservedPayment}
use code_zard.OnChain.{OnChainSubscription}
use code_zard.Store.{Db}

-- The collaborators of the service and its settings. A call that reads the outside is handed the
-- number of the reading, so that two readings may differ; a `none` outermost is a raise.
pub record Env : Type 0 where
  pub catalog : Catalog
  pub asset : String
  pub reserve : ℤ
  pub clock : ℕ → ℕ
  pub entry_id : ℕ → String
  pub new_invoice_id : ℕ → String
  pub isoformat : ℕ → String
  pub destination : String
  pub quote : ℕ → Money → String → Option String
  pub payment_for : ℕ → Invoice → Option (Option ObservedPayment)
  pub chain_available : Bool
  pub contract_id : String
  pub chain_subscription : ℕ → String → Option (Option OnChainSubscription)

pub record World : Type 0 where
  pub db : Db
  pub readings : ℕ

abbrev pub Action : Type 0 → Type 0
Action A = World → Result BillingError A × World

abbrev pub pure : {A : Type 0} → A → Action A
pure a w = (ok a, w)

abbrev pub raise : {A : Type 0} → BillingError → Action A
raise e w = (err e, w)

infixl 5 ◌>>◌ ◌>>=◌
abbrev pub ◌>>=◌ : {R S : Type 0} → Action R → (R → Action S) → Action S
◌>>=◌ act next w = let (r, after) = act w in elim r [ ok x ↦ next x after | err e ↦ (err e, after) ]

abbrev pub lift : {A : Type 0} → Result BillingError A → Action A
lift r w = (r, w)

-- A reading of the outside.
abbrev pub reading : {A : Type 0} → (ℕ → A) → Action A
reading f w = (ok (f w.readings), record w { readings = w.readings + 1 })

-- A query of the store, and a statement that writes and cannot raise.
abbrev pub query : {A : Type 0} → (Db → A) → Action A
query f w = (ok (f w.db), w)

abbrev pub write : {A : Type 0} → (Db → A × Db) → Action A
write f w = let (a, db') = f w.db in (ok a, record w { db = db' })

-- A statement that may raise.
abbrev pub execute : {A : Type 0} → (Db → Result BillingError A × Db) → Action A
execute f w = let (r, db') = f w.db in (r, record w { db = db' })

-- One action and then another, whatever the first gave.
abbrev pub ◌>>◌ : {R S : Type 0} → Action R → Action S → Action S
act >> next = act >>= λ _. next
