-- ===== src/Store.antt =====
-- src/gateway/infrastructure/billing/sqlite_store.py: the three tables and the statements that
-- `SqliteBillingStore` runs on them, each one atomic under the store's lock. A row is kept as the
-- value that `_entry`, `_invoice` and `subscription` rebuild from it.
pub mod Append
pub mod Invoices
mod Tests
use code_zard.Prelude.{
  ℕ, zero, suc, ◌-◌, String, Bool, true, false, not, ◌&&◌, ◌||◌, Option, none, some, List, [], ◌∷◌,
  ◌++◌, if◌then◌else◌, leb, length, take, drop, keep,
}
use code_zard.Prelude.Text.{same}
use code_zard.Prelude.Int.{ℤ, pos, negsuc, ltb_ℤ, leb_ℤ}
use code_zard.Prelude.Result.{Result, ok, err}
use code_zard.Billing.Errors.{BillingError, duplicate_id, integer_too_large}
use code_zard.Billing.Ledger.{LedgerEntry}
use code_zard.Billing.Invoice.{Invoice, is_pending}
use code_zard.Billing.Subscription.{Subscription}

-- The tables, in the order of their rows.
pub record Db : Type 0 where
  pub ledger : List LedgerEntry
  pub invoices : List Invoice
  pub subscriptions : List Subscription

abbrev pub empty_db : Db
empty_db = record { ledger = []; invoices = []; subscriptions = [] }

-- `id TEXT NOT NULL UNIQUE`
unfoldable pub has_id : String → List LedgerEntry → Bool
has_id id [] = false
has_id id (e ∷ es) = same e.id id || has_id id es

-- `SELECT * FROM ledger WHERE reference = ? AND reference <> ''`
unfoldable pub find_reference : String → List LedgerEntry → Option LedgerEntry
find_reference r [] = none
find_reference r (e ∷ es) =
    if same e.reference r && not (same e.reference "") then some e else find_reference r es

-- The partial unique index `ledger_reference`.
abbrev pub has_row : Option LedgerEntry → Bool
has_row none = false
has_row (some _) = true

-- The handler of `IntegrityError`: the row that is there, or the error again.
abbrev recorded : LedgerEntry → Option LedgerEntry → Result BillingError LedgerEntry
recorded e (some row) = ok row
recorded e none = err (duplicate_id e.id)

-- An INTEGER column holds 64 signed bits, and the driver binds no other integer.
unfoldable pub fits_column : ℤ → Bool
fits_column n =
    leb_ℤ (negsuc 9_223_372_036_854_775_807) n && ltb_ℤ n (pos 9_223_372_036_854_775_808)

-- The two integers of a row that a caller chooses.
unfoldable pub fits_row : LedgerEntry → Bool
unfolding fits_column
fits_row e = fits_column e.tokens && fits_column e.amount.micros

-- `_append`
unfoldable pub append : LedgerEntry → Db → Result BillingError LedgerEntry × Db
unfolding fits_row
append e db =
    let existing = find_reference e.reference db.ledger in
    if not (fits_row e)
    then (err integer_too_large, db)
    else if has_id e.id db.ledger || has_row existing
    then (recorded e existing, db)
    else (ok e, record db { ledger = db.ledger ++ e ∷ [] })

-- `all_entries`: the account's rows, oldest first.
unfoldable pub all_entries : String → Db → List LedgerEntry
all_entries account db = keep (λ e. same e.account account) db.ledger

-- `max(1, limit)`
abbrev at_least_one : ℕ → ℕ
at_least_one zero = 1
at_least_one (suc n) = suc n

-- `entries`: the last rows of the account, oldest first.
unfoldable pub entries : String → ℕ → Db → List LedgerEntry
unfolding all_entries
entries account limit db =
    let rows = all_entries account db in drop (length rows - at_least_one limit) rows

-- `ON CONFLICT(id) DO UPDATE SET status, tx_hash, payer`
unfoldable pub upsert_invoice : Invoice → List Invoice → List Invoice
upsert_invoice i [] = i ∷ []
upsert_invoice i (row ∷ rows) =
    if same row.id i.id
    then record row { status = i.status; tx_hash = i.tx_hash; payer = i.payer } ∷ rows
    else row ∷ upsert_invoice i rows

-- `put_invoice`, which returns its argument and not the row.
unfoldable pub put_invoice : Invoice → Db → Invoice × Db
put_invoice i db = (i, record db { invoices = upsert_invoice i db.invoices })

unfoldable pub find_invoice : String → List Invoice → Option Invoice
find_invoice id [] = none
find_invoice id (row ∷ rows) = if same row.id id then some row else find_invoice id rows

-- `SqliteBillingStore.invoice`
unfoldable pub invoice : String → Db → Option Invoice
invoice id db = find_invoice id db.invoices

-- `ORDER BY created_at ASC`, equal instants in the order of their rows.
unfoldable pub insert_by_creation : Invoice → List Invoice → List Invoice
insert_by_creation i [] = i ∷ []
insert_by_creation i (j ∷ js) =
    if leb i.created_at j.created_at then i ∷ j ∷ js else j ∷ insert_by_creation i js

unfoldable pub sort_by_creation : List Invoice → List Invoice
unfolding insert_by_creation
sort_by_creation [] = []
sort_by_creation (i ∷ later) = insert_by_creation i (sort_by_creation later)

unfoldable pub open_invoices : ℕ → Db → List Invoice
unfolding sort_by_creation
open_invoices limit db =
    take (at_least_one limit) (sort_by_creation (keep (λ i. is_pending i.status) db.invoices))

-- `ON CONFLICT(account) DO UPDATE SET plan_id, started_at, renews_at, status`
unfoldable pub upsert_subscription : Subscription → List Subscription → List Subscription
upsert_subscription s [] = s ∷ []
upsert_subscription s (row ∷ rows) =
    if same row.account s.account
    then record row {
      plan_id = s.plan_id;
      started_at = s.started_at;
      renews_at = s.renews_at;
      status = s.status;
    }
      ∷ rows
    else row ∷ upsert_subscription s rows

unfoldable pub put_subscription : Subscription → Db → Subscription × Db
put_subscription s db = (s, record db { subscriptions = upsert_subscription s db.subscriptions })

unfoldable pub find_subscription : String → List Subscription → Option Subscription
find_subscription account [] = none
find_subscription account (row ∷ rows) =
    if same row.account account then some row else find_subscription account rows

-- `SqliteBillingStore.subscription`
unfoldable pub subscription : String → Db → Option Subscription
subscription account db = find_subscription account db.subscriptions
