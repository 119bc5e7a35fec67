-- ===== src/Store/Tests.antt =====
-- An invoice that is written a second time, and a row of more tokens than a column holds.
use code_zard.Prelude.{ℕ, ◌+◌, String, some, [], ◌∷◌, ◌≡◌, refl}
use code_zard.Prelude.Int.{pos}
use code_zard.Billing.Money.{zero_money}
use code_zard.Billing.Invoice.{Invoice, InvoiceStatus}
use code_zard.Prelude.Result.{err}
use code_zard.Billing.Errors.{integer_too_large}
use code_zard.Billing.Ledger.{LedgerEntry, grant}
use code_zard.Store.{Db, empty_db, append, put_invoice, invoice, find_invoice, upsert_invoice}

abbrev quoted : String → ℕ → String → Invoice
quoted id created amount = record {
  id = id;
  account = "GA";
  sku = "tokens-1m";
  tokens = pos 1_000_000;
  price = zero_money;
  asset = "XLM";
  amount = amount;
  destination = "GD";
  created_at = created;
  expires_at = created + 10;
  status = InvoiceStatus.pending;
  kind = "pack";
  tx_hash = "";
  payer = "";
}

abbrev one_invoice : Db
one_invoice = record empty_db { invoices = quoted "cz1" 5 "10.0" ∷ quoted "cz2" 3 "20.0" ∷ [] }

kept_amount :
    invoice "cz1" (put_invoice (quoted "cz1" 7 "0.1") one_invoice).1 ≡ some (quoted "cz1" 5 "10.0")
unfolding invoice put_invoice find_invoice upsert_invoice
kept_amount = refl

-- Of 2 ^ 63 tokens there is no row.
abbrev too_many : LedgerEntry
too_many = record {
  id = "e9";
  account = "GA";
  kind = grant;
  tokens = pos 9_223_372_036_854_775_808;
  at = 5;
  amount = zero_money;
  reference = "r9";
  memo = "";
}

no_row : append too_many empty_db ≡ (err integer_too_large, empty_db)
unfolding append
no_row = refl
