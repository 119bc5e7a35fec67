-- ===== src/Billing/Invoice.antt =====
-- `Invoice` and `ObservedPayment` of `domain/billing.py`.
use code_zard.Prelude.{ℕ, ◌*◌, String, Bool, true, false, ◌&&◌, ltb}
use code_zard.Prelude.Int.{ℤ}
use code_zard.Billing.Money.{Money}

pub data InvoiceStatus : Type 0 where
  pending paid expired cancelled : InvoiceStatus

-- 30 minutes, in microseconds.
abbrev pub invoice_ttl : ℕ
invoice_ttl = 30 * 60_000_000

pub record Invoice : Type 0 where
  pub id : String
  pub account : String
  pub sku : String
  pub tokens : ℤ
  pub price : Money
  pub asset : String
  pub amount : String
  pub destination : String
  pub created_at : ℕ
  pub expires_at : ℕ
  pub status : InvoiceStatus
  pub kind : String
  pub tx_hash : String
  pub payer : String

-- `Invoice.memo`
unfoldable pub memo_of : Invoice → String
memo_of i = i.id

abbrev pub is_pending : InvoiceStatus → Bool
is_pending pending = true
is_pending paid = false
is_pending expired = false
is_pending cancelled = false

abbrev pub is_paid : InvoiceStatus → Bool
is_paid pending = false
is_paid paid = true
is_paid expired = false
is_paid cancelled = false

unfoldable pub is_open : Invoice → ℕ → Bool
is_open i now = is_pending i.status && ltb now i.expires_at

-- `Invoice.paid`
unfoldable pub mark_paid : Invoice → String → String → Invoice
mark_paid i tx_hash payer = record i { status = paid; tx_hash = tx_hash; payer = payer }

-- `Invoice.expired`
unfoldable pub mark_expired : Invoice → Invoice
mark_expired i = record i { status = expired }

pub record ObservedPayment : Type 0 where
  pub tx_hash : String
  pub payer : String
  pub destination : String
  pub asset : String
  pub amount : String
  pub memo : String
  pub at : ℕ
