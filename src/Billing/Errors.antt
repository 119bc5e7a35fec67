-- ===== src/Billing/Errors.antt =====
-- The exceptions of `domain/billing.py`, `application/billing_service.py`: each `raise` of a
-- `BillingError` or of a subclass is a constructor, with the fields that the exception carries.
use code_zard.Prelude.{String}
use code_zard.Prelude.Int.{ℤ}

pub data BillingError : Type 0 where
  scaled_by_zero : BillingError
  insufficient_funds : ℤ → ℤ → BillingError
  unknown_product : String → BillingError
  invoice_not_found : String → BillingError
  negative_credit : BillingError
  subscribed_on_chain : String → BillingError
  costs_nothing : String → BillingError
  no_destination : BillingError
  no_contract : BillingError
  -- Raised below the service: by the payment network, by the subscriptions contract, and by comparing with
  -- a NaN.
  network_failed : BillingError
  contract_failed : BillingError
  invalid_operation : BillingError
  -- SQLite's `IntegrityError` on an id that is there already.
  duplicate_id : String → BillingError
  -- The driver's `OverflowError` on an integer that no column of the ledger holds.
  integer_too_large : BillingError
