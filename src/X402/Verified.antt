-- ===== src/X402/Verified.antt =====
-- What a valid verification of `application/x402_service.py` comes from.
use code_zard.Prelude.{
  ℕ, ◌+◌, String, true, false, Option, none, some, ◌≡◌, refl, Bool-cases, inl, inr,
}
use code_zard.Prelude.Text.{same}
use code_zard.Prelude.Result.{Result, ok, err}
use code_zard.Billing.Errors.{BillingError, network_failed}
use code_zard.Json.{get, str_or_empty}
use code_zard.Billing.Invoice.{Invoice, is_open}
use code_zard.Store.{invoice}
use code_zard.Service.World.{World, ◌>>=◌}
use code_zard.Service.Sales.{or_raise}
use code_zard.X402.{
  scheme, PaymentRequirements, PaymentPayload, transaction, VerifyResult, Facilitator,
}
use code_zard.X402.Payments.{if_open, invoice_of, verify_found, verify}

module _ (f : Facilitator) (p : PaymentPayload) (r : PaymentRequirements) where
  -- The id of the invoice that the requirements name.
  abbrev pub named_invoice : String
  named_invoice = str_or_empty f.render (get "invoice" r.extra)

  -- The network verified the payment's envelope for the stored invoice that the requirements name.
  abbrev pub Backed : World → VerifyResult → Type 0
  Backed w v =
      (i : Invoice) × (n : ℕ) × (invoice named_invoice w.db ≡ some i)
      × (f.verify_envelope n (transaction p) i ≡ some v)

  -- What holds of a result that is valid.
  abbrev pub IfValid : (VerifyResult → Type 0) → Result BillingError VerifyResult → Type 0
  IfValid P (err e) = Unit
  IfValid P (ok v) = v.valid ≡ true → P v

  not_valid : (P : Type 0) → false ≡ true → P
  not_valid P wrong = absurd (cc)

  answered-Backed :
      (w w' : World) (n : ℕ) (i : Invoice) (verified : Option VerifyResult)
      → invoice named_invoice w.db ≡ some i
      → f.verify_envelope n (transaction p) i ≡ verified
      → IfValid (Backed w) (or_raise verified network_failed w').0
  answered-Backed w w' n i none stored answers = tt
  answered-Backed w w' n i (some v) stored answers = λ valid. (i, n, stored, answers)

  found-Backed :
      (w : World) (found : Option Invoice)
      → invoice named_invoice w.db ≡ found
      → IfValid (Backed w) ((if_open f found >>= verify_found f (transaction p)) w).0
  found-Backed w none stored = λ valid. not_valid _ valid
  found-Backed w (some i) stored = elim (Bool-cases (is_open i (f.env.clock w.readings))) [
    | inr closed ↦ rw closed (λ valid. not_valid _ valid)
    | inl open_now ↦ rw open_now (
        answered-Backed w (record w { readings = w.readings + 1 + 1 }) (w.readings + 1) i
          (f.verify_envelope (w.readings + 1) (transaction p) i) stored refl)
  ]

  -- A verification that is valid comes from the network, for the stored invoice that the requirements
  -- name.
  pub verify-Backed : (w : World) → IfValid (Backed w) (verify f p r w).0
  unfolding verify invoice_of
  verify-Backed w = elim (Bool-cases (same p.scheme scheme)) [
    | inr other ↦ rw other (λ valid. not_valid _ valid)
    | inl known ↦ elim (Bool-cases (same p.network f.network)) [
      | inr other ↦ rw (known, other) (λ valid. not_valid _ valid)
      | inl here ↦ elim (Bool-cases (same (transaction p) "")) [
        | inl empty ↦ rw (known, here, empty) (λ valid. not_valid _ valid)
        | inr some_text ↦ elim (Bool-cases (same named_invoice "")) [
          | inl unnamed ↦ rw (known, here, some_text, unnamed) (λ valid. not_valid _ valid)
          | inr named ↦
              rw (known, here, some_text, named) (found-Backed w (invoice named_invoice w.db) refl)
        ]
      ]
    ]
  ]
