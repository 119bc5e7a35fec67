-- ===== src/X402/Books.antt =====
-- What redeeming a payment keeps of the books (`settle` and `redeem` of `application/x402_service.py`).
use code_zard.Prelude.{
  ℕ, String, true, false, Option, none, some, ◌≡◌, refl, ◌∙◌, ◌⊎◌, Bool-cases, inl, inr,
}
use code_zard.Prelude.Result.{Result, ok, err}
use code_zard.Billing.Errors.{BillingError}
use code_zard.Billing.Invoice.{Invoice}
use code_zard.Store.{Db}
use code_zard.Service.World.{World, ◌>>=◌}
use code_zard.Service.Sales.{or_raise}
use code_zard.Service.Keeps.{Keeps, Keeps-pure, Keeps-raise, Keeps-bind, keeps_rules}
use code_zard.Service.Soundness.{IsSound}
use code_zard.Service.Conserves.{credit-IsSound, put_invoice-IsSound}
use code_zard.X402.{
  PaymentRequirements, PaymentPayload, VerifyResult, SettleResult, Facilitator, transaction, decode,
  HeaderError,
}
use code_zard.X402.Payments.{
  invoice_of, if_open, verify, verify_found, book, submitted, after_verify, settle, redeem,
  redeem_invoice, redeem_payload, requirements, challenge, x402_invoice,
}
use code_zard.Billing.Money.{Money}

or_raise-Keeps :
    {A : Type 0} {P : Db → Type 0} (found : Option A) (e : BillingError)
    → Keeps P (or_raise found e)
or_raise-Keeps none e = Keeps-raise e
or_raise-Keeps (some a) e = Keeps-pure a

module _ (f : Facilitator) where
  module _ {P : Db → Type 0} where
    if_open-Keeps : (found : Option Invoice) → Keeps P (if_open f found)
    if_open-Keeps none = Keeps-pure none
    if_open-Keeps (some i) = search (keeps_rules)

    invoice_of-Keeps : (r : PaymentRequirements) → Keeps P (invoice_of f r)
    unfolding invoice_of
    invoice_of-Keeps r = search (keeps_rules, if_open-Keeps)

    verify_found-Keeps :
        (envelope : String) (found : Option Invoice) → Keeps P (verify_found f envelope found)
    verify_found-Keeps envelope none = Keeps-pure _
    verify_found-Keeps envelope (some i) = search (keeps_rules, or_raise-Keeps)

    -- Verifying writes nothing.
    pub verify-Keeps : (p : PaymentPayload) (r : PaymentRequirements) → Keeps P (verify f p r)
    unfolding verify
    verify-Keeps p r = search (keeps_rules, invoice_of-Keeps, verify_found-Keeps)

  book-IsSound :
      (result : SettleResult) (verified : VerifyResult) (found : Option Invoice)
      → Keeps IsSound (book f result verified found)
  book-IsSound result verified none = Keeps-pure result
  book-IsSound result verified (some i) = search (keeps_rules, put_invoice-IsSound, credit-IsSound)

  submitted-IsSound :
      (r : PaymentRequirements) (verified : VerifyResult) (result : SettleResult)
      → Keeps IsSound (submitted f r verified result)
  submitted-IsSound r verified result = search (keeps_rules, invoice_of-Keeps, book-IsSound)

  after_verify-IsSound :
      (p : PaymentPayload) (r : PaymentRequirements) (verified : VerifyResult)
      → Keeps IsSound (after_verify f p r verified)
  after_verify-IsSound p r verified = search (keeps_rules, or_raise-Keeps, submitted-IsSound)

  pub settle_lem :
      (p : PaymentPayload) (r : PaymentRequirements)
      → settle f p r ≡ (verify f p r >>= after_verify f p r)
  unfolding settle
  settle_lem p r = refl

  pub settle-IsSound : (p : PaymentPayload) (r : PaymentRequirements) → Keeps IsSound (settle f p r)
  settle-IsSound p r =
      rw (settle_lem p r) (
        Keeps-bind (verify f p r) (after_verify f p r) (verify-Keeps p r)
          (after_verify-IsSound p r))

  pub requirements-IsSound :
      (account resource : String) (price : Option Money)
      → Keeps IsSound (requirements f account resource price)
  unfolding requirements x402_invoice
  requirements-IsSound account resource price =
      search (keeps_rules, or_raise-Keeps, put_invoice-IsSound) depth 12

  pub challenge-IsSound :
      (account reason resource : String) → Keeps IsSound (challenge f account reason resource)
  unfolding challenge
  challenge-IsSound account reason resource = search (keeps_rules, requirements-IsSound)

  redeem_invoice-IsSound :
      (p : PaymentPayload) (resource : String) (found : Option Invoice)
      → Keeps IsSound (redeem_invoice f p resource found)
  redeem_invoice-IsSound p resource none = Keeps-pure _
  redeem_invoice-IsSound p resource (some i) = search (keeps_rules, settle-IsSound)

  redeem_payload-IsSound :
      (resource : String) (decoded : Result HeaderError PaymentPayload)
      → Keeps IsSound (redeem_payload f resource decoded)
  redeem_payload-IsSound resource (err e) = Keeps-pure _
  redeem_payload-IsSound resource (ok p) = search (keeps_rules, redeem_invoice-IsSound)

  -- Redeeming any header, whatever it says and whatever the network answers, keeps every account's rows
  -- sound.
  pub redeem-IsSound : (header resource : String) → Keeps IsSound (redeem f header resource)
  unfolding redeem
  redeem-IsSound header resource = redeem_payload-IsSound resource (decode f header)

  -- The network settles no payment with this envelope.
  abbrev pub SettlesNothing : String → Type 0
  SettlesNothing envelope =
      (n : ℕ) (result : SettleResult)
      → f.settle_envelope n envelope ≡ some result
      → result.success ≡ false

  untaken :
      (p : PaymentPayload) (r : PaymentRequirements) (verified : VerifyResult)
      → SettlesNothing (transaction p)
      → (w : World) → (after_verify f p r verified w).1.db ≡ w.db
  untaken p r verified never w = go (Bool-cases verified.valid)
    where
      answered :
          verified.valid ≡ true
          → (settled : Option SettleResult) → f.settle_envelope w.readings (transaction p) ≡ settled
          → (after_verify f p r verified w).1.db ≡ w.db
      answered valid none answers = rw (valid, answers)
      answered valid (some result) answers = rw (valid, answers, never w.readings result answers)

      go :
          (verified.valid ≡ true) ⊎ (verified.valid ≡ false)
          → (after_verify f p r verified w).1.db ≡ w.db
      go (inr invalid) = rw invalid
      go (inl valid) = answered valid (f.settle_envelope w.readings (transaction p)) refl

  -- As long as the network settles nothing for its envelope, a payment neither writes an invoice nor
  -- credits anyone.
  pub settle_untaken :
      (p : PaymentPayload) (r : PaymentRequirements)
      → SettlesNothing (transaction p)
      → (w : World) → (settle f p r w).1.db ≡ w.db
  settle_untaken p r never w =
      let kept : Keeps (λ db. db ≡ w.db) (settle f p r) = rw (settle_lem p r) (
        Keeps-bind (verify f p r) (after_verify f p r) (verify-Keeps p r)
          (λ verified. record { at = λ w' h. untaken p r verified never w' ∙ h })) in
      kept.at w refl
