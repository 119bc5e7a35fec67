-- ===== src/X402/Settling.antt =====
-- How `settle` of `application/x402_service.py` ends for an invoice that a requirement names.
use code_zard.Prelude.{
  ◌+◌, true, false, not, none, some, ◌≡◌, refl, ap, ◌∙◌, if◌then◌else◌, Bool-cases, inl, inr,
}
use code_zard.Prelude.Text.{same, concat}
use code_zard.Prelude.Result.{Result, ok, err}
use code_zard.Json.{get, str_or_empty}
use code_zard.Billing.Errors.{BillingError}
use code_zard.Billing.Invoice.{Invoice, is_open}
use code_zard.Store.{invoice}
use code_zard.Service.World.{World, Action, pure, ◌>>=◌}
use code_zard.X402.{
  PaymentRequirements, PaymentPayload, VerifyResult, SettleResult, Facilitator, scheme, transaction,
}
use code_zard.X402.Payments.{
  refused, invoice_of, if_open, verify, verify_found, book, after_verify, settle,
}
use code_zard.X402.Books.{settle_lem}

abbrev go_on :
    {R S : Type 0} → (R → Action S) → Result BillingError R × World → Result BillingError S × World
go_on k p = elim p.0 [ ok x ↦ k x p.1 | err e ↦ (err e, p.1) ]

bind_ok :
    {R S : Type 0} (m : Action R) (k : R → Action S) (w w' : World) (a : R)
    → m w ≡ (ok a, w')
    → (m >>= k) w ≡ k a w'
bind_ok m k w w' a returns = ap (go_on k) returns

module _ (f : Facilitator) where
  -- The facts under which `verify` asks the network about the invoice that a requirement names.
  pub record Payable (p : PaymentPayload) (r : PaymentRequirements) (i : Invoice) (w : World)
      : Type 0 where
    pub same_scheme : same p.scheme scheme ≡ true
    pub same_network : same p.network f.network ≡ true
    pub has_envelope : same (transaction p) "" ≡ false
    pub names : str_or_empty f.render (get "invoice" r.extra) ≡ i.id
    pub has_id : same i.id "" ≡ false
    pub stored : invoice i.id w.db ≡ some i

  -- After one more reading.
  abbrev pub next : World → World
  next w = record w { readings = w.readings + 1 }

  invoice_of_lem :
      (r : PaymentRequirements) (w : World)
      → let id = str_or_empty f.render (get "invoice" r.extra) in
        invoice_of f r w ≡ (if same id "" then (ok none, w) else if_open f (invoice id w.db) w)
  unfolding invoice_of
  invoice_of_lem r w = elim (Bool-cases (same (str_or_empty f.render (get "invoice" r.extra)) "")) [
    | inl nothing ↦ rw nothing
    | inr named ↦ rw named
  ]

  invoice_of-Payable :
      (p : PaymentPayload) (r : PaymentRequirements) (i : Invoice) (w : World)
      → Payable p r i w
      → invoice_of f r w
        ≡ (ok (if is_open i (f.env.clock w.readings) then some i else none), next w)
  invoice_of-Payable p r i w payable =
      rw (invoice_of_lem r w, payable.names, payable.has_id, payable.stored)

  verify_lem :
      (p : PaymentPayload) (r : PaymentRequirements)
      → verify f p r ≡ (
          if not (same p.scheme scheme)
          then pure (refused (concat "scheme " (concat (f.repr p.scheme) " is not supported")))
          else if not (same p.network f.network)
          then pure
              (refused (concat "this is " (concat f.network (concat ", not " (f.repr p.network)))))
          else if same (transaction p) ""
          then pure (refused "the payload carries no signed transaction")
          else (invoice_of f r >>= verify_found f (transaction p)))
  unfolding verify
  verify_lem p r = refl

  verify-Payable :
      (p : PaymentPayload) (r : PaymentRequirements) (i : Invoice) (w : World)
      → Payable p r i w
      → verify f p r w
        ≡ verify_found f
            (transaction p)
            (if is_open i (f.env.clock w.readings) then some i else none)
            (next w)
  verify-Payable p r i w payable =
      rw (verify_lem p r, payable.same_scheme, payable.same_network, payable.has_envelope)
        (bind_ok (invoice_of f r) (verify_found f (transaction p)) w (next w) _
          (invoice_of-Payable p r i w payable))

  -- The network has verified and settled the payment of an invoice that was open.
  pub record Taken (p : PaymentPayload) (r : PaymentRequirements) (i : Invoice) (w : World)
      (verified : VerifyResult) (result : SettleResult) : Type 0 where
    pub payable : Payable p r i w
    pub open_then : is_open i (f.env.clock w.readings) ≡ true
    pub verifies : f.verify_envelope (w.readings + 1) (transaction p) i ≡ some verified
    pub valid : verified.valid ≡ true
    pub settles : f.settle_envelope (w.readings + 1 + 1) (transaction p) ≡ some result
    pub success : result.success ≡ true

  after_verify-taken :
      (p : PaymentPayload) (r : PaymentRequirements) (w : World) (verified : VerifyResult)
      (result : SettleResult)
      → verified.valid ≡ true
      → f.settle_envelope w.readings (transaction p) ≡ some result
      → result.success ≡ true
      → after_verify f p r verified w ≡ (invoice_of f r >>= book f result verified) (next w)
  after_verify-taken p r w verified result valid settles success = rw (valid, settles, success)

  settle-Taken :
      (p : PaymentPayload) (r : PaymentRequirements) (i : Invoice) (w : World)
      (verified : VerifyResult) (result : SettleResult)
      → Taken p r i w verified result
      → settle f p r w
        ≡ book f result verified
            (if is_open i (f.env.clock (w.readings + 1 + 1 + 1)) then some i else none)
            (next (next (next (next w))))
  settle-Taken p r i w verified result taken =
      let again : Payable p r i (next (next (next w))) = record {
        same_scheme = taken.payable.same_scheme;
        same_network = taken.payable.same_network;
        has_envelope = taken.payable.has_envelope;
        names = taken.payable.names;
        has_id = taken.payable.has_id;
        stored = taken.payable.stored;
      } in
      ap (λ m. m w) (settle_lem f p r)
      ∙ bind_ok (verify f p r) (after_verify f p r) w (next (next w)) verified
          (rw (verify-Payable p r i w taken.payable, taken.open_then, taken.verifies))
      ∙ after_verify-taken p r (next (next w)) verified result taken.valid taken.settles
          taken.success
      ∙ bind_ok (invoice_of f r) (book f result verified) (next (next (next w)))
          (next (next (next (next w)))) _ (invoice_of-Payable p r i (next (next (next w))) again)

  -- A payment that the network took after its quote had run out buys nothing: `settle` returns the
  -- network's success, and leaves the ledger and the invoices as they were.
  pub settle_late :
      (p : PaymentPayload) (r : PaymentRequirements) (i : Invoice) (w : World)
      (verified : VerifyResult) (result : SettleResult)
      → Taken p r i w verified result
      → is_open i (f.env.clock (w.readings + 1 + 1 + 1)) ≡ false
      → settle f p r w ≡ (ok result, next (next (next (next w))))
  settle_late p r i w verified result taken late =
      rw (settle-Taken p r i w verified result taken, late)

  -- A payment for an invoice that is paid, expired or past its time is refused: the network is asked
  -- nothing, and nothing is written.
  settle_closed :
      (p : PaymentPayload) (r : PaymentRequirements) (i : Invoice) (w : World)
      → Payable p r i w
      → is_open i (f.env.clock w.readings) ≡ false
      → settle f p r w ≡ (
        ok (record {
          success = false;
          network = f.network;
          transaction = "";
          payer = "";
          reason = "that payment requirement is unknown or expired";
        }),
        next w,
      )
  settle_closed p r i w payable closed =
      ap (λ m. m w) (settle_lem f p r)
      ∙ bind_ok (verify f p r) (after_verify f p r) w (next w)
          (refused "that payment requirement is unknown or expired")
          (rw (verify-Payable p r i w payable, closed))
