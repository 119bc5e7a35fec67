-- ===== src/X402/Payments.antt =====
-- `X402Service` of `application/x402_service.py` over the store and `BillingService`.
use code_zard.Prelude.{ℕ, ◌+◌, String, false, not, Option, none, some, [], ◌∷◌, if◌then◌else◌}
use code_zard.Prelude.Text.{same, concat, spell_grouped}
use code_zard.Prelude.Result.{Result, ok, err}
use code_zard.Json.{text, integer, end, field, get, str_or_empty}
use code_zard.Billing.Errors.{network_failed}
use code_zard.Billing.Money.{Money}
use code_zard.Billing.Pricing.{tokens_for}
use code_zard.Billing.Ledger.{purchase}
use code_zard.Billing.Invoice.{Invoice, InvoiceStatus, is_open, mark_paid, memo_of}
use code_zard.Store.{invoice, put_invoice}
use code_zard.Service.World.{Action, pure, ◌>>=◌, ◌>>◌, reading, query, write}
use code_zard.Service.Accounts.{credit}
use code_zard.Service.Sales.{or_raise}
use code_zard.X402.{
  PaymentRequirements, PaymentRequired, PaymentPayload, VerifyResult, SettleResult, Facilitator,
  scheme, transaction, decode, HeaderError,
}

-- Ten minutes, in microseconds.
abbrev quote_ttl : ℕ
quote_ttl = 600_000_000

abbrev default_timeout_s : ℕ
default_timeout_s = 120

-- `a or b` on texts.
abbrev or_text : String → String → String
or_text s t = if same s "" then t else s

abbrev price_or : Money → Option Money → Money
price_or default none = default
price_or default (some price) = price

-- Why a payment header is not redeemed.
pub data Unredeemed : Type 0 where
  unreadable : HeaderError → Unredeemed
  unknown_invoice : Unredeemed
  not_settled : String → Unredeemed

abbrev pub refused : String → VerifyResult
refused reason = record { valid = false; payer = ""; reason = reason; amount = "" }

module _ (f : Facilitator) where
  -- The invoice that `requirements` writes.
  unfoldable pub x402_invoice : String → Money → Action Invoice
  unfolding tokens_for
  x402_invoice account price = do
    now ← reading f.env.clock
    id ← reading f.env.new_invoice_id
    quoted ← reading (λ n. f.env.quote n price f.env.asset)
    amount ← or_raise quoted network_failed
    write (
        put_invoice (record {
          id = id;
          account = account;
          sku = "x402";
          tokens = tokens_for f.env.catalog.pricing price;
          price = price;
          asset = f.env.asset;
          amount = amount;
          destination = f.env.destination;
          created_at = now;
          expires_at = now + quote_ttl;
          status = InvoiceStatus.pending;
          kind = "x402";
          tx_hash = "";
          payer = "";
        }))

  abbrev requirements_of : String → Invoice → PaymentRequirements
  requirements_of resource i = record {
    scheme = scheme;
    network = f.network;
    max_amount_required = i.amount;
    resource = or_text resource f.resource;
    description = concat (spell_grouped i.tokens) " CodeZard tokens";
    pay_to = i.destination;
    asset = f.env.asset;
    max_timeout_seconds = default_timeout_s;
    extra =
        field "memo" (text (memo_of i))
          (field "invoice" (text i.id) (field "tokens" (integer i.tokens) end));
  }

  unfoldable pub requirements :
      String → String → Option Money → Action (PaymentRequirements × Invoice)
  unfolding x402_invoice memo_of spell_grouped
  requirements account resource price = do
    i ← x402_invoice account (price_or f.price price)
    pure (requirements_of resource i, i)

  unfoldable pub challenge : String → String → String → Action PaymentRequired
  unfolding requirements
  challenge account reason resource = do
    (r, i) ← requirements account resource none
    pure (record { error = reason; accepts = r ∷ [] })

  abbrev pub if_open : Option Invoice → Action (Option Invoice)
  if_open none = pure none
  if_open (some i) = do now ← reading f.env.clock; pure (if is_open i now then some i else none)

  -- `_invoice_of`
  unfoldable pub invoice_of : PaymentRequirements → Action (Option Invoice)
  unfolding get str_or_empty
  invoice_of r =
      let id = str_or_empty f.render (get "invoice" r.extra) in
      if same id "" then pure none else do found ← query (invoice id); if_open found

  abbrev pub verify_found : String → Option Invoice → Action VerifyResult
  verify_found envelope none = pure (refused "that payment requirement is unknown or expired")
  verify_found envelope (some i) = do
    verified ← reading (λ n. f.verify_envelope n envelope i)
    or_raise verified network_failed

  unfoldable pub verify : PaymentPayload → PaymentRequirements → Action VerifyResult
  unfolding invoice_of transaction
  verify p r =
      if not (same p.scheme scheme)
      then pure (refused (concat "scheme " (concat (f.repr p.scheme) " is not supported")))
      else if not (same p.network f.network)
      then pure
          (refused (concat "this is " (concat f.network (concat ", not " (f.repr p.network)))))
      else if same (transaction p) ""
      then pure (refused "the payload carries no signed transaction")
      else do found ← invoice_of r; verify_found (transaction p) found

  abbrev payer_of : SettleResult → VerifyResult → Invoice → String
  payer_of result verified i = or_text result.payer (or_text verified.payer i.account)

  -- `f"x402:{result.transaction}"`
  abbrev x402_reference : SettleResult → String
  x402_reference result = concat "x402:" result.transaction

  -- What follows a payment that the network has settled.
  abbrev pub book : SettleResult → VerifyResult → Option Invoice → Action SettleResult
  book result verified none = pure result
  book result verified (some i) = do
    write (put_invoice (mark_paid i result.transaction (payer_of result verified i)))
    credit f.env (payer_of result verified i) i.tokens purchase (x402_reference result) i.price
        (concat "x402 · " (concat i.amount (concat " " i.asset)))
    pure result

  abbrev pub submitted : PaymentRequirements → VerifyResult → SettleResult → Action SettleResult
  submitted r verified result =
      if not result.success
      then pure result
      else do found ← invoice_of r; book result verified found

  abbrev pub after_verify :
      PaymentPayload → PaymentRequirements → VerifyResult → Action SettleResult
  after_verify p r verified =
      if not verified.valid
      then pure (record {
        success = false;
        network = f.network;
        transaction = "";
        payer = "";
        reason = verified.reason;
      })
      else do
        settled ← reading (λ n. f.settle_envelope n (transaction p))
        result ← or_raise settled network_failed
        submitted r verified result

  unfoldable pub settle : PaymentPayload → PaymentRequirements → Action SettleResult
  unfolding verify invoice_of transaction mark_paid
  settle p r = do verified ← verify p r; after_verify p r verified

  abbrev redeemed : Invoice → SettleResult → Result Unredeemed (String × SettleResult)
  redeemed i result =
      if result.success
      then ok (or_text result.payer i.account, result)
      else err (not_settled (or_text result.reason "the payment could not be settled"))

  abbrev pub redeem_invoice :
      PaymentPayload → String → Option Invoice → Action (Result Unredeemed (String × SettleResult))
  redeem_invoice p resource none = pure (err unknown_invoice)
  redeem_invoice p resource (some i) = do
    result ← settle p (record {
      scheme = scheme;
      network = f.network;
      max_amount_required = i.amount;
      resource = or_text resource f.resource;
      description = "";
      pay_to = i.destination;
      asset = i.asset;
      max_timeout_seconds = 300;
      extra = field "memo" (text (memo_of i)) (field "invoice" (text i.id) end);
    })
    pure (redeemed i result)

  abbrev pub redeem_payload :
      String
      → Result HeaderError PaymentPayload
      → Action (Result Unredeemed (String × SettleResult))
  redeem_payload resource (err e) = pure (err (unreadable e))
  redeem_payload resource (ok p) =
      let id = str_or_empty f.render (get "invoice" p.payload) in
      if same id ""
      then pure (err unknown_invoice)
      else do found ← query (invoice id); redeem_invoice p resource found

  -- `redeem`, with the `X402Error`s as values.
  unfoldable pub redeem : String → String → Action (Result Unredeemed (String × SettleResult))
  unfolding settle decode get str_or_empty memo_of
  redeem header resource = redeem_payload resource (decode f header)
