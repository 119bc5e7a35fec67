-- ===== src/X402/Tests.antt =====
-- A payment of an open invoice, taken too late, and one that the network does not take.
use code_zard.Prelude.{
  ℕ, Bool, true, false, Option, none, some, [], ◌∷◌, ◌≡◌, refl, sym, ap, if◌then◌else◌, ltb,
}
use code_zard.Prelude.Int.{pos}
use code_zard.Prelude.Text.{same}
use code_zard.Prelude.Result.{ok, err}
use code_zard.Json.{Json, text, integer, object, end, field, get, str_or_empty}
use code_zard.Billing.Money.{zero_money}
use code_zard.Billing.Pricing.{default_pricing}
use code_zard.Billing.Catalog.{default_catalog}
use code_zard.Billing.Invoice.{Invoice, pending, is_open}
use code_zard.Store
use code_zard.Service.World.{Env, World}
use code_zard.X402.{
  PaymentRequirements, PaymentPayload, SettleResult, Facilitator, version_not_supported,
  transaction, decode,
}
use code_zard.X402.Payments.{settle}
use code_zard.X402.Books.{settle_untaken, SettlesNothing}
use code_zard.X402.Settling.{Payable, Taken, settle_late}

-- A gateway whose clock makes ten minutes and a little more between two readings after the third.
abbrev gateway : Env
gateway = record {
  catalog = default_catalog default_pricing;
  asset = "XLM";
  reserve = pos 1;
  clock = λ n. if ltb n 3 then n else 700_000_000;
  entry_id = λ n. "e1";
  new_invoice_id = λ n. "cz9";
  isoformat = λ t. "t";
  destination = "GD";
  quote = λ n money asset. some "0.1000000";
  payment_for = λ n i. some none;
  chain_available = false;
  contract_id = "";
  chain_subscription = λ n account. some none;
}

abbrev sent_document : Json
sent_document = object (
    field "x402Version" (integer (pos 1)) (
      field "scheme" (text "exact") (
        field "network" (text "stellar") (
          field "payload"
            (object (field "transaction" (text "AAAA") (field "invoice" (text "cz9") end))) end))))

abbrev facilitator : Facilitator
facilitator = record {
  env = gateway;
  network = "stellar";
  verify_envelope = λ n envelope i.
      some (record { valid = true; payer = "GP"; reason = ""; amount = "0.1000000" });
  settle_envelope = λ n envelope. some (record {
    success = same envelope "AAAA";
    network = "stellar";
    transaction = "t1";
    payer = "GP";
    reason = "";
  });
  price = zero_money;
  resource = "/runs";
  render = λ v. "";
  repr = λ s. s;
  b64decode = λ s. some s;
  loads = λ s.
      if same s "new"
      then some (object (field "x402Version" (integer (pos 2)) end))
      else some sent_document;
}

abbrev quoted : Invoice
quoted = record {
  id = "cz9";
  account = "GA";
  sku = "x402";
  tokens = pos 1_000;
  price = record { micros = pos 10_000 };
  asset = "XLM";
  amount = "0.1000000";
  destination = "GD";
  created_at = 0;
  expires_at = 600_000_000;
  status = pending;
  kind = "x402";
  tx_hash = "";
  payer = "";
}

abbrev requirement : PaymentRequirements
requirement = record {
  scheme = "exact";
  network = "stellar";
  max_amount_required = "0.1000000";
  resource = "/runs";
  description = "";
  pay_to = "GD";
  asset = "XLM";
  max_timeout_seconds = 300;
  extra = field "invoice" (text "cz9") end;
}

abbrev paying : PaymentPayload
paying = record {
  scheme = "exact";
  network = "stellar";
  payload = field "transaction" (text "AAAA") (field "invoice" (text "cz9") end);
}

-- An envelope that the network does not take.
abbrev bouncing : PaymentPayload
bouncing = record paying { payload = field "transaction" (text "BBBB") end }

abbrev at_reading : ℕ → World
at_reading n = record {
  db = record { ledger = []; invoices = quoted ∷ []; subscriptions = [] };
  readings = n;
}

decode_payload : decode facilitator " new " ≡ err version_not_supported
unfolding decode
decode_payload = refl

payable : (n : ℕ) → Payable facilitator paying requirement quoted (at_reading n)
unfolding transaction Store.invoice Store.find_invoice str_or_empty get
payable n = record {
  same_scheme = refl;
  same_network = refl;
  has_envelope = refl;
  names = refl;
  has_id = refl;
  stored = refl;
}

taken :
    Taken facilitator paying requirement quoted
      (at_reading 0)
      (record { valid = true; payer = "GP"; reason = ""; amount = "0.1000000" })
      (record {
        success = true;
        network = "stellar";
        transaction = "t1";
        payer = "GP";
        reason = "";
      })
unfolding is_open transaction get
taken = record {
  payable = payable 0;
  open_then = refl;
  verifies = refl;
  valid = refl;
  settles = refl;
  success = refl;
}

settle_late_example : settle facilitator paying requirement (at_reading 0) ≡ (
  ok (record {
    success = true;
    network = "stellar";
    transaction = "t1";
    payer = "GP";
    reason = "";
  }),
  at_reading 4,
)
unfolding is_open
settle_late_example =
    settle_late facilitator paying requirement quoted (at_reading 0)
      (record { valid = true; payer = "GP"; reason = ""; amount = "0.1000000" })
      (record {
        success = true;
        network = "stellar";
        transaction = "t1";
        payer = "GP";
        reason = "";
      })
      taken refl

abbrev success_of : Option SettleResult → Bool
success_of none = false
success_of (some result) = result.success

bounces : SettlesNothing facilitator (transaction bouncing)
unfolding transaction get
bounces n result answers = sym (ap success_of answers)

settle_untaken_example :
    (settle facilitator bouncing requirement (at_reading 0)).1.db ≡ (at_reading 0).db
settle_untaken_example = settle_untaken facilitator bouncing requirement bounces (at_reading 0)
