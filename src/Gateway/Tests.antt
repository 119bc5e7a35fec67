-- ===== src/Gateway/Tests.antt =====
-- A week of a gateway: a run is started and generated, and a payment comes with a request; and a payment
-- on the network.
use code_zard.Prelude.{ℕ, ◌⊎◌, false, String, true, none, some, List, [], ◌∷◌, ◌≡◌, refl}
use code_zard.Prelude.Int.{pos, max_ℤ}
use code_zard.Prelude.Text.{concat, spell}
use code_zard.Prelude.Result.{Result, ok, err}
use code_zard.Json.{Json, text, integer, object, end, field}
use code_zard.Billing.Money.{zero_money}
use code_zard.Billing.Pricing.{default_pricing}
use code_zard.Billing.Catalog.{default_catalog}
use code_zard.Billing.Ledger.{total, balance_of}
use code_zard.Billing.Ledger.Conservation.{net}
use code_zard.Store.{all_entries, empty_db}
use code_zard.Service.World as Service
use code_zard.Service.World.{Env}
use code_zard.Service.Reachable.{settle_call, view_call}
use code_zard.Service.Subscribing.{ChainWriter}
use code_zard.Billing.Invoice.{Invoice, pending}
use code_zard.X402.{Facilitator, PaymentPayload, PaymentRequirements}
use code_zard.X402.Payments.{settle}
use code_zard.Network.{StellarConfig, replied}
use code_zard.Network.Records.{Horizon}
use code_zard.Network.Envelopes.{Envelope, Sdk, text_of, payment}
use code_zard.Gateway.Wiring.{on_network, IsPaid, settle_needs_payment}
use code_zard.Orchestration.Planner.{Outside}
use code_zard.Orchestration.Generation.{Stream, chunk}
use code_zard.Proxy.{InboundRequest}
use code_zard.Gateway.{
  GatewayWorld, Event, started, generated, billed, quoted as quoting, settled, redeemed,
  subscribing, submitted, happen_all, ledger_is_sum,
}

abbrev env : Env
env = record {
  catalog = default_catalog default_pricing;
  asset = "XLM";
  reserve = pos 1;
  clock = λ n. n;
  entry_id = λ n. concat "e" (spell (pos n));
  new_invoice_id = λ n. "cz9";
  isoformat = λ t. "t";
  destination = "GD";
  quote = λ n money asset. some "0.1000000";
  payment_for = λ n i. some none;
  chain_available = true;
  contract_id = "CC";
  chain_subscription = λ n account. some none;
}

abbrev payment_json : Json
payment_json = object (
    field "x402Version" (integer (pos 1)) (
      field "scheme" (text "exact") (
        field "network" (text "stellar")
          (field "payload" (object (field "transaction" (text "AAAA") end)) end))))

abbrev facilitator : Facilitator
facilitator = record {
  env = env;
  network = "stellar";
  verify_envelope = λ n envelope i.
      some (record { valid = true; payer = "GP"; reason = ""; amount = "0.1000000" });
  settle_envelope = λ n envelope. some (record {
    success = true;
    network = "stellar";
    transaction = "t1";
    payer = "GP";
    reason = "";
  });
  price = zero_money;
  resource = "/runs";
  render = λ v. "";
  repr = λ s. s;
  b64decode = λ s. some s;
  loads = λ s. some payment_json;
}

abbrev writer : ChainWriter
writer = record {
  network = "stellar-testnet";
  build_subscribe = λ n account plan. some "XDR";
  submit = λ n signed. some "t2";
}

abbrev outside : Outside
outside = record {
  settings = record {
    pm_service = "pm";
    backend_service = "backend";
    pm_token = "";
    backend_token = "secret";
    locale = "es";
    console = true;
  };
  loads = λ s. err "Expecting value";
  dumps = λ v. "payload";
  render = λ v. "";
  clock = λ n. n;
  new_id = "r1";
  describe = λ e. "";
  forward = λ service r. err "no instance";
}

abbrev world : GatewayWorld
world = record {
  runs = record { runs = []; ttl = 3_600; max = 8 };
  log = record { logs = []; next_event = 0; fired = []; max_bytes = 65_536; max_runs = 8 };
  billing = record { db = empty_db; readings = 0 };
}

abbrev streams : String → InboundRequest → Result String Stream
streams service r = ok (record { status = 200; arrivals = chunk "data: x" ∷ [] })

-- A quote that is open, and an envelope that pays it.
abbrev quoted : Invoice
quoted = record {
  id = "cz9";
  account = "GP";
  sku = "x402";
  tokens = pos 1_000;
  price = zero_money;
  asset = "XLM";
  amount = "0.1";
  destination = "GD";
  created_at = 0;
  expires_at = 600;
  status = pending;
  kind = "x402";
  tx_hash = "";
  payer = "";
}

abbrev envelope : Envelope
envelope = record {
  source = record { account_id = some "GP"; shown = "" };
  memo = text_of "cz9";
  operations =
      payment (record { account_id = some "GD"; shown = "" })
        (record { code = some "XLM"; issuer = none }) "0.1"
      ∷ [];
  digest = some "d";
  signatures = "of GP" ∷ [];
}

abbrev sdk : Sdk
sdk = record {
  installed = true;
  from_xdr = λ xdr passphrase. ok envelope;
  is_key = λ address. true;
  verifies = λ address digest signature. true;
  verifies_message = λ address message signature. false;
  b64decode = λ s. some s;
  decode_utf8 = λ s. s;
  repr = λ s. s;
}

abbrev on_public : StellarConfig
on_public = record {
  network = "public";
  horizon_url = "";
  destination = "GD";
  asset = "XLM";
  usdc_issuer = "";
  xlm_usd = "0.35";
}

abbrev horizon : ℕ → Horizon
horizon n = record {
  config = on_public;
  fetch = λ url params. replied 404 none;
  post = λ url body. replied 200 (some (object (field "hash" (text "t1") end)));
  render = λ v. "";
  fromisoformat = λ s. none;
  now = n;
}

abbrev paying : PaymentPayload
paying = record {
  scheme = "exact";
  network = "stellar";
  payload = field "transaction" (text "AAAA") end;
}

abbrev requirement : PaymentRequirements
requirement = record {
  scheme = "exact";
  network = "stellar";
  max_amount_required = "0.1";
  resource = "/runs";
  description = "";
  pay_to = "GD";
  asset = "XLM";
  max_timeout_seconds = 120;
  extra = field "invoice" (text "cz9") end;
}

abbrev with_quote : Service.World
with_quote = record { db = record empty_db { invoices = quoted ∷ [] }; readings = 0 }

settle_needs_payment_example :
    ((settle (on_network sdk on_public horizon facilitator) paying requirement with_quote).1.db
      ≡ with_quote.db)
    ⊎ IsPaid sdk on_public horizon facilitator paying requirement with_quote
settle_needs_payment_example =
    settle_needs_payment sdk on_public horizon facilitator paying requirement with_quote

abbrev first_week : List Event
first_week =
    billed (settle_call "GA")
    ∷ started outside "a shop" "GA"
    ∷ generated outside streams "r1"
    ∷ quoting "GA" "/runs" none
    ∷ settled paying requirement
    ∷ redeemed "AAAA" "/runs"
    ∷ subscribing "GA" "pro"
    ∷ submitted "GA" "signed"
    ∷ billed (view_call "GA" 50)
    ∷ []

ledger_is_sum_example :
    let rows = all_entries "GA" (happen_all facilitator writer first_week world).billing.db in
    total (balance_of "GA" rows) ≡ max_ℤ (pos 0) (net rows)
ledger_is_sum_example = ledger_is_sum facilitator writer first_week world "GA" refl
