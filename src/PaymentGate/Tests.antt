-- ===== src/PaymentGate/Tests.antt =====
-- A caller with a session, and one with nothing.
use code_zard.Prelude.{true, false, none, some, [], ◌≡◌, refl}
use code_zard.Prelude.Int.{pos}
use code_zard.Prelude.Result.{ok, err}
use code_zard.Json.{text, integer, object, end, field}
use code_zard.Billing.Pricing.{default_pricing}
use code_zard.Billing.Catalog.{default_catalog}
use code_zard.Service.World.{Env, World}
use code_zard.Identity.{Crypto, Identity}
use code_zard.PaymentGate.{Container, payment_required, payer_of, nobody}
use code_zard.PaymentGate.Payers.{Guarded, payer_of-Guarded}

abbrev gateway : Env
gateway = record {
  catalog = default_catalog default_pricing;
  asset = "XLM";
  reserve = pos 1_000;
  clock = λ n. 1_000_000;
  entry_id = λ n. "e1";
  new_invoice_id = λ n. "cz1";
  isoformat = λ t. "t";
  destination = "GD";
  quote = λ n money asset. none;
  payment_for = λ n i. none;
  chain_available = false;
  contract_id = "";
  chain_subscription = λ n account. none;
}

abbrev crypto : Crypto
crypto = record {
  mac = λ s. s;
  b64 = λ s. s;
  unb64 = λ s. some s;
  dumps = λ fs. "claims";
  loads = λ s. some (
      object (
        field "a" (text "GAAAAAAAAAAAAAAAAAAAAAAAAAAAAAAAAAAAAAAAAAAAAAAAAAAAAAAA")
          (field "e" (integer (pos 500)) end)));
  render = λ v. "";
}

abbrev sign_in : Identity
sign_in = record {
  crypto = crypto;
  verifier = record { available = true; verify = λ account message signature. false };
  audience = "codezard";
  session_ttl = pos 60;
}

abbrev container : Container
container = record {
  billing = some gateway;
  identity = some sign_in;
  x402 = none;
  now = pos 450;
  unredeemed_text = λ e. "";
  funds_text = λ e. "";
}

abbrev empty_world : World
empty_world = record {
  db = record { ledger = []; invoices = []; subscriptions = [] };
  readings = 0;
}

-- Without a session the price is named, though no facilitator can quote one.
refused : payer_of container "Basic claims.claims" "" "/runs" empty_world ≡ (
  err (
      payment_required (record {
        error = "this gateway charges for runs: sign in or pay per call";
        accepts = [];
      })),
  empty_world,
)
unfolding payer_of
refused = refl

free_of_charge :
    payer_of (record container { billing = none }) "" "" "/runs" empty_world
    ≡ (ok nobody, empty_world)
unfolding payer_of
free_of_charge = refl

payer_of-Guarded_example :
    Guarded
      (some gateway)
      (payer_of container "Bearer claims.claims" "" "/runs" empty_world)
      empty_world
payer_of-Guarded_example = payer_of-Guarded container "Bearer claims.claims" "" "/runs" empty_world
