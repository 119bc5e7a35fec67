-- ===== src/Network/Tests.antt =====
-- An invoice of five dollars, Horizon's answer about it, and an envelope that pays it with anybody's USDC.
use code_zard.Prelude.{
  ℕ, ◌<◌, String, true, false, Option, none, some, [], ◌∷◌, ◌≡◌, ◌⊎◌, refl, if◌then◌else◌,
}
use code_zard.Prelude.Int.{pos, ◌*ℤ◌}
use code_zard.Prelude.Text.{same}
use code_zard.Prelude.Result.{ok, err}
use code_zard.Json.{Json, text, array, object, nil, item, end, field}
use code_zard.Billing.Invoice.{Invoice, pending, memo_of, ObservedPayment}
use code_zard.Network.{StellarConfig, replied, passphrase_of}
use code_zard.Network.Records.{Horizon, records}
use code_zard.Network.Horizon.{payment_for, payments_url, xlm_usd}
use code_zard.Network.Envelopes.{
  Envelope, Sdk, payment, another, text_of, account_text, signed_by, accepted, verify,
}
use code_zard.Network.Paying.{Pays, verify-Pays, verify-reissued, reissued}
use code_zard.Network.Found.{IsFirst, payment_for-IsFirst}

abbrev five_dollars : Invoice
five_dollars = record {
  id = "cz1";
  account = "GA";
  sku = "pack";
  tokens = pos 1_000;
  price = record { micros = pos 5_000_000 };
  asset = "USDC";
  amount = "5";
  destination = "GD";
  created_at = 0;
  expires_at = 600_000_000;
  status = pending;
  kind = "pack";
  tx_hash = "";
  payer = "";
}

abbrev on_testnet : StellarConfig
on_testnet = record {
  network = "testnet";
  horizon_url = "";
  destination = "GD";
  asset = "XLM";
  usdc_issuer = "";
  xlm_usd = "0.35";
}

abbrev others_dollars : Envelope
others_dollars = record {
  source = record { account_id = some "GP"; shown = "" };
  memo = text_of "cz1";
  operations =
      payment (record { account_id = some "GD"; shown = "" })
        (record { code = some "USDC"; issuer = some "GANYONE" }) "5"
      ∷ another
      ∷ [];
  digest = some "d";
  signatures = "of another" ∷ "of GP" ∷ [];
}

-- The same, paid in the dollars of somebody else, and signed anew.
abbrev others_reissued : Envelope
others_reissued = record {
  source = record { account_id = some "GP"; shown = "" };
  memo = text_of "cz1";
  operations =
      payment (record { account_id = some "GD"; shown = "" })
        (record { code = some "USDC"; issuer = some "GMADEUP" }) "5"
      ∷ another
      ∷ [];
  digest = some "e";
  signatures = "of GP" ∷ [];
}

abbrev sdk : Sdk
sdk = record {
  installed = true;
  from_xdr = λ envelope passphrase.
      if same envelope "AAAA"
      then ok others_dollars
      else if same envelope "BBBB"
      then ok others_reissued
      else err "not XDR";
  is_key = λ address. true;
  verifies = λ address digest signature. same signature "of GP";
  verifies_message = λ address message signature. false;
  b64decode = λ s. some s;
  decode_utf8 = λ s. s;
  repr = λ s. s;
}

-- What is verified.
others_dollars_pay : verify sdk on_testnet "AAAA" five_dollars ≡ ok (accepted sdk "GP" "5.0000000")
unfolding verify ◌*ℤ◌
others_dollars_pay = refl

verify-Pays_example :
    (e : Envelope) × (sdk.from_xdr "AAAA" (passphrase_of on_testnet) ≡ ok e)
    × Pays sdk five_dollars e (accepted sdk "GP" "5.0000000")
verify-Pays_example =
    verify-Pays sdk five_dollars on_testnet "AAAA" (accepted sdk "GP" "5.0000000")
      others_dollars_pay refl

-- The issuer that stands in the second envelope.
abbrev made_up : String → String
made_up issuer = "GMADEUP"

verify-reissued_example :
    verify sdk on_testnet "BBBB" five_dollars ≡ verify sdk on_testnet "AAAA" five_dollars
unfolding signed_by account_text reissued
verify-reissued_example =
    verify-reissued sdk five_dollars on_testnet "AAAA" "BBBB" others_dollars others_reissued made_up
      refl refl refl refl refl refl

-- A payment with another memo, a record of another kind, and the payment of the invoice.
abbrev listing : Json
listing = object (
    field "_embedded"
      (object (
        field "records"
          (array (
            item
              (object (
                field "type" (text "payment") (
                  field "transaction"
                    (object (field "memo_type" (text "text") (field "memo" (text "cz0") end)))
                    end)))
              (item (object (field "type" (text "path_payment") end)) (
                item
                  (object (
                    field "type" (text "payment") (
                      field "transaction_hash" (text "t1") (
                        field "asset_type" (text "native") (
                          field "transaction"
                            (object
                              (field "memo_type" (text "text") (field "memo" (text "cz1") end)))
                            end)))))
                  nil))))
          end))
      end)

abbrev horizon : Horizon
horizon = record {
  config = on_testnet;
  fetch = λ url params. replied 200 (some listing);
  post = λ url body. replied 200 none;
  render = λ v. "";
  fromisoformat = λ s. none;
  now = 60_000_000;
}

abbrev observed : ObservedPayment
observed = record {
  tx_hash = "t1";
  payer = "";
  destination = "";
  asset = "XLM";
  amount = "0";
  memo = "cz1";
  at = 60_000_000;
}

observed_first : payment_for horizon five_dollars ≡ ok (some observed)
unfolding payment_for
observed_first = refl

payment_for-IsFirst_example :
    (status : ℕ) × (body : Option Json) × (horizon.fetch
        (payments_url horizon five_dollars)
        (("order", "desc") ∷ ("limit", "50") ∷ ("join", "transactions") ∷ [])
      ≡ replied status body)
    × (((status ≡ 404) × (some observed ≡ none))
        ⊎ ((b : Json) × (body ≡ some b)
            × (status < 400)
            × IsFirst horizon (memo_of five_dollars) (records b) (some observed)))
payment_for-IsFirst_example =
    payment_for-IsFirst horizon five_dollars (some observed) observed_first
