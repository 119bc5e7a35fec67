-- ===== src/Network/Horizon.antt =====
-- The calls of Horizon of `infrastructure/billing/stellar.py`: `payment_for`, `quote` and `settle`.
use code_zard.Prelude.{
  ◌==◌, String, true, false, not, Option, none, some, List, [], ◌∷◌, leb, if◌then◌else◌,
}
use code_zard.Prelude.Text.{same, concat, upper}
use code_zard.Prelude.Result.{Result, ok, err}
use code_zard.Json.{Json, boolean, Fields, get, as_object, as_list, truthy, str, str_or_empty}
use code_zard.Billing.Money.{Money}
use code_zard.Billing.Invoice.{Invoice, memo_of, ObservedPayment}
use code_zard.X402.{SettleResult}
use code_zard.Network.{
  horizon_of, x402_network, HttpReply, failed, replied, NetworkError, not_reached, refused_with,
  no_rate, not_json,
}
use code_zard.Network.Amounts.{
  Amount, is_positive, json_amount, text_amount, exact_quote, rated_quote,
}
use code_zard.Network.Records.{Horizon, get_or, records, json_or_empty, joined, payment_of}

module _ (h : Horizon) where
  -- A record's payment, if it has the memo.
  abbrev pub with_memo : String → Option ObservedPayment → Option ObservedPayment
  with_memo memo none = none
  with_memo memo (some p) = if same p.memo memo then some p else none

  -- The loop of `payment_for` over the records.
  unfoldable pub first_with_memo : String → List Fields → Option ObservedPayment
  unfolding payment_of
  first_with_memo memo [] = none
  first_with_memo memo (r ∷ rs) = elim (with_memo memo (payment_of h r)) [
    | none ↦ first_with_memo memo rs
    | some p ↦ some p
  ]

  abbrev pub found_in : Invoice → HttpReply → Result NetworkError (Option ObservedPayment)
  found_in i (failed message) = err (not_reached message)
  found_in i (replied status body) =
      if status == 404
      then ok none
      else if leb 400 status
      then err (refused_with status)
      else elim body [ none ↦ err not_json | some b ↦ ok (first_with_memo (memo_of i) (records b)) ]

  abbrev pub payments_url : Invoice → String
  payments_url i =
      concat (horizon_of h.config) (concat "/accounts/" (concat i.destination "/payments"))

  -- `payment_for`
  unfoldable pub payment_for : Invoice → Result NetworkError (Option ObservedPayment)
  unfolding first_with_memo records memo_of horizon_of
  payment_for i = found_in i (
      h.fetch (payments_url i)
        (("order", "desc") ∷ ("limit", "50") ∷ ("join", "transactions") ∷ []))

  -- The first positive rate among the paths.
  unfoldable pub first_rate : List Fields → Option Amount
  unfolding json_amount get
  first_rate [] = none
  first_rate (r ∷ rs) =
      let amount = json_amount h.render (get "destination_amount" r) in
      let rest = first_rate rs in if is_positive amount then some amount else rest

  abbrev rate_in : HttpReply → Option Amount
  rate_in (failed _) = none
  rate_in (replied status none) = none
  rate_in (replied status (some body)) = if leb 400 status then none else first_rate (records body)

  abbrev paths_reply : HttpReply
  paths_reply = h.fetch (concat (horizon_of h.config) "/paths/strict-send") (
      ("source_asset_type", "native")
      ∷ ("source_amount", "1")
      ∷ ("destination_assets", concat "USDC:" h.config.usdc_issuer)
      ∷ [])

  -- `_xlm_usd`
  unfoldable pub xlm_usd : Amount
  unfolding first_rate records text_amount horizon_of
  xlm_usd = elim (if same h.config.usdc_issuer "" then none else rate_in paths_reply) [
    | none ↦ text_amount h.config.xlm_usd
    | some rate ↦ rate
  ]

  -- `quote`
  unfoldable pub quote : Money → String → Result NetworkError String
  unfolding upper xlm_usd exact_quote rated_quote
  quote price asset =
      if same (upper (if same asset "" then h.config.asset else asset)) "USDC"
      then exact_quote price
      else if not (is_positive xlm_usd)
      then err no_rate
      else rated_quote price xlm_usd

  abbrev said : Json → String → String
  said v default = if truthy v then str h.render v else default

  abbrev with_codes : Fields → Option Fields → String
  with_codes body none = said (get "title" body) "Horizon refused the transaction"
  with_codes body (some codes) =
      let headline = said (get "transaction" codes) "the transaction failed" in
      let detail = joined h.render (as_list (get "operations" codes)) in
      if same detail "" then headline else concat headline (concat " (" (concat detail ")"))

  -- `_horizon_error`
  unfoldable pub horizon_error : Fields → String
  unfolding get truthy str joined as_list
  horizon_error body = with_codes body (elim (as_object (get "extras" body)) [
    | none ↦ none
    | some extras ↦ as_object (get "result_codes" extras)
  ])

  abbrev unsettled : String → String → SettleResult
  unsettled transaction reason = record {
    success = false;
    network = x402_network h.config;
    transaction = transaction;
    payer = "";
    reason = reason;
  }

  abbrev pub settled_with : HttpReply → SettleResult
  settled_with (failed message) = unsettled "" (concat "Horizon could not be reached: " message)
  settled_with (replied status answer) =
      let body = json_or_empty answer in
      if leb 400 status
      then unsettled "" (horizon_error body)
      else if not (truthy (get_or "successful" (boolean true) body))
      then unsettled (str_or_empty h.render (get "hash" body))
          "the transaction was included and failed"
      else record {
        success = true;
        network = x402_network h.config;
        transaction = str_or_empty h.render (get "hash" body);
        payer = str_or_empty h.render (get "source_account" body);
        reason = "";
      }

  -- `settle`
  unfoldable pub settle : String → SettleResult
  unfolding horizon_error truthy get get_or str_or_empty x402_network horizon_of
  settle transaction =
      settled_with (h.post (concat (horizon_of h.config) "/transactions") transaction)
