-- ===== src/Network/Envelopes.antt =====
-- `verify` of `infrastructure/billing/stellar.py`, which reads a signed envelope, and the check of the
-- signatures of a sign-in. The SDK's objects are records of the attributes that are read of them.
use code_zard.Prelude.{
  String, Bool, true, false, not, ◌&&◌, ◌||◌, Option, none, some, List, [], ◌∷◌, if◌then◌else◌,
}
use code_zard.Prelude.Text.{same, concat, upper}
use code_zard.Prelude.Result.{Result, ok, err}
use code_zard.Billing.Invoice.{Invoice, memo_of}
use code_zard.X402.{VerifyResult}
use code_zard.Network.{StellarConfig, passphrase_of, NetworkError}
use code_zard.Network.Amounts.{text_amount, covers, amount_text}

-- A source or a destination: its `account_id`, and what `str` gives for it.
pub record Account : Type 0 where
  pub account_id : Option String
  pub shown : String

pub record Asset : Type 0 where
  pub code : Option String
  pub issuer : Option String

pub data Memo : Type 0 where
  no_text : Memo
  text_of bytes_of : String → Memo

pub data Operation : Type 0 where
  payment : Account → Asset → String → Operation
  another : Operation

pub record Envelope : Type 0 where
  pub source : Account
  pub memo : Memo
  pub operations : List Operation
  -- `envelope.hash()`, where it does not raise.
  pub digest : Option String
  pub signatures : List String

-- `stellar_sdk`: `from_xdr` gives the text of what it raises, `is_key` is whether `from_public_key` takes
-- the address, and the checks are whether the key's methods return.
pub record Sdk : Type 0 where
  pub installed : Bool
  pub from_xdr : String → String → Result String Envelope
  pub is_key : String → Bool
  pub verifies : String → String → String → Bool
  pub verifies_message : String → String → String → Bool
  pub b64decode : String → Option String
  pub decode_utf8 : String → String
  pub repr : String → String

abbrev given : Option String → String → String
given none other = other
given (some s) other = if same s "" then other else s

-- `_account_id`
unfoldable pub account_text : Account → String
account_text a = given a.account_id a.shown

abbrev is_none : Option String → Bool
is_none none = true
is_none (some _) = false

abbrev none_or_xlm : Option String → Bool
none_or_xlm none = true
none_or_xlm (some code) = same code "XLM"

-- `_asset_code`
unfoldable pub asset_code : Asset → String
unfolding upper
asset_code a = if none_or_xlm a.code && is_none a.issuer then "XLM" else upper (given a.code "XLM")

module _ (sdk : Sdk) where
  -- `_memo_text`
  unfoldable pub memo_text : Memo → String
  memo_text no_text = ""
  memo_text (text_of s) = s
  memo_text (bytes_of b) = sdk.decode_utf8 b

  unfoldable pub any_verifies : String → String → List String → Bool
  any_verifies address digest [] = false
  any_verifies address digest (s ∷ ss) =
      sdk.verifies address digest s || any_verifies address digest ss

  abbrev signed_digest : String → Option String → List String → Bool
  signed_digest address none ss = false
  signed_digest address (some digest) ss = sdk.is_key address && any_verifies address digest ss

  -- `_signed_by`
  unfoldable pub signed_by : Envelope → String → Bool
  unfolding any_verifies
  signed_by e address = signed_digest address e.digest e.signatures

  -- Whether an operation is a payment of the invoice's asset to its destination.
  abbrev pub concerns : Invoice → Account → Asset → Bool
  concerns i to asset =
      same (account_text to) i.destination && same (asset_code asset) (upper i.asset)

  abbrev pub rejected : String → String → String → VerifyResult
  rejected payer amount reason = record {
    valid = false;
    payer = payer;
    reason = reason;
    amount = amount;
  }

  abbrev pub accepted : String → String → VerifyResult
  accepted payer amount = record { valid = true; payer = payer; reason = ""; amount = amount }

  abbrev spelled :
      Result NetworkError String → (String → VerifyResult) → Result NetworkError VerifyResult
  spelled (ok amount) result = ok (result amount)
  spelled (err e) result = err e

  -- What the first payment that concerns the invoice decides.
  unfoldable pub judged_payment : Invoice → String → String → Result NetworkError VerifyResult
  unfolding text_amount covers amount_text
  judged_payment i payer amount = spelled (amount_text (text_amount amount)) λ shown.
      if covers (text_amount amount) (text_amount i.amount)
      then accepted payer shown
      else rejected payer shown
          (concat "it pays " (concat shown (concat " and the price is " i.amount)))

  -- The loop over the operations.
  unfoldable pub judge_operations :
      Invoice → String → List Operation → Result NetworkError VerifyResult
  unfolding judged_payment account_text asset_code upper
  judge_operations i payer [] = ok (
      rejected payer ""
        (concat "no operation pays " (concat i.asset (concat " to " i.destination))))
  judge_operations i payer (another ∷ ops) = judge_operations i payer ops
  judge_operations i payer (payment to asset amount ∷ ops) =
      let rest = judge_operations i payer ops in
      if concerns i to asset then judged_payment i payer amount else rest

  unfoldable pub judge_envelope :
      StellarConfig → Invoice → Envelope → Result NetworkError VerifyResult
  unfolding account_text memo_text memo_of signed_by judge_operations
  judge_envelope c i e =
      let payer = account_text e.source in
      let memo = memo_text e.memo in
      if not (same memo (memo_of i))
      then ok (
          rejected payer "" (
            concat "the transaction's memo is "
              (concat (sdk.repr memo) (concat ", not " (sdk.repr (memo_of i))))))
      else if not (signed_by e payer)
      then ok (
          rejected payer ""
            (concat "the transaction is not signed by its source account for " c.network))
      else judge_operations i payer e.operations

  abbrev pub judge_parsed :
      StellarConfig → Invoice → Result String Envelope → Result NetworkError VerifyResult
  judge_parsed c i (err message) =
      ok (rejected "" "" (concat "the transaction could not be read: " message))
  judge_parsed c i (ok e) = judge_envelope c i e

  -- `StellarNetwork.verify`
  unfoldable pub verify : StellarConfig → String → Invoice → Result NetworkError VerifyResult
  unfolding judge_envelope passphrase_of
  verify c transaction i =
      if sdk.installed
      then judge_parsed c i (sdk.from_xdr transaction (passphrase_of c))
      else ok (
          rejected "" ""
            "this gateway cannot read signed transactions: the Stellar dependency is not installed (pip install -e \".[stellar]\")")

  abbrev checked : String → String → Option String → Bool
  checked address message none = false
  checked address message (some raw) =
      sdk.is_key address
      && (sdk.verifies_message address message raw || sdk.verifies address message raw)

  -- `StellarSignatures.verify`
  unfoldable pub verify_signature : String → String → String → Bool
  verify_signature address message signature =
      sdk.installed && checked address message (sdk.b64decode signature)
