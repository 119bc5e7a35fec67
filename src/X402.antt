-- ===== src/X402.antt =====
-- src/gateway/domain/x402.py and src/gateway/application/x402_service.py: a request that carries its own
-- payment. The payment network and the decoding of headers are parameters.
pub mod Payments
pub mod Books
pub mod Settling
pub mod Wire
pub mod Verified
mod Tests
use code_zard.Prelude.{
  ℕ, ◌==◌, String, Bool, true, false, not, Option, none, some, List, [], ◌∷◌, ltb, if◌then◌else◌,
}
use Prim.Native.String.{count}
use code_zard.Prelude.Int.{ℤ, pos}
use code_zard.Prelude.Text.{same, strip, concat, spell_grouped}
use code_zard.Prelude.Result.{Result, ok, err}
use code_zard.Json.{
  Json, null, boolean, integer, real, text, array, object, Fields, end, field, get, as_text,
  as_object, str_or_empty,
}
use code_zard.Billing.Money.{Money}
use code_zard.Billing.Invoice.{Invoice}
use code_zard.Service.World.{Env}

abbrev pub scheme : String
scheme = "exact"

abbrev max_payload_bytes : ℕ
max_payload_bytes = 16_384

pub record PaymentRequirements : Type 0 where
  pub scheme : String
  pub network : String
  pub max_amount_required : String
  pub resource : String
  pub description : String
  pub pay_to : String
  pub asset : String
  pub max_timeout_seconds : ℕ
  pub extra : Fields

-- The body of a 402: why, and what would be accepted.
pub record PaymentRequired : Type 0 where
  pub error : String
  pub accepts : List PaymentRequirements

pub record PaymentPayload : Type 0 where
  pub scheme : String
  pub network : String
  pub payload : Fields

-- `PaymentPayload.transaction`
unfoldable pub transaction : PaymentPayload → String
unfolding get
transaction p = as_text (get "transaction" p.payload)

pub record VerifyResult : Type 0 where
  pub valid : Bool
  pub payer : String
  pub reason : String
  pub amount : String

pub record SettleResult : Type 0 where
  pub success : Bool
  pub network : String
  pub transaction : String
  pub payer : String
  pub reason : String

-- What `X402Service` is made of. A call of the network is handed the number of the reading; `none` is a
-- raise. `b64decode` is strict, and `loads` and it raise by `none`.
pub record Facilitator : Type 0 where
  pub env : Env
  pub network : String
  pub verify_envelope : ℕ → String → Invoice → Option VerifyResult
  pub settle_envelope : ℕ → String → Option SettleResult
  pub price : Money
  pub resource : String
  pub render : Json → String
  pub repr : String → String
  pub b64decode : String → Option String
  pub loads : String → Option Json

-- The `X402Error`s of `decode`.
pub data HeaderError : Type 0 where
  empty_header header_too_large not_base64_json not_an_object version_not_supported : HeaderError

-- `version != 1`, where Python holds `True` and `1.0` for one as well; `str` of a float that is one is
-- `"1.0"`.
abbrev is_one : Json → Bool
is_one (integer (pos n)) = n == 1
is_one (boolean b) = b
is_one (real s) = same s "1.0"
is_one _ = false

-- `v or ""`, as a dictionary where it is one.
abbrev inner_object : Option Fields → Fields
inner_object none = end
inner_object (some fs) = fs

module _ (f : Facilitator) where
  unfoldable read_payload : Fields → Result HeaderError PaymentPayload
  unfolding get str_or_empty
  read_payload body =
      if is_one (get "x402Version" body)
      then ok (record {
        scheme = str_or_empty f.render (get "scheme" body);
        network = str_or_empty f.render (get "network" body);
        payload = inner_object (as_object (get "payload" body));
      })
      else err version_not_supported

  abbrev parsed : Option Json → Result HeaderError PaymentPayload
  parsed none = err not_base64_json
  parsed (some (object body)) = read_payload body
  parsed (some _) = err not_an_object

  abbrev decoded : Option String → Result HeaderError PaymentPayload
  decoded none = err not_base64_json
  decoded (some body) = parsed (f.loads body)

  -- `PaymentPayload.decode`
  unfoldable pub decode : String → Result HeaderError PaymentPayload
  unfolding strip read_payload
  decode header =
      let raw = strip header in
      if same raw ""
      then err empty_header
      else if ltb max_payload_bytes (count raw)
      then err header_too_large
      else decoded (f.b64decode raw)
