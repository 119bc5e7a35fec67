-- ===== src/X402/Wire.antt =====
-- The documents of src/gateway/domain/x402.py as they go over the wire.
use Prim.Native.String.{count}
use code_zard.Prelude.{
  ◌≤◌, String, false, List, [], ◌∷◌, some, ltb, if◌then◌else◌, ◌≡◌, ◌≢◌, refl, sym, arith,
  Bool-cases, inl, inr,
}
use code_zard.Prelude.Int.{pos}
use code_zard.Prelude.Text.{same, same_iff, strip}
use code_zard.Prelude.Result.{ok}
use code_zard.Json.{
  Json, null, boolean, integer, text, array, object, Items, nil, item, Fields, end, field,
  str_or_empty, truthy, str,
}
use code_zard.X402.{
  max_payload_bytes, PaymentRequirements, PaymentRequired, PaymentPayload, VerifyResult,
  SettleResult, Facilitator, decode,
}

-- `PaymentRequirements.as_json`; nothing sets another `mime_type`.
unfoldable pub requirements_json : PaymentRequirements → Json
requirements_json r = object (
    field "scheme" (text r.scheme) (
      field "network" (text r.network) (
        field "maxAmountRequired" (text r.max_amount_required) (
          field "resource" (text r.resource) (
            field "description" (text r.description) (
              field "mimeType" (text "application/json") (
                field "payTo" (text r.pay_to) (
                  field "maxTimeoutSeconds" (integer (pos r.max_timeout_seconds))
                    (field "asset" (text r.asset) (field "extra" (object r.extra) end))))))))))

unfoldable pub all_requirements : List PaymentRequirements → Items
unfolding requirements_json
all_requirements [] = nil
all_requirements (r ∷ rs) = item (requirements_json r) (all_requirements rs)

-- `PaymentRequired.as_json`
unfoldable pub required_json : PaymentRequired → Json
unfolding all_requirements
required_json r = object (
    field "x402Version" (integer (pos 1))
      (field "error" (text r.error) (field "accepts" (array (all_requirements r.accepts)) end)))

-- `PaymentPayload.as_json`, as the fields of the object.
unfoldable pub payload_json : PaymentPayload → Fields
payload_json p = field "x402Version" (integer (pos 1)) (
    field "scheme" (text p.scheme)
      (field "network" (text p.network) (field "payload" (object p.payload) end)))

-- `reason or None`
abbrev text_or_null : String → Json
text_or_null s = if same s "" then null else text s

-- `VerifyResult.as_json`
unfoldable pub verified_json : VerifyResult → Json
verified_json r = object (
    field "isValid" (boolean r.valid) (
      field "payer" (text r.payer)
        (field "invalidReason" (text_or_null r.reason) (field "amount" (text r.amount) end))))

-- `SettleResult.as_json`
unfoldable pub settled_json : SettleResult → Json
settled_json r = object (
    field "success" (boolean r.success) (
      field "transaction" (text r.transaction) (
        field "network" (text r.network)
          (field "payer" (text r.payer) (field "errorReason" (text_or_null r.reason) end)))))

-- `SettleResult.encode`; the encodings come from outside.
unfoldable pub encode : (Json → String) → (String → String) → SettleResult → String
unfolding settled_json
encode dumps b64encode r = b64encode (dumps (settled_json r))

unfoldable pub kinds : List (String × String) → Items
kinds [] = nil
kinds (k ∷ ks) =
    item
      (object (
        field "x402Version" (integer (pos 1))
          (field "scheme" (text k.0) (field "network" (text k.1) end))))
      (kinds ks)

-- `Supported.as_json`
unfoldable pub supported_json : List (String × String) → Json
unfolding kinds
supported_json ks = object (field "kinds" (array (kinds ks)) end)

str_or_empty-text : (render : Json → String) (s : String) → str_or_empty render (text s) ≡ s
unfolding str_or_empty truthy str
str_or_empty-text render s = elim (Bool-cases (same s "")) [
  | inl empty ↦ rw empty (sym ((same_iff s "").0 empty))
  | inr named ↦ rw named refl
]

-- A header that is not empty and not too large, and that decodes to the text of a payment's own document,
-- is read back as that payment.
pub decode-payload_json :
    (f : Facilitator) (header body : String) (p : PaymentPayload)
    → strip header ≢ ""
    → count (strip header) ≤ max_payload_bytes
    → f.b64decode (strip header) ≡ some body
    → f.loads body ≡ some (object (payload_json p))
    → decode f header ≡ ok p
unfolding decode payload_json
decode-payload_json f header body p some_text short decodes reads =
    let named : same (strip header) "" ≡ false = ground (arith, same_iff (strip header) "") in
    let fits : ltb max_payload_bytes (count (strip header)) ≡ false = ground arith in
    rw
      (
        named,
        fits,
        decodes,
        reads,
        str_or_empty-text f.render p.scheme,
        str_or_empty-text f.render p.network,
      )
      refl
