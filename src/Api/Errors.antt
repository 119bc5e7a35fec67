-- ===== src/Api/Errors.antt =====
-- src/gateway/api/errors.py: which status, code and text an exception is answered with. The classes are those
-- of src/gateway/domain/exceptions.py and of the parts that raise their own; `http_exception` and
-- `request_validation_error` are the framework's own, which its own handlers answer, and `exception` stands
-- for any other class below `Exception`.
use code_zard.Prelude.{
  ℕ, zero, suc, ◌==◌, ◌≤◌, ◌<◌, String, Bool, true, false, ◌||◌, Option, none, some, List, [], ◌∷◌,
  ◌≡◌, if◌then◌else◌, ◌⊎◌,
}

pub data ErrorClass : Type 0 where
  exception http_exception request_validation_error : ErrorClass
  value_error payment_network_error : ErrorClass
  gateway_error service_not_found instance_not_found duplicate_service : ErrorClass
  upstream_error upstream_timeout upstream_connection orchestration_error circuit_open : ErrorClass
  run_not_found illegal_transition console_disabled no_project project_gone : ErrorClass
  billing_error insufficient_funds unknown_product invoice_not_found contract_error : ErrorClass
  x402_error payment_required identity_error unverifiable : ErrorClass

-- The base class.
unfoldable pub base_of : ErrorClass → Option ErrorClass
base_of exception = none
base_of http_exception = some exception
base_of request_validation_error = some exception
base_of value_error = some exception
base_of payment_network_error = some exception
base_of gateway_error = some exception
base_of upstream_timeout = some upstream_error
base_of upstream_connection = some upstream_error
base_of orchestration_error = some upstream_error
base_of insufficient_funds = some billing_error
base_of unknown_product = some billing_error
base_of invoice_not_found = some billing_error
base_of contract_error = some billing_error
base_of unverifiable = some identity_error
base_of _ = some gateway_error

-- `cls.__mro__`, as far as the classes above go; no class has more than three above it.
unfoldable pub lineage : ℕ → ErrorClass → List ErrorClass
unfolding base_of
lineage zero c = []
lineage (suc fuel) c = c ∷ elim (base_of c) [ none ↦ [] | some b ↦ lineage fuel b ]

abbrev pub mro : ErrorClass → List ErrorClass
mro c = lineage 4 c

-- `_ERROR_STATUS`
unfoldable pub error_status : ErrorClass → Option (ℕ × String)
error_status service_not_found = some (404, "service_not_found")
error_status run_not_found = some (404, "run_not_found")
error_status illegal_transition = some (409, "illegal_transition")
error_status instance_not_found = some (404, "instance_not_found")
error_status console_disabled = some (404, "console_disabled")
error_status no_project = some (409, "no_project")
error_status project_gone = some (410, "project_gone")
error_status upstream_connection = some (502, "bad_gateway")
error_status orchestration_error = some (502, "upstream_failed")
error_status circuit_open = some (503, "service_unavailable")
error_status upstream_timeout = some (504, "gateway_timeout")
error_status insufficient_funds = some (402, "insufficient_funds")
error_status invoice_not_found = some (404, "invoice_not_found")
error_status billing_error = some (400, "billing_error")
error_status x402_error = some (400, "invalid_payment")
error_status unverifiable = some (501, "not_implemented")
error_status identity_error = some (401, "unauthorized")
error_status gateway_error = some (500, "gateway_error")
error_status _ = none

unfoldable pub classified : List ErrorClass → ℕ × String
unfolding error_status
classified [] = (500, "internal_error")
classified (c ∷ cs) =
    let rest = classified cs in elim (error_status c) [ none ↦ rest | some answer ↦ answer ]

-- `classify`
unfoldable pub classify : ErrorClass → ℕ × String
unfolding lineage classified
classify c = classified (mro c)

-- A response: the body in the house envelope, the protocol's own body of a 402, or what the framework's
-- handler answers.
pub record ErrorBody : Type 0 where
  pub code : String
  pub message : String
  pub request_id : Option String

pub data Answer : Type 0 where
  envelope : ℕ → Bool → ErrorBody → Answer
  protocol : ℕ → Answer
  by_framework : Answer

-- `error_response`: a 401 says how to authenticate.
abbrev pub error_response : ℕ → String → String → Option String → Answer
error_response status code message request_id =
    envelope status (status == 401)
      (record { code = code; message = message; request_id = request_id })

-- The handlers, by the class that they are registered for; FastAPI registers its own for its two classes.
abbrev handled : ErrorClass → ErrorClass → String → Option String → Option Answer
handled value_error c message id = some (error_response 400 "bad_request" message id)
handled payment_required c message id = some (protocol 402)
handled gateway_error c message id = some (error_response (classify c).0 (classify c).1 message id)
handled exception c message id =
    some (error_response 500 "internal_error" "Internal server error" id)
handled http_exception c message id = some by_framework
handled request_validation_error c message id = some by_framework
handled _ c message id = none

-- The handler of the first class that has one: `register_error_handlers`.
unfoldable pub first_handled : List ErrorClass → ErrorClass → String → Option String → Option Answer
unfolding classify
first_handled [] c message id = none
first_handled (d ∷ ds) c message id =
    let rest = first_handled ds c message id in
    elim (handled d c message id) [ none ↦ rest | some answer ↦ some answer ]

-- What the API answers to an exception of a class, with its text, while a request of that id is served.
unfoldable pub answer : ErrorClass → String → Option String → Option Answer
unfolding lineage first_handled
answer c message id = first_handled (mro c) c message id

abbrev is_own : ErrorClass → Bool
is_own gateway_error = true
is_own value_error = true
is_own _ = false

unfoldable pub any_own : List ErrorClass → Bool
any_own [] = false
any_own (c ∷ cs) = is_own c || any_own cs

-- A class that is meant for the caller: a `GatewayError` or a `ValueError`.
abbrev pub for_caller : ErrorClass → Bool
for_caller c = any_own (mro c)

-- The answer shows the exception's text exactly to those that the text is meant for, tells how to
-- authenticate exactly with a 401, and is an error.
abbrev pub IsFit : ErrorClass → String → Option String → Option Answer → Type 0
IsFit c message id none = ⊥
IsFit c message id (some (protocol status)) = (c ≡ payment_required) × (status ≡ 402)
IsFit c message id (some by_framework) = (c ≡ http_exception) ⊎ (c ≡ request_validation_error)
IsFit c message id (some (envelope status asks body)) =
    (400 ≤ status)
    × (status < 600)
    × (asks ≡ (status == 401))
    × (body.request_id ≡ id)
    × (body.message ≡ (if for_caller c then message else "Internal server error"))
    × ((if for_caller c then 0 else 500) ≤ status)
