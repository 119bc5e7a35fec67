-- ===== src/Proxy.antt =====
-- src/gateway/application/header_policy.py and src/gateway/application/proxy_service.py: which headers
-- cross the gateway, and the request that a client's request becomes. Header names are ASCII.
pub mod Policy
pub mod Forwarding
pub mod Address
mod Tests
use Prim.Native.Char.{Char, code}
use Prim.Native.String.{[] as empty_text, ◌∷◌ as ◌then_char◌}
use code_zard.Prelude.{
  ℕ, ◌==◌, String, Bool, true, false, not, Option, none, some, List, [], ◌∷◌, ◌++◌, map, keep,
  if◌then◌else◌,
}
use code_zard.Prelude.Text.{same, lower, strip, concat}
use code_zard.Prelude.Result.{Result, ok, err}
use code_zard.Resilience.Upstream.{Headers, ServiceInstance, ServiceDefinition, one_of}
use code_zard.Services.{find_service, pick_instance}

pub record InboundRequest : Type 0 where
  pub method : String
  pub path : String
  pub headers : Headers
  pub query_params : Headers
  pub body : String
  pub client_host : Option String
  pub scheme : String
  pub host : Option String
  pub request_id : Option String

abbrev pub hop_by_hop_headers : List String
hop_by_hop_headers =
    "connection" ∷ "keep-alive" ∷ "proxy-authenticate" ∷ "proxy-authorization" ∷ "te" ∷ "trailer"
    ∷ "trailers" ∷ "transfer-encoding" ∷ "upgrade" ∷ []

abbrev pub recomputed_request_headers : List String
recomputed_request_headers = "host" ∷ "content-length" ∷ []

abbrev pub forwarding_names : List String
forwarding_names =
    "x-forwarded-for" ∷ "x-forwarded-proto" ∷ "x-forwarded-host" ∷ "x-request-id" ∷ []

abbrev stale_response_headers : List String
stale_response_headers = "content-encoding" ∷ "content-length" ∷ []

abbrev prepend : Char → List String → List String
prepend c [] = (c then_char empty_text) ∷ []
prepend c (s ∷ ss) = (c then_char s) ∷ ss

-- `value.split(",")`
unfoldable split_commas : String → List String
split_commas empty_text = "" ∷ []
split_commas (c then_char s) =
    let rest = split_commas s in if code c == b',' then "" ∷ rest else prepend c rest

-- `[token.strip().lower() for token in tokens if token.strip()]`
unfoldable clean_tokens : List String → List String
unfolding strip lower
clean_tokens [] = []
clean_tokens (t ∷ ts) =
    let rest = clean_tokens ts in if same (strip t) "" then rest else lower (strip t) ∷ rest

-- `_connection_tokens`
unfoldable pub connection_tokens : Headers → List String
unfolding split_commas clean_tokens lower
connection_tokens [] = []
connection_tokens (h ∷ hs) =
    let rest = connection_tokens hs in
    if same (lower h.0) "connection" then clean_tokens (split_commas h.1) ++ rest else rest

-- The headers whose name, in small letters, is not among the dropped ones.
unfoldable pub without_names : List String → Headers → Headers
unfolding lower
without_names dropped hs = keep (λ h. not (one_of (lower h.0) dropped)) hs

abbrev pub values_named : String → Headers → List String
values_named name [] = []
values_named name (h ∷ hs) =
    let rest = values_named name hs in if same (lower h.0) name then h.1 ∷ rest else rest

-- `", ".join(chain)`
unfoldable pub join_commas : List String → String
join_commas [] = ""
join_commas (s ∷ []) = s
join_commas (s ∷ t ∷ ss) = concat s (concat ", " (join_commas (t ∷ ss)))

-- A header with a value that is there and not empty.
abbrev pub header_if : String → Option String → Headers
header_if name none = []
header_if name (some v) = if same v "" then [] else (name, v) ∷ []

abbrev pub values_if : Option String → List String
values_if none = []
values_if (some v) = if same v "" then [] else v ∷ []

abbrev pub forwarded_for : List String → Headers
forwarded_for [] = []
forwarded_for (v ∷ vs) = ("x-forwarded-for", join_commas (v ∷ vs)) ∷ []

-- `_forwarding_headers`
unfoldable pub forwarding_headers : InboundRequest → Headers
unfolding join_commas
forwarding_headers r =
    let chain = values_named "x-forwarded-for" r.headers ++ values_if r.client_host in
    ("x-forwarded-proto", r.scheme)
    ∷ (forwarded_for chain
        ++ (header_if "x-forwarded-host" r.host ++ header_if "x-request-id" r.request_id))

-- The names that `for_upstream` drops.
unfoldable pub dropped_upstream : Headers → Headers → List String
unfolding connection_tokens lower
dropped_upstream headers service_headers =
    hop_by_hop_headers
    ++ (recomputed_request_headers
        ++ (forwarding_names
            ++ (connection_tokens headers ++ map (λ h. lower h.0) service_headers)))

unfoldable pub for_upstream : InboundRequest → Headers → Headers
unfolding without_names forwarding_headers dropped_upstream
for_upstream r service_headers =
    without_names (dropped_upstream r.headers service_headers) r.headers
    ++ (forwarding_headers r ++ service_headers)

unfoldable pub dropped_client : Headers → List String
unfolding connection_tokens
dropped_client headers = hop_by_hop_headers ++ (stale_response_headers ++ connection_tokens headers)

unfoldable pub for_client : Headers → Headers
unfolding without_names dropped_client
for_client headers = without_names (dropped_client headers) headers

pub record OutboundRequest : Type 0 where
  pub service : ServiceDefinition
  pub method : String
  pub path : String
  pub headers : Headers
  pub query_params : Headers
  pub body : String
  pub instance_of : Option ServiceInstance

-- `ServiceNotFoundError` and `InstanceNotFoundError`
pub data RoutingError : Type 0 where
  service_not_found : String → RoutingError
  instance_not_found : String → String → RoutingError

abbrev pub chosen : ServiceDefinition → Option String → Result RoutingError (Option ServiceInstance)
chosen s none = ok none
chosen s (some id) = elim (pick_instance s id) [
  | none ↦ err (instance_not_found s.name id)
  | some i ↦ ok (some i)
]

abbrev pub outbound_to :
    InboundRequest
    → ServiceDefinition
    → Result RoutingError (Option ServiceInstance)
    → Result RoutingError OutboundRequest
outbound_to r s (err e) = err e
outbound_to r s (ok i) = ok (record {
  service = s;
  method = r.method;
  path = r.path;
  headers = for_upstream r s.headers;
  query_params = r.query_params;
  body = r.body;
  instance_of = i;
})

abbrev pub outbound_for :
    String
    → InboundRequest
    → Option String
    → Option ServiceDefinition
    → Result RoutingError OutboundRequest
outbound_for service_name r instance_id none = err (service_not_found service_name)
outbound_for service_name r instance_id (some s) = outbound_to r s (chosen s instance_id)

-- `_outbound`
unfoldable pub outbound :
    List ServiceDefinition
    → String
    → InboundRequest
    → Option String
    → Result RoutingError OutboundRequest
unfolding find_service pick_instance for_upstream
outbound registry service_name r instance_id =
    outbound_for service_name r instance_id (find_service registry service_name)
