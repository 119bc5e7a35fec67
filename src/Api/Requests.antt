-- ===== src/Api/Requests.antt =====
-- src/gateway/api/middleware.py, `to_inbound_request` of src/gateway/api/adapters.py and `_forward` of
-- src/gateway/api/routes/proxy.py: what the gateway takes from a request. Header names arrive in small
-- letters.
use Prim.Native.Char.{Char, code}
use Prim.Native.String.{count, [] as empty_text, ◌∷◌ as ◌then_char◌}
use code_zard.Prelude.{
  ◌==◌, String, Bool, ◌&&◌, ◌||◌, Option, none, some, [], ◌∷◌, leb, if◌then◌else◌, ◌≡◌, refl,
}
use code_zard.Prelude.Text.{same, all_chars}
use code_zard.Resilience.Upstream.{Headers}
use code_zard.Proxy.{InboundRequest}

-- What Starlette has read of a request, and the id that the middleware has put on it.
pub record Received : Type 0 where
  pub method : String
  pub headers : Headers
  pub query_params : Headers
  pub body : String
  pub client_host : Option String
  pub scheme : String
  pub request_id : Option String

-- `request.headers.get(name)`: the first value of that name.
unfoldable pub first_value : String → Headers → Option String
first_value name [] = none
first_value name (h ∷ hs) = if same h.0 name then some h.1 else first_value name hs

abbrev pub is_id_char : Char → Bool
is_id_char c =
    let n = code c in
    (leb b'A' n && leb n b'Z')
    || (leb b'a' n && leb n b'z')
    || (leb b'0' n && leb n b'9')
    || n == b'.'
    || n == b'_'
    || n == b'-'

-- `_VALID_REQUEST_ID.fullmatch(incoming)`
unfoldable pub is_request_id : String → Bool
unfolding all_chars
is_request_id s = leb 1 (count s) && leb (count s) 128 && all_chars is_id_char s

abbrev text_or_empty : Option String → String
text_or_empty none = ""
text_or_empty (some s) = s

-- `_resolve_request_id`; the random id comes from outside.
unfoldable pub resolve_request_id : String → Headers → String
unfolding first_value is_request_id
resolve_request_id fresh headers =
    let incoming = text_or_empty (first_value "x-request-id" headers) in
    if is_request_id incoming then incoming else fresh

-- `to_inbound_request`
unfoldable pub to_inbound_request : Received → String → InboundRequest
unfolding first_value
to_inbound_request r path = record {
  method = r.method;
  path = path;
  headers = r.headers;
  query_params = r.query_params;
  body = r.body;
  client_host = r.client_host;
  scheme = r.scheme;
  host = first_value "host" r.headers;
  request_id = r.request_id;
}

-- `service_name.partition("@")`: the name, and the instance behind the first separator if there is one.
unfoldable pub pinned : String → String × Option String
pinned empty_text = ("", none)
pinned (c then_char s) =
    let rest = pinned s in if code c == b'@' then ("", some s) else (c then_char rest.0, rest.1)

pinned_test : pinned "mirag@3fa1@x" ≡ ("mirag", some "3fa1@x")
unfolding pinned
pinned_test = refl
