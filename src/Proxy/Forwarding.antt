-- ===== src/Proxy/Forwarding.antt =====
-- `ProxyService.forward` and `ProxyService.stream` (src/gateway/application/proxy_service.py), over a client
-- that may answer anything, and the route of src/gateway/api/routes/proxy.py that calls the latter.
use code_zard.Prelude.{ℕ, String, Option, none, some, List, ◌≡◌, refl, arith}
use code_zard.Prelude.Result.{Result, ok, err}
use code_zard.Resilience.Upstream.{Headers, ServiceInstance, ServiceDefinition}
use code_zard.Services.{find_service}
use code_zard.Proxy.{
  InboundRequest, OutboundRequest, RoutingError, for_upstream, for_client, outbound, chosen,
  outbound_to, outbound_for,
}

-- `UpstreamResponse`, and `UpstreamStream` with the chunks of its body.
pub record UpstreamResponse (Body : Type 0) : Type 0 where
  pub status_code : ℕ
  pub headers : Headers
  pub body : Body
  pub instance_id : Option String

-- What stops a request: the routing, or what the client raises.
pub data ProxyError (E : Type 0) : Type 0 where
  routing : RoutingError → ProxyError E
  raised : E → ProxyError E

module _ {E Body : Type 0} (client : OutboundRequest → Result E (UpstreamResponse Body)) where
  abbrev pub for_caller :
      Result E (UpstreamResponse Body) → Result (ProxyError E) (UpstreamResponse Body)
  for_caller (ok up) = ok (record up { headers = for_client up.headers })
  for_caller (err e) = err (raised e)

  abbrev pub through :
      Result RoutingError OutboundRequest → Result (ProxyError E) (UpstreamResponse Body)
  through (ok request) = for_caller (client request)
  through (err e) = err (routing e)

  -- `forward`, with `send` for the client's method, and `stream`, with `stream` for it.
  unfoldable pub forward :
      List ServiceDefinition
      → String
      → InboundRequest
      → Option String
      → Result (ProxyError E) (UpstreamResponse Body)
  unfolding outbound for_client
  forward registry service_name inbound instance_id =
      through (outbound registry service_name inbound instance_id)

  -- What the client was given and gave, when a request came through.
  pub record IsRouted (registry : List ServiceDefinition) (name : String) (r : InboundRequest)
      (id : Option String) (answer : UpstreamResponse Body) : Type 0 where
    pub service : ServiceDefinition
    pub known : find_service registry name ≡ some service
    pub request : OutboundRequest
    pub to_it : request.service ≡ service
    pub pinned_to : chosen service id ≡ ok request.instance_of
    pub as_sent :
        (request.method ≡ r.method)
        × (request.path ≡ r.path)
        × (request.body ≡ r.body)
        × (request.query_params ≡ r.query_params)
    pub with_policy : request.headers ≡ for_upstream r service.headers
    pub given : UpstreamResponse Body
    pub answered : client request ≡ ok given
    pub returned : answer ≡ record given { headers = for_client given.headers }

  for_caller_lem :
      (got : Result E (UpstreamResponse Body)) (answer : UpstreamResponse Body)
      → for_caller got ≡ ok answer
      → (given : UpstreamResponse Body) × (got ≡ ok given)
        × (answer ≡ record given { headers = for_client given.headers })
  for_caller_lem (err e) answer h = absurd (cc)
  for_caller_lem (ok given) answer h = (given, refl, ground arith)

  -- An answer of the proxy is the client's, its headers filtered for the caller, to one request: for the
  -- registered service of that name, to the instance of it that was asked for, if one was, with the caller's
  -- method, path, query and body, and the headers of the policy.
  pub forward-IsRouted :
      (registry : List ServiceDefinition) (name : String) (r : InboundRequest) (id : Option String)
      (answer : UpstreamResponse Body)
      → forward registry name r id ≡ ok answer
      → IsRouted registry name r id answer
  unfolding forward
  forward-IsRouted registry name r id answer h = found (find_service registry name) refl h
    where
      routed :
          (s : ServiceDefinition) (instance : Result RoutingError (Option ServiceInstance))
          → find_service registry name ≡ some s
          → chosen s id ≡ instance
          → through (outbound_to r s instance) ≡ ok answer
          → IsRouted registry name r id answer
      routed s (err e) known picks h = absurd (cc)
      routed s (ok i) known picks h =
          let (given, is_given, is_answer) = for_caller_lem _ answer h in
          record {
            service = s;
            known = known;
            request = _;
            to_it = refl;
            pinned_to = picks;
            as_sent = (refl, refl, refl, refl);
            with_policy = refl;
            given = given;
            answered = is_given;
            returned = is_answer;
          }

      found :
          (service : Option ServiceDefinition)
          → find_service registry name ≡ service
          → through (outbound_for name r id service) ≡ ok answer
          → IsRouted registry name r id answer
      found none known h = absurd (cc)
      found (some s) known h = routed s (chosen s id) known refl h
