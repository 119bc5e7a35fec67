-- ===== src/Proxy/Tests.antt =====
-- A request with headers that must not pass, and where it is sent.
use code_zard.Prelude.{ℕ, String, none, some, List, [], ◌∷◌, ◌≡◌, ◌≢◌, refl}
use code_zard.Prelude.Text.{lower}
use code_zard.Prelude.Result.{Result, ok}
use code_zard.Resilience.Upstream.{Headers, ServiceInstance, ServiceDefinition}
use code_zard.Proxy.{InboundRequest, OutboundRequest, for_upstream, for_client, values_named}
use code_zard.Proxy.Forwarding.{UpstreamResponse, forward, IsRouted, forward-IsRouted}
use code_zard.Proxy.Policy.{credential_wins}

abbrev spoofed : InboundRequest
spoofed = record {
  method = "POST";
  path = "api/v1/plan";
  headers =
      ("X-Mirag-Token", "mine")
      ∷ ("X-Forwarded-For", "1.2.3.4")
      ∷ ("X-Request-Id", "r0")
      ∷ ("Connection", "close, X-Hop")
      ∷ ("x-hop", "1")
      ∷ ("Accept", "*/*")
      ∷ [];
  query_params = [];
  body = "";
  client_host = some "10.0.0.1";
  scheme = "https";
  host = none;
  request_id = some "r1";
}

abbrev service_headers : Headers
service_headers = ("x-mirag-token", "secret") ∷ []

-- What the service receives.
received :
    for_upstream spoofed service_headers
    ≡ ("Accept", "*/*")
      ∷ ("x-forwarded-proto", "https")
      ∷ ("x-forwarded-for", "1.2.3.4, 10.0.0.1")
      ∷ ("x-request-id", "r1")
      ∷ ("x-mirag-token", "secret")
      ∷ []
unfolding for_upstream
received = refl

configured : ◌≢◌ {A = List String} ("secret" ∷ []) []
configured e = cc

credential_wins_example :
    values_named "x-mirag-token" (for_upstream spoofed service_headers) ≡ "secret" ∷ []
unfolding lower
credential_wins_example = credential_wins "x-mirag-token" spoofed service_headers configured refl

abbrev second_server : ServiceInstance
second_server = record { base_url = "http://b"; id = "b" }

abbrev agent : ServiceDefinition
agent = record {
  name = "agent";
  instances = record { base_url = "http://a"; id = "a" } ∷ second_server ∷ [];
  health_path = "/health";
  headers = service_headers;
}

abbrev reply : UpstreamResponse String
reply = record {
  status_code = 200;
  headers = ("Server", "s") ∷ ("Content-Type", "text/plain") ∷ [];
  body = "hello";
  instance_id = some "b";
}

abbrev replying : OutboundRequest → Result ℕ (UpstreamResponse String)
replying request = ok reply

forwarded :
    forward replying (agent ∷ []) "agent" spoofed (some "b")
    ≡ ok (record reply { headers = for_client reply.headers })
unfolding forward
forwarded = refl

forward-IsRouted_example :
    IsRouted replying
      (agent ∷ [])
      "agent"
      spoofed
      (some "b")
      (record reply { headers = for_client reply.headers })
forward-IsRouted_example =
    forward-IsRouted replying (agent ∷ []) "agent" spoofed (some "b")
      (record reply { headers = for_client reply.headers }) forwarded
