-- ===== src/Services/Tests.antt =====
-- Two small services.
use code_zard.Prelude.{String, [], ◌∷◌, ◌≡◌, refl}
use code_zard.Prelude.Text.{concat}
use code_zard.Resilience.Upstream.{ServiceInstance, ServiceDefinition}
use code_zard.Services.{up, down, degraded, service_status}

abbrev digest : String → String
digest base_url = concat "#" base_url

abbrev at_url : String → ServiceInstance
at_url base_url = record { base_url = base_url; id = digest base_url }

abbrev planner : ServiceDefinition
planner = record {
  name = "planner";
  instances = at_url "http://a" ∷ at_url "http://b" ∷ [];
  health_path = "/health";
  headers = [];
}

abbrev builder : ServiceDefinition
builder = record {
  name = "builder";
  instances = at_url "http://c" ∷ [];
  health_path = "/health";
  headers = [];
}

half_down : service_status (up ∷ down ∷ []) ≡ degraded
unfolding service_status
half_down = refl
