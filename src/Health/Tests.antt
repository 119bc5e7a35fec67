-- ===== src/Health/Tests.antt =====
-- Two instances of the agent, of which one is down.
use code_zard.Prelude.{
  String, Option, some, List, [], ◌∷◌, ◌≡◌, ◌↔◌, refl, true, Each, if◌then◌else◌,
}
use code_zard.Prelude.Text.{same}
use code_zard.Resilience.Upstream.{ServiceInstance, ServiceDefinition, Reply, answered, timed_out}
use code_zard.Services.{up, down, is_healthy}
use code_zard.Proxy.{OutboundRequest}
use code_zard.Health.{ServiceHealth, health_request, check_all, statuses}
use code_zard.Health.Report.{Succeeds, check_all_iff}

abbrev agent : ServiceDefinition
agent = record {
  name = "backend";
  instances =
      record { base_url = "http://a"; id = "a" } ∷ record { base_url = "http://b"; id = "b" } ∷ [];
  health_path = "/health";
  headers = [];
}

abbrev first : Option ServiceInstance → String
first (some i) = i.id
first _ = ""

-- The first instance answers, the second one does not.
abbrev half_up : OutboundRequest → Reply
half_up r = if same (first r.instance_of) "a" then answered 204 else answered 503

abbrev no_text : Reply → String
no_text r = "timed out"

half_report :
    check_all half_up no_text (agent ∷ [])
    ≡ some (
        record {
          name = "backend";
          instances =
              record { id = "a"; status = up; detail = "" }
              ∷ record { id = "b"; status = down; detail = "Unexpected status code 503" }
              ∷ [];
        }
        ∷ [])
unfolding check_all
half_report = refl

abbrev timing_out : OutboundRequest → Reply
timing_out r = timed_out true

check_all_iff_example :
    (report : List ServiceHealth) × (check_all timing_out no_text (agent ∷ []) ≡ some report)
    × ((is_healthy (statuses report) ≡ true)
        ↔ Each
            (λ s. Each (λ i. Succeeds (timing_out (health_request s i))) s.instances)
            (agent ∷ []))
check_all_iff_example = check_all_iff timing_out no_text (λ r. tt) (agent ∷ [])
