-- ===== src/Health.antt =====
-- src/gateway/application/health_service.py: the health of every service, asked of each of its instances.
-- The client is a parameter; a `none` is an exception that nothing catches. The latency of an answer is
-- left out.
pub mod Report
mod Tests
use code_zard.Prelude.{
  ℕ, ◌+◌, String, Bool, ◌&&◌, Option, none, some, List, [], ◌∷◌, map, leb, ltb, if◌then◌else◌,
}
use code_zard.Prelude.Int.{pos}
use code_zard.Prelude.Text.{concat, spell}
use code_zard.Resilience.Upstream.{
  ServiceInstance, ServiceDefinition, Reply, answered, timed_out, unreachable, circuit_open,
  interrupted,
}
use code_zard.Services.{HealthStatus, up, down}
use code_zard.Proxy.{OutboundRequest}

pub record InstanceHealth : Type 0 where
  pub id : String
  pub status : HealthStatus
  pub detail : String

pub record ServiceHealth : Type 0 where
  pub name : String
  pub instances : List InstanceHealth

-- `asyncio.gather`: all results, or the exception of one.
abbrev gather_with : {A : Type 0} → Option A → Option (List A) → Option (List A)
gather_with none rest = none
gather_with (some a) none = none
gather_with (some a) (some rest) = some (a ∷ rest)

abbrev pub gather : {A : Type 0} → List (Option A) → Option (List A)
gather [] = some []
gather (a ∷ more) = gather_with a (gather more)

-- `200 <= status < 300`
abbrev pub is_success : ℕ → Bool
is_success status = leb 200 status && ltb status 300

unfoldable pub health_request : ServiceDefinition → ServiceInstance → OutboundRequest
health_request s i = record {
  service = s;
  method = "GET";
  path = s.health_path;
  headers = s.headers;
  query_params = [];
  body = "";
  instance_of = some i;
}

module _ (send : OutboundRequest → Reply) (text_of : Reply → String) where
  abbrev pub read_reply : String → Reply → Option InstanceHealth
  read_reply id (answered status) =
      if is_success status
      then some (record { id = id; status = up; detail = "" })
      else some (record {
        id = id;
        status = down;
        detail = concat "Unexpected status code " (spell (pos status));
      })
  read_reply id (timed_out sent) =
      some (record { id = id; status = down; detail = text_of (timed_out sent) })
  read_reply id (unreachable sent) =
      some (record { id = id; status = down; detail = text_of (unreachable sent) })
  read_reply id circuit_open = none
  read_reply id interrupted = none

  -- `_check_instance`
  unfoldable pub check_instance : ServiceDefinition → ServiceInstance → Option InstanceHealth
  unfolding health_request spell
  check_instance s i = read_reply i.id (send (health_request s i))

  abbrev service_health : String → Option (List InstanceHealth) → Option ServiceHealth
  service_health name none = none
  service_health name (some instances) = some (record { name = name; instances = instances })

  unfoldable pub check : ServiceDefinition → Option ServiceHealth
  unfolding check_instance
  check s = service_health s.name (gather (map (check_instance s) s.instances))

  -- The services are those of the registry.
  unfoldable pub check_all : List ServiceDefinition → Option (List ServiceHealth)
  unfolding check
  check_all services = gather (map check services)

-- What `HealthReport` looks at.
abbrev pub statuses : List ServiceHealth → List (List HealthStatus)
statuses report = map (λ s. map (λ i. i.status) s.instances) report
