-- ===== src/Services.antt =====
-- src/gateway/domain/models.py and src/gateway/infrastructure/registry.py: which services there are,
-- the instances of each, and what their health adds up to. The digest that names an instance is a
-- parameter.
pub mod Laws
mod Tests
use code_zard.Prelude.{
  ℕ, zero, suc, ◌==◌, String, Bool, true, false, ◌&&◌, not, Option, none, some, List, [], ◌∷◌, ◌++◌,
  map, if◌then◌else◌, length,
}
use code_zard.Prelude.Text.{same}
use code_zard.Prelude.Result.{Result, ok, err}
use code_zard.Resilience.Upstream.{
  Headers, ServiceInstance, ServiceDefinition, ServiceError, no_base_url, same_base_url_twice,
}

-- `ServiceInstance.__post_init__`
unfoldable pub instance_of : (String → String) → String → ServiceInstance
instance_of digest base_url = record { base_url = base_url; id = digest base_url }

unfoldable pub find_instance : List ServiceInstance → String → Option ServiceInstance
find_instance [] id = none
find_instance (i ∷ is) id = if same i.id id then some i else find_instance is id

abbrev pub is_there : {A : Type 0} → Option A → Bool
is_there none = false
is_there (some a) = true

-- `len({instance.id for instance in instances})`
unfoldable pub count_ids : List ServiceInstance → ℕ
unfolding find_instance
count_ids [] = 0
count_ids (i ∷ is) =
    let rest = count_ids is in if is_there (find_instance is i.id) then rest else suc rest

-- `ServiceDefinition.__post_init__`
unfoldable pub define_service :
    (String → String)
    → String
    → List String
    → String
    → Headers
    → Result ServiceError ServiceDefinition
unfolding instance_of count_ids
define_service digest name base_urls health_path headers =
    let instances = map (instance_of digest) base_urls in
    if length instances == 0
    then err no_base_url
    else if not (count_ids instances == length instances)
    then err same_base_url_twice
    else ok (record {
      name = name;
      instances = instances;
      health_path = health_path;
      headers = headers;
    })

-- `ServiceDefinition.instance`, with `none` for `InstanceNotFoundError`.
unfoldable pub pick_instance : ServiceDefinition → String → Option ServiceInstance
unfolding find_instance
pick_instance s id = find_instance s.instances id

-- `InMemoryServiceRegistry.get`, with `none` for `ServiceNotFoundError`.
unfoldable pub find_service : List ServiceDefinition → String → Option ServiceDefinition
find_service [] name = none
find_service (s ∷ ss) name = if same s.name name then some s else find_service ss name

-- `InMemoryServiceRegistry(services)`, from the ones already there; the error names the duplicate.
unfoldable pub register :
    List ServiceDefinition → List ServiceDefinition → Result String (List ServiceDefinition)
unfolding find_service
register known [] = ok known
register known (s ∷ ss) =
    let rest = register (known ++ s ∷ []) ss in
    if is_there (find_service known s.name) then err s.name else rest

pub data HealthStatus : Type 0 where
  up degraded down : HealthStatus

abbrev pub is_up : HealthStatus → Bool
is_up up = true
is_up _ = false

-- `sum(instance.status is HealthStatus.UP for instance in self.instances)`
unfoldable pub count_up : List HealthStatus → ℕ
count_up [] = 0
count_up (s ∷ ss) = let rest = count_up ss in if is_up s then suc rest else rest

-- `ServiceHealth.status`
unfoldable pub service_status : List HealthStatus → HealthStatus
unfolding count_up
service_status statuses =
    if count_up statuses == length statuses
    then up
    else if count_up statuses == 0
    then down
    else degraded

-- `HealthReport.is_healthy`, of the instances of each service.
unfoldable pub is_healthy : List (List HealthStatus) → Bool
unfolding service_status
is_healthy [] = true
is_healthy (s ∷ ss) = is_up (service_status s) && is_healthy ss
