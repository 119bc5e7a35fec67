-- ===== src/Services/Laws.antt =====
-- What the definition of a service, the registry and the health report promise
-- (`domain/models.py`, `infrastructure/registry.py`).
use code_zard.Prelude.{
  ◌≤◌, ◌↔◌, String, true, false, none, some, List, [], ◌∷◌, ◌++◌, length, Each, ◌≡◌, refl, arith,
  Bool-cases, Option-cases, inl, inr,
}
use mathlib.Core.List.{append-nil, append_assoc}
use mathlib.Core.Path.{subst}
use code_zard.Prelude.Text.{same, same_iff, same_refl}
use code_zard.Prelude.Result.{ok}
use code_zard.Resilience.Upstream.{Headers, ServiceInstance, ServiceDefinition}
use code_zard.Services.{
  find_instance, count_ids, define_service, pick_instance, find_service, register, HealthStatus, up,
  degraded, down, is_up, count_up, service_status, is_healthy,
}

count_ids-le : (is : List ServiceInstance) → count_ids is ≤ length is
unfolding count_ids
count_ids-le [] = omega arith
count_ids-le (i ∷ is) = ground (arith, count_ids-le is)

-- An instance in front hides no other one whose id differs.
found_behind :
    (i : ServiceInstance) (is js : List ServiceInstance)
    → Each (λ j. find_instance is j.id ≡ some j) js
    → find_instance js i.id ≡ none
    → Each (λ j. find_instance (i ∷ is) j.id ≡ some j) js
unfolding find_instance
found_behind i is [] h n = tt
found_behind i is (j ∷ js) h n = elim (Bool-cases (same j.id i.id)) [
  | inl clash ↦ absurd (ground arith)
  | inr other ↦
      let apart : same i.id j.id ≡ false = ground (arith, same_iff i.id j.id, same_iff j.id i.id) in
      let absent : find_instance js i.id ≡ none = rw other at n in
      (rw (apart, h.0), found_behind i is js h.1 absent)
]

all_found :
    (is : List ServiceInstance)
    → count_ids is ≡ length is
    → Each (λ j. find_instance is j.id ≡ some j) is
unfolding count_ids find_instance
all_found [] h = tt
all_found (i ∷ is) h = elim (Option-cases (find_instance is i.id)) [
  | inl absent ↦
      let distinct : count_ids is ≡ length is = ground arith in
      (rw (same_refl i.id), found_behind i is is (all_found is distinct) absent)
  | inr (j, there) ↦ absurd (ground (arith, count_ids-le is))
]

defined :
    (digest : String → String) (name : String) (base_urls : List String) (health_path : String)
    (headers : Headers) (s : ServiceDefinition)
    → define_service digest name base_urls health_path headers ≡ ok s
    → count_ids s.instances ≡ length s.instances
unfolding define_service
defined digest name base_urls health_path headers s h = ground arith

-- Every instance of a service that was defined is found by its id, so that no two share one.
define_service-finds :
    (digest : String → String) (name : String) (base_urls : List String) (health_path : String)
    (headers : Headers) (s : ServiceDefinition)
    → define_service digest name base_urls health_path headers ≡ ok s
    → Each (λ i. pick_instance s i.id ≡ some i) s.instances
unfolding define_service pick_instance
define_service-finds digest name base_urls health_path headers s h =
    all_found s.instances (defined digest name base_urls health_path headers s h)

count_up-le : (ss : List HealthStatus) → count_up ss ≤ length ss
unfolding count_up
count_up-le [] = omega arith
count_up-le (s ∷ ss) = ground (arith, count_up-le ss)

counted_up : (ss : List HealthStatus) → count_up ss ≡ length ss → Each (λ s. s ≡ up) ss
unfolding count_up
counted_up [] h = tt
counted_up (up ∷ ss) h = (refl, counted_up ss (omega arith))
counted_up (degraded ∷ ss) h = absurd (omega (arith, count_up-le ss))
counted_up (down ∷ ss) h = absurd (omega (arith, count_up-le ss))

up_counted : (ss : List HealthStatus) → Each (λ s. s ≡ up) ss → count_up ss ≡ length ss
unfolding count_up
up_counted [] h = refl
up_counted (s ∷ ss) h = rw (h.0, up_counted ss h.1)

status_up : (ss : List HealthStatus) → is_up (service_status ss) ≡ true → count_up ss ≡ length ss
unfolding service_status
status_up ss h = ground arith

up_status : (ss : List HealthStatus) → count_up ss ≡ length ss → is_up (service_status ss) ≡ true
unfolding service_status
up_status ss h = ground arith

-- All services are healthy exactly when every instance of every service is up.
pub is_healthy_iff :
    (services : List (List HealthStatus))
    → (is_healthy services ≡ true) ↔ Each (Each (λ s. s ≡ up)) services
unfolding is_healthy
is_healthy_iff [] = (λ _. tt, λ _. refl)
is_healthy_iff (s ∷ ss) = elim (Bool-cases (is_up (service_status s))) [
  | inl fine ↦ (
    λ h. (counted_up s (status_up s fine), (is_healthy_iff ss).0 (rw fine at h)),
    λ h. rw fine ((is_healthy_iff ss).1 h.1),
  )
  | inr ill ↦
      (λ h. absurd (cc (rw ill at h)), λ h. absurd (ground (arith, up_status s (up_counted s h.0))))
]

-- A name that is found is still found behind more services.
found_before :
    (known : List ServiceDefinition) (s x : ServiceDefinition) (name : String)
    → find_service known name ≡ some x
    → find_service (known ++ s ∷ []) name ≡ some x
unfolding find_service
found_before [] s x name h = absurd (cc)
found_before (k ∷ known) s x name h = ground (arith, found_before known s x name)

found_last :
    (known : List ServiceDefinition) (s : ServiceDefinition)
    → find_service known s.name ≡ none
    → find_service (known ++ s ∷ []) s.name ≡ some s
unfolding find_service
found_last [] s h = rw (same_refl s.name)
found_last (k ∷ known) s h = ground (arith, found_last known s)

abbrev Registered : List ServiceDefinition → List ServiceDefinition → Type 0
Registered registry ss = Each (λ s. find_service registry s.name ≡ some s) ss

Registered-snoc :
    (known ss : List ServiceDefinition) (s : ServiceDefinition)
    → Registered known ss
    → find_service known s.name ≡ none
    → Registered (known ++ s ∷ []) (ss ++ s ∷ [])
Registered-snoc known [] s h n = (found_last known s n, tt)
Registered-snoc known (x ∷ ss) s h n =
    (found_before known s x x.name h.0, Registered-snoc known ss s h.1 n)

register_on :
    (known ss registry : List ServiceDefinition)
    → Registered known known
    → register known ss ≡ ok registry
    → (registry ≡ known ++ ss) × Registered registry registry
unfolding register
register_on known [] registry r h =
    let all : known ≡ registry = ground arith in
    subst (λ x. (x ≡ known ++ []) × Registered x x) all (rw append-nil, r)
register_on known (s ∷ ss) registry r h = elim (Option-cases (find_service known s.name)) [
  | inl new ↦
      let (whole, found) =
        register_on (known ++ s ∷ []) ss registry (Registered-snoc known known s r new)
          (rw new at h) in
      (rw append_assoc at whole, found)
  | inr (x, old) ↦ absurd (ground arith)
]

-- A registry that was made lists exactly the services it was made of, in their order, and gives each
-- of them under its name.
register-finds :
    (ss registry : List ServiceDefinition)
    → register [] ss ≡ ok registry
    → (registry ≡ ss) × Each (λ s. find_service registry s.name ≡ some s) registry
register-finds ss registry h = register_on [] ss registry tt h
