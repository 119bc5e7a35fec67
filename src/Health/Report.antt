-- ===== src/Health/Report.antt =====
-- When the gateway calls itself healthy (`application/health_service.py`, with the report of
-- `domain/models.py`).
use code_zard.Prelude.{
  String, true, some, List, [], ◌∷◌, map, ◌≡◌, ◌↔◌, refl, Each, Bool-cases, inl, inr,
}
use code_zard.Prelude.Int.{pos}
use code_zard.Prelude.Text.{concat, spell}
use code_zard.Resilience.Upstream.{
  ServiceInstance, ServiceDefinition, Reply, answered, timed_out, unreachable, circuit_open,
  interrupted,
}
use code_zard.Services.{up, down, is_healthy}
use code_zard.Services.Laws.{is_healthy_iff}
use code_zard.Proxy.{OutboundRequest}
use code_zard.Health.{
  InstanceHealth, ServiceHealth, gather, is_success, health_request, read_reply, check_instance,
  check, check_all, statuses,
}

-- What a client without a breaker gives: an answer, or one of the errors that the service catches.
abbrev Plain : Reply → Type 0
Plain circuit_open = ⊥
Plain interrupted = ⊥
Plain _ = Unit

-- An answer that succeeds.
abbrev pub Succeeds : Reply → Type 0
Succeeds (answered status) = is_success status ≡ true
Succeeds _ = ⊥

module _ (send : OutboundRequest → Reply) (text_of : Reply → String) where
  -- One instance: it has a report, which is up exactly when the reply succeeds.
  record Examined (id : String) (r : Reply) : Type 0 where
    health : InstanceHealth
    is_read : read_reply send text_of id r ≡ some health
    is_up : (health.status ≡ up) ↔ Succeeds r

  read_reply-Examined : (id : String) (r : Reply) → Plain r → Examined id r
  read_reply-Examined id (answered status) plain = elim (Bool-cases (is_success status)) [
    | inl fine ↦ record {
      health = record { id = id; status = up; detail = "" };
      is_read = rw fine;
      is_up = (λ _. fine, λ _. refl);
    }
    | inr ill ↦ record {
      health = record {
        id = id;
        status = down;
        detail = concat "Unexpected status code " (spell (pos status));
      };
      is_read = rw ill;
      is_up = (λ h. absurd (cc), λ h. absurd (cc));
    }
  ]
  read_reply-Examined id (timed_out sent) plain = record {
    health = record { id = id; status = down; detail = text_of (timed_out sent) };
    is_read = refl;
    is_up = (λ h. absurd (cc), λ h. absurd h);
  }
  read_reply-Examined id (unreachable sent) plain = record {
    health = record { id = id; status = down; detail = text_of (unreachable sent) };
    is_read = refl;
    is_up = (λ h. absurd (cc), λ h. absurd h);
  }
  read_reply-Examined id circuit_open plain = absurd plain
  read_reply-Examined id interrupted plain = absurd plain

  module _ (plain : (request : OutboundRequest) → Plain (send request)) where
    -- The instances of a service: all have reports, and all are up exactly when all replies succeed.
    record Checked (s : ServiceDefinition) (instances : List ServiceInstance) : Type 0 where
      healths : List InstanceHealth
      is_gathered : gather (map (check_instance send text_of s) instances) ≡ some healths
      are_up :
          Each (λ h. h ≡ up) (map (λ h. h.status) healths)
          ↔ Each (λ i. Succeeds (send (health_request s i))) instances

    instances-Checked :
        (s : ServiceDefinition) (instances : List ServiceInstance) → Checked s instances
    unfolding check_instance
    instances-Checked s [] = record {
      healths = [];
      is_gathered = refl;
      are_up = (λ _. tt, λ _. tt);
    }
    instances-Checked s (i ∷ more) =
        let one =
          read_reply-Examined i.id (send (health_request s i)) (plain (health_request s i)) in
        let rest = instances-Checked s more in
        record {
          healths = one.health ∷ rest.healths;
          is_gathered = rw (one.is_read, rest.is_gathered);
          are_up = (
            λ h. (one.is_up.0 h.0, rest.are_up.0 h.1),
            λ h. (one.is_up.1 h.0, rest.are_up.1 h.1),
          );
        }

    -- The services: the report has them all, and is up throughout exactly when all replies succeed.
    record CheckedAll (services : List ServiceDefinition) : Type 0 where
      report : List ServiceHealth
      is_gathered : gather (map (check send text_of) services) ≡ some report
      are_up :
          Each (Each (λ h. h ≡ up)) (statuses report)
          ↔ Each (λ s. Each (λ i. Succeeds (send (health_request s i))) s.instances) services

    services-CheckedAll : (services : List ServiceDefinition) → CheckedAll services
    unfolding check
    services-CheckedAll [] = record { report = []; is_gathered = refl; are_up = (λ _. tt, λ _. tt) }
    services-CheckedAll (s ∷ more) =
        let one = instances-Checked s s.instances in
        let rest = services-CheckedAll more in
        record {
          report = record { name = s.name; instances = one.healths } ∷ rest.report;
          is_gathered = rw (one.is_gathered, rest.is_gathered);
          are_up = (
            λ h. (one.are_up.0 h.0, rest.are_up.0 h.1),
            λ h. (one.are_up.1 h.0, rest.are_up.1 h.1),
          );
        }

    -- With a client that answers, times out or does not reach the instance, the health check gives a
    -- report, and the report is healthy exactly when every instance of every service answers its
    -- health path with a status from 200 to 299.
    pub check_all_iff :
        (services : List ServiceDefinition)
        → (report : List ServiceHealth) × (check_all send text_of services ≡ some report)
          × ((is_healthy (statuses report) ≡ true)
              ↔ Each (λ s. Each (λ i. Succeeds (send (health_request s i))) s.instances) services)
    unfolding check_all
    check_all_iff services =
        let all = services-CheckedAll services in
        let healthy = is_healthy_iff (statuses all.report) in
        (
          all.report,
          all.is_gathered,
          (λ h. all.are_up.0 (healthy.0 h), λ h. healthy.1 (all.are_up.1 h)),
        )
