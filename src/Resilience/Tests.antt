-- ===== src/Resilience/Tests.antt =====
-- Small services and policies that exercise the theorems about calls.
use code_zard.Prelude.{
  ℕ, ◌+◌, ◌*◌, ◌≤◌, true, false, none, some, length, [], ◌∷◌, ◌≡◌, refl, arith, if◌then◌else◌, ltb,
}
use code_zard.Resilience.Upstream.{ServiceInstance, ServiceDefinition, Reply, answered, timed_out}
use code_zard.Resilience.Breaker.{
  closed, opened, half_open, CircuitBreaker, try_acquire, on_failure, on_abort,
}
use code_zard.Resilience.Breaker.Laws.{IsValid, answers, answers-open, second_probe}
use code_zard.Resilience.Retry.{RetryPolicy, delay_for, Served, run_attempts}
use code_zard.Resilience.Retry.Laws.{IsServed, run_attempts-IsServed}
use code_zard.Resilience.Balancer.{Turns}
use code_zard.Resilience.Balancer.Failover.{acted}
use code_zard.Resilience.Chain.{Settings, Clients, send}
use code_zard.Resilience.Chain.Reach.{send-Reach}

-- Two failures open it for thirty seconds.
abbrev calm : CircuitBreaker
calm = record {
  failure_threshold = 2;
  recovery_timeout = 30;
  state = closed;
  failures = 0;
  opened_at = 0;
  probe_in_flight = false;
}

calm-IsValid : IsValid calm
calm-IsValid = ground arith

abbrev tripped : CircuitBreaker
tripped = record calm { state = opened; opened_at = 100 }

tripped-IsValid : IsValid tripped
tripped-IsValid = ground arith

answers-open_example :
    answers (101 ∷ 129 ∷ 130 ∷ 131 ∷ []) tripped ≡ false ∷ false ∷ true ∷ false ∷ []
answers-open_example =
    answers-open (101 ∷ 129 ∷ []) 130 (131 ∷ []) tripped tripped-IsValid refl
      (omega arith, (omega arith, tt)) (omega arith)

-- The breaker of the two failures with its probe.
abbrev probing : CircuitBreaker
probing = record tripped { state = half_open; probe_in_flight = true }

second_probe_example :
    ((try_acquire 40 calm).0 ≡ true)
    × ((try_acquire 130 tripped).0 ≡ true)
    × ((try_acquire 131 probing).0 ≡ false)
    × ((try_acquire 131 (on_abort probing)).0 ≡ true)
unfolding try_acquire on_failure
second_probe_example =
    second_probe 40 (50 ∷ 100 ∷ []) 130 131 calm calm-IsValid refl (omega arith) (omega arith)

abbrev policy : RetryPolicy
policy = record { max_attempts = 3; base_delay = 100; max_delay = 150; retry_on_status = 503 ∷ [] }

abbrev flaky : ℕ → Reply
flaky k = if ltb k 2 then timed_out true else if ltb k 3 then answered 503 else answered 200

flaky_call :
    run_attempts policy true flaky
    ≡ some
        (record { reply = answered 200; attempts = 3; slept = 100 ∷ 150 ∷ []; discarded = 2 ∷ [] })
unfolding run_attempts delay_for
flaky_call = refl

-- A number has the delay before attempt 1,025, and none that before the next one.
last_delay : (delay_for policy 1_024 ≡ some 150) × (delay_for policy 1_025 ≡ none)
unfolding delay_for
last_delay = (refl, refl)

run_attempts-IsServed_example :
    (r : Served) × (run_attempts policy true flaky ≡ some r) × IsServed policy flaky 1 r
run_attempts-IsServed_example = run_attempts-IsServed policy flaky (omega arith) (omega arith)

abbrev instance_a : ServiceInstance
instance_a = record { base_url = "http://a"; id = "a" }

abbrev instance_b : ServiceInstance
instance_b = record { base_url = "http://b"; id = "b" }

abbrev agents : ServiceDefinition
agents = record {
  name = "agents";
  instances = instance_a ∷ instance_b ∷ [];
  health_path = "/health";
  headers = [];
}

abbrev second_turn : Turns
second_turn name = 1

-- The first request gets lost after it was sent, and later ones are answered.
abbrev losing : ServiceInstance → ℕ → Reply
losing i n = if ltb n 2 then timed_out true else answered 200

abbrev chain : Settings
chain = record {
  policy = policy;
  failure_codes = 503 ∷ [];
  fresh_breaker = calm;
  clock = λ n. n;
  transport = losing;
}

abbrev idle : Clients
idle = record { breakers = λ key. none; readings = 0; sent = [] }

-- A request that may be repeated is sent twice to the instance whose turn it is.
repeated : length (send chain true none agents second_turn idle).0.state.sent ≡ 2
unfolding send
repeated = refl

send-Reach_example :
    (acted (send chain false none agents second_turn idle).0.state.sent ≤ acted idle.sent + 1)
    × (length (send chain true none agents second_turn idle).0.state.sent
        ≤ length idle.sent + 3 * length agents.instances)
send-Reach_example = send-Reach chain none agents second_turn idle true (omega arith) (omega arith)
