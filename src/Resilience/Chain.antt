-- ===== src/Resilience/Chain.antt =====
-- The chain of clients that src/gateway/bootstrap.py builds: the balancer picks an instance, each instance
-- has its own breaker (the dictionary of infrastructure/resilience/circuit_breaker.py), and the breaker
-- guards the retries of the transport. What the transport gives is a parameter.
pub mod Reach
use code_zard.Prelude.{
  ℕ, zero, suc, ◌+◌, String, Bool, Option, none, some, List, [], ◌∷◌, ◌++◌, length, if◌then◌else◌,
}
use code_zard.Prelude.Text.{same, concat}
use code_zard.Resilience.Upstream.{
  ServiceInstance, ServiceDefinition, Reply, circuit_open, interrupted,
}
use code_zard.Resilience.Breaker.{CircuitBreaker, try_acquire, record_reply}
use code_zard.Resilience.Retry.{RetryPolicy, Served, run_attempts}
use code_zard.Resilience.Balancer.{Turns, Balanced, balanced}

-- The breakers by target, the readings of the clock, and what the transport was asked and gave, oldest
-- first.
pub record Clients : Type 0 where
  pub breakers : String → Option CircuitBreaker
  pub readings : ℕ
  pub sent : List (ServiceInstance × Reply)

-- The settings of the chain, the clock by the number of the reading, and the transport by the number of the
-- call.
pub record Settings : Type 0 where
  pub policy : RetryPolicy
  pub failure_codes : List ℕ
  pub fresh_breaker : CircuitBreaker
  pub clock : ℕ → ℕ
  pub transport : ServiceInstance → ℕ → Reply

-- `OutboundRequest.target`, of a request that names its instance.
abbrev pub target : ServiceDefinition → ServiceInstance → String
target service i = concat service.name (concat "@" i.id)

-- `_breaker_for`
unfoldable pub breaker_for : Settings → String → Clients → CircuitBreaker
breaker_for c key s = elim (s.breakers key) [ none ↦ c.fresh_breaker | some b ↦ b ]

unfoldable pub keep_breaker : String → CircuitBreaker → Clients → Clients
keep_breaker key b s = record s {
  breakers = λ other. if same key other then some b else s.breakers other;
}

-- What the transport gave in so many calls, from one call on.
unfoldable pub calls_from : Settings → ServiceInstance → ℕ → ℕ → List (ServiceInstance × Reply)
calls_from c i first zero = []
calls_from c i first (suc n) = (i, c.transport i first) ∷ calls_from c i (suc first) n

-- A policy allows an attempt, so there always is a result; without one nothing would be sent.
abbrev pub served_or : Option Served → Served
served_or none = record { reply = interrupted; attempts = 0; slept = []; discarded = [] }
served_or (some r) = r

-- The retries of one call: attempt k is the transport's call number so far + k.
abbrev pub retried : Settings → Bool → ServiceInstance → Clients → Served
retried c idempotent i s =
    served_or (run_attempts c.policy idempotent (λ k. c.transport i (length s.sent + k)))

abbrev pub passed :
    Settings → String → ServiceInstance → Served → CircuitBreaker → Clients → Reply × Clients
passed c key i r b s = (
  r.reply,
  keep_breaker key (record_reply c.failure_codes (c.clock (s.readings + 1)) r.reply b) (record s {
    readings = s.readings + 2;
    sent = s.sent ++ calls_from c i (length s.sent + 1) r.attempts;
  }),
)

abbrev pub admitted :
    Settings → Bool → String → ServiceInstance → Bool × CircuitBreaker → Clients → Reply × Clients
admitted c idempotent key i (may, b) s =
    if may
    then passed c key i (retried c idempotent i s) b s
    else (circuit_open, keep_breaker key b (record s { readings = s.readings + 1 }))

-- `CircuitBreakerUpstreamClient._guarded` around `RetryingUpstreamClient._attempts`.
unfoldable pub send_to :
    Settings → Bool → ServiceDefinition → ServiceInstance → Clients → Reply × Clients
unfolding breaker_for keep_breaker calls_from run_attempts try_acquire record_reply
send_to c idempotent service i s =
    let key = target service i in
    admitted c idempotent key i (try_acquire (c.clock s.readings) (breaker_for c key s)) s

-- A call of the chain: the balancer over the rest.
unfoldable pub send :
    Settings
    → Bool
    → Option ServiceInstance
    → ServiceDefinition
    → Turns
    → Clients
    → Balanced Clients × Turns
unfolding balanced send_to
send c idempotent named service turns s =
    balanced (send_to c idempotent service) idempotent named service turns s
