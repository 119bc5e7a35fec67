-- ===== src/Resilience/Breaker.antt =====
-- src/gateway/infrastructure/resilience/circuit_breaker.py: the three-state breaker and the guard
-- around a call. Instants and the timeout are numbers; the clock is an argument.
pub mod Laws
use code_zard.Prelude.{
  ℕ, ◌+◌, Bool, true, false, ◌||◌, not, Option, none, some, List, [], ◌∷◌, if◌then◌else◌, ltb, leb,
  ◌==◌,
}
use code_zard.Resilience.Upstream.{
  Reply, answered, timed_out, unreachable, circuit_open, interrupted,
}

pub data CircuitState : Type 0 where
  closed opened half_open : CircuitState

pub record CircuitBreaker : Type 0 where
  pub failure_threshold : ℕ
  pub recovery_timeout : ℕ
  pub state : CircuitState
  pub failures : ℕ
  pub opened_at : ℕ
  pub probe_in_flight : Bool

-- `CircuitBreaker(...)`, with `none` for its `ValueError`s.
unfoldable pub new_breaker : ℕ → ℕ → Option CircuitBreaker
new_breaker threshold timeout =
    if ltb threshold 1 || leb timeout 0
    then none
    else some (record {
      failure_threshold = threshold;
      recovery_timeout = timeout;
      state = closed;
      failures = 0;
      opened_at = 0;
      probe_in_flight = false;
    })

-- `_trip`
unfoldable pub trip : ℕ → CircuitBreaker → CircuitBreaker
trip now b = record b { state = opened; opened_at = now; failures = 0; probe_in_flight = false }

-- The half of `try_acquire` that is left when the breaker is not open, or no longer.
unfoldable pub acquire_in : CircuitState → CircuitBreaker → Bool × CircuitBreaker
acquire_in half_open b =
    if b.probe_in_flight then (false, b) else (true, record b { probe_in_flight = true })
acquire_in _ b = (true, b)

unfoldable pub acquire_from : CircuitState → ℕ → CircuitBreaker → Bool × CircuitBreaker
unfolding acquire_in
acquire_from opened now b =
    if ltb now (b.opened_at + b.recovery_timeout)
    then (false, b)
    else acquire_in half_open (record b { state = half_open })
acquire_from s now b = acquire_in s b

unfoldable pub try_acquire : ℕ → CircuitBreaker → Bool × CircuitBreaker
unfolding acquire_from
try_acquire now b = acquire_from b.state now b

unfoldable pub success_in : CircuitState → CircuitBreaker → CircuitBreaker
success_in half_open b = record b { state = closed; probe_in_flight = false; failures = 0 }
success_in _ b = record b { failures = 0 }

unfoldable pub on_success : CircuitBreaker → CircuitBreaker
unfolding success_in
on_success b = success_in b.state b

unfoldable pub failure_in : CircuitState → ℕ → CircuitBreaker → CircuitBreaker
unfolding trip
failure_in half_open now b = trip now b
failure_in closed now b =
    let counted = record b { failures = b.failures + 1 } in
    if leb b.failure_threshold counted.failures then trip now counted else counted
failure_in opened now b = b

unfoldable pub on_failure : ℕ → CircuitBreaker → CircuitBreaker
unfolding failure_in
on_failure now b = failure_in b.state now b

unfoldable pub on_abort : CircuitBreaker → CircuitBreaker
on_abort b = record b { probe_in_flight = false }

-- `outcome.status_code in self._failure_status_codes`
abbrev pub among : ℕ → List ℕ → Bool
among s [] = false
among s (t ∷ ts) = s == t || among s ts

-- What `_guarded` does with what the call gave.
unfoldable pub record_reply : List ℕ → ℕ → Reply → CircuitBreaker → CircuitBreaker
unfolding on_success on_failure on_abort
record_reply codes now (answered status) b =
    if among status codes then on_failure now b else on_success b
record_reply codes now (timed_out sent) b = on_failure now b
record_reply codes now (unreachable sent) b = on_failure now b
record_reply codes now circuit_open b = on_abort b
record_reply codes now interrupted b = on_abort b

-- `_guarded`, for a call that starts at one instant and ends at another while nothing else uses the
-- breaker; a call is made only if the breaker lets it.
unfoldable guarded : List ℕ → ℕ → ℕ → Reply → CircuitBreaker → Reply × CircuitBreaker
unfolding try_acquire record_reply
guarded codes now later reply b =
    let (may, b') = try_acquire now b in
    if may then (reply, record_reply codes later reply b') else (circuit_open, b')
