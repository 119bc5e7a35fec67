-- ===== src/Resilience/Balancer.antt =====
-- src/gateway/infrastructure/resilience/load_balancer.py: round-robin with failover. The client below
-- is a function that takes an instance and a state and gives its reply; it may be anything.
pub mod Rotation
pub mod Failover
use code_zard.Prelude.{
  ℕ, zero, suc, ◌+◌, ◌%◌, String, Bool, true, false, ◌||◌, not, Option, none, some, List, [], ◌∷◌,
  ◌++◌, if◌then◌else◌, length, take, drop,
}
use code_zard.Prelude.Text.{same}
use code_zard.Resilience.Upstream.{
  ServiceInstance, ServiceDefinition, Reply, answered, timed_out, unreachable, circuit_open,
  interrupted,
}

-- `_next_turn`, with what `get` gives for a service that has had no turn.
abbrev pub Turns : Type 0
Turns = String → ℕ

unfoldable pub set_turn : String → ℕ → Turns → Turns
set_turn name turn turns other = if same name other then turn else turns other

-- `_rotation`
unfoldable pub rotation : ServiceDefinition → Turns → List ServiceInstance × Turns
unfolding set_turn
rotation service turns =
    let start = turns service.name in
    (
      drop start service.instances ++ take start service.instances,
      set_turn service.name ((start + 1) % length service.instances) turns,
    )

-- `_can_fail_over`, for an `UpstreamError` that tells whether the request was sent.
unfoldable pub can_fail_over : Bool → Bool → Bool
can_fail_over idempotent sent = idempotent || not sent

-- What the loop does with one reply: return it, raise it, or go to the next instance.
pub data Verdict : Type 0 where
  serve stop move_on : Verdict

unfoldable pub verdict : Bool → Reply → Verdict
unfolding can_fail_over
verdict idempotent (answered status) = serve
verdict idempotent circuit_open = move_on
verdict idempotent (timed_out sent) = if can_fail_over idempotent sent then move_on else stop
verdict idempotent (unreachable sent) = if can_fail_over idempotent sent then move_on else stop
verdict idempotent interrupted = stop

-- The reply that is returned or raised, `none` if there was no instance to try; the instance that
-- answered; what was tried, with its reply, oldest first; and the state below.
pub record Balanced (S : Type 0) : Type 0 where
  pub reply : Option Reply
  instance_id : Option String
  pub trail : List (ServiceInstance × Reply)
  pub state : S

-- `errors[-1]`
unfoldable last_of : Option Reply → List Reply → Option Reply
last_of found [] = found
last_of found (e ∷ es) = last_of (some e) es

-- `tried[-1]`: of the errors, those of instances that were actually tried.
unfoldable last_tried : Option Reply → List Reply → Option Reply
last_tried found [] = found
last_tried found (circuit_open ∷ es) = last_tried found es
last_tried found (e ∷ es) = last_tried (some e) es

-- `(tried or errors)[-1]`
unfoldable explain : List Reply → Option Reply
unfolding last_of last_tried
explain errors = elim (last_tried none errors) [ none ↦ last_of none errors | some e ↦ some e ]

abbrev answerer : ServiceInstance → Reply → Option String
answerer i (answered status) = some i.id
answerer i _ = none

module _ {S : Type 0} where
  -- The `for` of `_balanced`.
  unfoldable pub try_each :
      (ServiceInstance → S → Reply × S) → Bool → List ServiceInstance → List Reply → S → Balanced S
  unfolding verdict explain
  try_each call idempotent [] errors s = record {
    reply = explain errors;
    instance_id = none;
    trail = [];
    state = s;
  }
  try_each call idempotent (i ∷ is) errors s =
      let (reply, s') = call i s in
      let rest = try_each call idempotent is (errors ++ reply ∷ []) s' in
      elim (verdict idempotent reply) [
        | serve ↦ record {
          reply = some reply;
          instance_id = some i.id;
          trail = (i, reply) ∷ [];
          state = s';
        }
        | stop ↦ record {
          reply = some reply;
          instance_id = none;
          trail = (i, reply) ∷ [];
          state = s';
        }
        | move_on ↦ record rest { trail = (i, reply) ∷ rest.trail }
      ]

  -- `_balanced`: a request that names its instance goes there alone and takes no turn.
  unfoldable pub balanced :
      (ServiceInstance → S → Reply × S)
      → Bool
      → Option ServiceInstance
      → ServiceDefinition
      → Turns
      → S
      → Balanced S × Turns
  unfolding rotation try_each
  balanced call idempotent (some i) service turns s =
      let (reply, s') = call i s in
      (
        record {
          reply = some reply;
          instance_id = answerer i reply;
          trail = (i, reply) ∷ [];
          state = s';
        },
        turns,
      )
  balanced call idempotent none service turns s =
      let (instances, turns') = rotation service turns in
      (try_each call idempotent instances [] s, turns')
