-- ===== src/Resilience/Chain/Reach.antt =====
-- What a call of the whole chain sends out.
use native.Mathlib.Nat.{mul-le-mul_left}
use code_zard.Prelude.{
  ℕ, zero, suc, ◌+◌, ◌*◌, ◌≤◌, Bool, true, false, Option, none, some, List, [], ◌∷◌, ◌++◌, ◌≡◌,
  refl, arith, inl, inr, length, length-append, length-drop, length-take, drop, take,
}
use code_zard.Resilience.Upstream.{ServiceInstance, ServiceDefinition, Reply}
use code_zard.Resilience.Breaker.{CircuitBreaker, try_acquire}
use code_zard.Resilience.Retry.{run_attempts}
use code_zard.Resilience.Retry.Laws.{run_attempts-bounded}
use code_zard.Resilience.Balancer.{Turns, verdict, try_each, rotation}
use code_zard.Resilience.Balancer.Failover.{
  acted, may_have_acted, acts_once, acted_bounded, Verdict-cases,
}
use code_zard.Resilience.Chain.{
  Clients, Settings, target, breaker_for, calls_from, retried, admitted, send_to, send,
}

acted-append : (xs ys : List (ServiceInstance × Reply)) → acted (xs ++ ys) ≡ acted xs + acted ys
acted-append [] ys = omega arith
acted-append (x ∷ xs) ys = omega (arith, acted-append xs ys)

length-calls_from :
    (c : Settings) (i : ServiceInstance) (first n : ℕ) → length (calls_from c i first n) ≡ n
unfolding calls_from
length-calls_from c i first zero = refl
length-calls_from c i first (suc n) = omega (arith, length-calls_from c i (suc first) n)

module _ (c : Settings) (service : ServiceDefinition) where
  send_to-acted :
      (i : ServiceInstance) (s : Clients)
      → acted (send_to c false service i s).1.sent
        ≡ acted s.sent + may_have_acted (send_to c false service i s).0
  unfolding send_to
  send_to-acted i s = go (try_acquire (c.clock s.readings) (breaker_for c (target service i) s))
    where
      go :
          (asked : Bool × CircuitBreaker)
          → acted (admitted c false (target service i) i asked s).1.sent
            ≡ acted s.sent + may_have_acted (admitted c false (target service i) i asked s).0
      go (false, b) = omega arith
      go (true, b) =
          let reply = c.transport i (length s.sent + 1) in
          omega (arith, acted-append s.sent ((i, reply) ∷ []))

  -- Trying instances adds to what was acted on what the replies count for.
  try_each-acted :
      (is : List ServiceInstance) (errors : List Reply) (s : Clients)
      → let b = try_each (send_to c false service) false is errors s in
        acted b.state.sent ≡ acted s.sent + acted b.trail
  unfolding try_each
  try_each-acted [] errors s = omega arith
  try_each-acted (i ∷ is) errors s =
      let reply = (send_to c false service i s).0 in
      let s' = (send_to c false service i s).1 in
      let here = send_to-acted i s in
      elim (Verdict-cases (verdict false reply)) [
        | inl e ↦ rw (try_each, e, acted) (omega (arith, here))
        | inr (inl e) ↦ rw (try_each, e, acted) (omega (arith, here))
        | inr (inr e) ↦
            rw (try_each, e, acted)
              (omega (arith, here, try_each-acted is (errors ++ reply ∷ []) s'))
      ]

  module _ (some_attempt : 1 ≤ c.policy.max_attempts) where
    attempts-le :
        (idempotent : Bool) (i : ServiceInstance) (s : Clients)
        → (retried c idempotent i s).attempts ≤ c.policy.max_attempts
    unfolding run_attempts
    attempts-le false i s = some_attempt
    attempts-le true i s =
        let (r, runs, v) =
          run_attempts-bounded c.policy (λ k. c.transport i (length s.sent + k)) some_attempt in
        rw runs v

    length-send_to :
        (idempotent : Bool) (i : ServiceInstance) (s : Clients)
        → length (send_to c idempotent service i s).1.sent ≤ length s.sent + c.policy.max_attempts
    unfolding send_to
    length-send_to idempotent i s =
        go (try_acquire (c.clock s.readings) (breaker_for c (target service i) s))
      where
        go :
            (asked : Bool × CircuitBreaker)
            → length (admitted c idempotent (target service i) i asked s).1.sent
              ≤ length s.sent + c.policy.max_attempts
        go (false, b) = omega arith
        go (true, b) =
            let n = (retried c idempotent i s).attempts in
            omega (
              arith,
              length-append s.sent (calls_from c i (length s.sent + 1) n),
              length-calls_from c i (length s.sent + 1) n,
              attempts-le idempotent i s,
            )

    length-try_each :
        (idempotent : Bool) (is : List ServiceInstance) (errors : List Reply) (s : Clients)
        → length (try_each (send_to c idempotent service) idempotent is errors s).state.sent
          ≤ length s.sent + c.policy.max_attempts * length is
    unfolding try_each
    length-try_each idempotent [] errors s = omega arith
    length-try_each idempotent (i ∷ is) errors s =
        let reply = (send_to c idempotent service i s).0 in
        let s' = (send_to c idempotent service i s).1 in
        let here = length-send_to idempotent i s in
        elim (Verdict-cases (verdict idempotent reply)) [
          | inl e ↦ rw (try_each, e) (grind (arith, here))
          | inr (inl e) ↦ rw (try_each, e) (grind (arith, here))
          | inr (inr e) ↦
              rw (try_each, e)
                (grind (arith, here, length-try_each idempotent is (errors ++ reply ∷ []) s'))
        ]

-- One call of the chain, on whatever state and whatever the breakers, the retries and the instances do:
-- when the request is not idempotent, at most one of the requests that the transport is given for it may be
-- acted on; and when at least one attempt is allowed and the service has an instance, the transport is
-- given at most so many requests as there are attempts allowed for each instance.
pub send-Reach :
    (c : Settings) (named : Option ServiceInstance) (service : ServiceDefinition) (turns : Turns)
    (s : Clients) (idempotent : Bool)
    → 1 ≤ c.policy.max_attempts
    → 1 ≤ length service.instances
    → (acted (send c false named service turns s).0.state.sent ≤ acted s.sent + 1)
      × (length (send c idempotent named service turns s).0.state.sent
          ≤ length s.sent + c.policy.max_attempts * length service.instances)
unfolding send rotation
send-Reach c (some i) service turns s idempotent some_attempt some_instance = (
  omega (arith, send_to-acted c service i s, acted_bounded (send_to c false service i s).0),
  grind (arith, length-send_to c service some_attempt idempotent i s),
)
send-Reach c none service turns s idempotent some_attempt some_instance =
    let is = (rotation service turns).0 in
    let start = turns service.name in
    let short : length is ≤ length service.instances = omega (
      arith,
      length-append (drop start service.instances) (take start service.instances),
      length-drop start service.instances,
      length-take start service.instances,
    ) in
    (
      omega (arith, try_each-acted c service is [] s, acts_once (send_to c false service) is [] s),
      grind (
        arith,
        length-try_each c service some_attempt idempotent is [] s,
        mul-le-mul_left c.policy.max_attempts short,
      ),
    )
