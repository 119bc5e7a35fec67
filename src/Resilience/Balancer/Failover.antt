-- ===== src/Resilience/Balancer/Failover.antt =====
-- Where a request goes: `_balanced` of `infrastructure/resilience/load_balancer.py`.
use code_zard.Prelude.{
  ℕ, ◌+◌, ◌≤◌, Bool, true, false, List, [], ◌∷◌, ◌++◌, ◌≡◌, ◌⊎◌, inl, inr, refl, arith, length,
  take, map,
}
use code_zard.Resilience.Upstream.{
  ServiceInstance, Reply, answered, timed_out, unreachable, circuit_open, interrupted,
}
use code_zard.Resilience.Balancer.{Verdict, serve, stop, move_on, verdict, can_fail_over, try_each}

-- Whether the instance may have acted on the request.
abbrev pub may_have_acted : Reply → ℕ
may_have_acted (answered _) = 1
may_have_acted (timed_out true) = 1
may_have_acted (timed_out false) = 0
may_have_acted (unreachable true) = 1
may_have_acted (unreachable false) = 0
may_have_acted circuit_open = 0
may_have_acted interrupted = 1

abbrev pub acted : List (ServiceInstance × Reply) → ℕ
acted [] = 0
acted (t ∷ ts) = may_have_acted t.1 + acted ts

verdict-acted : (r : Reply) → verdict false r ≡ move_on → may_have_acted r ≡ 0
unfolding verdict can_fail_over
verdict-acted r h = ground arith

pub acted_bounded : (r : Reply) → may_have_acted r ≤ 1
acted_bounded r = ground arith

pub Verdict-cases : (v : Verdict) → (v ≡ serve) ⊎ ((v ≡ stop) ⊎ (v ≡ move_on))
Verdict-cases v = ground arith

module _ {S : Type 0} where
  -- A request that is not idempotent is acted on by at most one instance, however the instances fail.
  pub acts_once :
      (call : ServiceInstance → S → Reply × S) (is : List ServiceInstance) (errors : List Reply)
      (s : S)
      → acted (try_each call false is errors s).trail ≤ 1
  unfolding try_each
  acts_once call [] errors s = omega arith
  acts_once call (i ∷ is) errors s = elim (Verdict-cases (verdict false (call i s).0)) [
    | inl e ↦ rw (try_each, e, acted) (omega (arith, acted_bounded (call i s).0))
    | inr (inl e) ↦ rw (try_each, e, acted) (omega (arith, acted_bounded (call i s).0))
    | inr (inr e) ↦
        rw (try_each, e, acted)
          (omega (
            arith,
            verdict-acted (call i s).0 e,
            acts_once call is (errors ++ (call i s).0 ∷ []) (call i s).1,
          ))
  ]

  -- The instances that are tried are the first of the rotation, in its order.
  tried-prefix :
      (call : ServiceInstance → S → Reply × S) (idempotent : Bool) (is : List ServiceInstance)
      (errors : List Reply) (s : S)
      → map (λ t. t.0) (try_each call idempotent is errors s).trail
        ≡ take (length (try_each call idempotent is errors s).trail) is
  unfolding try_each
  tried-prefix call idempotent [] errors s = refl
  tried-prefix call idempotent (i ∷ is) errors s =
      elim (Verdict-cases (verdict idempotent (call i s).0)) [
        | inl e ↦ rw (try_each, e)
        | inr (inl e) ↦ rw (try_each, e)
        | inr (inr e) ↦ rw (
          try_each,
          e,
          tried-prefix call idempotent is (errors ++ (call i s).0 ∷ []) (call i s).1,
        )
      ]
