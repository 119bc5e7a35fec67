-- ===== src/Resilience/Balancer/Rotation.antt =====
-- Whose turn it is: `_rotation` of `infrastructure/resilience/load_balancer.py`.
use code_zard.Prelude.{
  ℕ, zero, suc, ◌+◌, ◌%◌, ◌<◌, List, [], ◌∷◌, ◌++◌, ◌≡◌, arith, length, take, drop,
  take-append-drop,
}
use code_zard.Prelude.Text.{same_refl}
use mathlib.Core.Path.{subst}
use mathlib.Core.List.{Perm, perm_middle, append-nil}
use native.Mathlib.Nat.{mod-eq_of_lt, mod-add-mod}
use mathlib.Core.List.Perm
use code_zard.Resilience.Upstream.{ServiceInstance, ServiceDefinition}
use code_zard.Resilience.Balancer.{Turns, set_turn, rotation}

Perm-append_comm : (xs ys : List ServiceInstance) → Perm (xs ++ ys) (ys ++ xs)
Perm-append_comm [] ys = rw append-nil (Perm.refl ys)
Perm-append_comm (x ∷ xs) ys =
    Perm.trans (Perm.cons x (Perm-append_comm xs ys)) (Perm.symm (perm_middle ys xs))

-- Every instance of the service has exactly one place in its rotation, whose ever turn it is.
rotation-Perm :
    (service : ServiceDefinition) (turns : Turns)
    → Perm (rotation service turns).0 service.instances
unfolding rotation
rotation-Perm service turns =
    let n = turns service.name in
    let is = service.instances in
    subst (λ xs. Perm (drop n is ++ take n is) xs) (take-append-drop n is)
      (Perm-append_comm (drop n is) (take n is))

-- The turns after a number of requests for a service.
abbrev after_requests : ℕ → ServiceDefinition → Turns → Turns
after_requests zero service turns = turns
after_requests (suc k) service turns = (rotation service (after_requests k service turns)).1

-- After `k` requests it is the turn of the instance `k` places further round, so that as many requests
-- in a row as there are instances start at each of them once; other services keep their turn.
after_requests_lem :
    (k : ℕ) (service : ServiceDefinition) (turns : Turns)
    → turns service.name < length service.instances
    → after_requests k service turns service.name
      ≡ (turns service.name + k) % length service.instances
unfolding rotation set_turn
after_requests_lem zero service turns h =
    let none_yet : turns service.name + 0 ≡ turns service.name = omega arith in
    rw (none_yet, mod-eq_of_lt h)
after_requests_lem (suc k) service turns h =
    let n = length service.instances in
    let start = turns service.name in
    let one_more : start + k + 1 ≡ start + suc k = omega arith in
    rw (
      same_refl service.name,
      after_requests_lem k service turns h,
      mod-add-mod (start + k) n 1,
      one_more,
    )
