-- ===== src/Resilience/Breaker/Laws.antt =====
-- What the breaker (`infrastructure/resilience/circuit_breaker.py`) promises, whatever the order in
-- which calls begin and end.
use code_zard.Prelude.{
  ℕ, suc, ◌+◌, ◌≤◌, ◌<◌, Bool, true, false, List, [], ◌∷◌, ◌≡◌, ◌≢◌, refl, arith, ap, if◌then◌else◌,
  ltb, leb, Each, map, ◌++◌, length, some, Bool-cases, inl, inr,
}
use code_zard.Resilience.Breaker.{
  closed, opened, half_open, CircuitBreaker, trip, try_acquire, acquire_from, acquire_in,
  on_success, success_in, on_failure, failure_in, on_abort, new_breaker,
}

-- What can happen to a breaker: a call asks to start, or one that started ends in one of three ways.
pub data Event : Type 0 where
  asked failed : ℕ → Event
  succeeded aborted : Event

unfoldable pub happen : Event → CircuitBreaker → CircuitBreaker
unfolding try_acquire on_failure on_success on_abort
happen (asked now) b = (try_acquire now b).1
happen (failed now) b = on_failure now b
happen succeeded b = on_success b
happen aborted b = on_abort b

abbrev pub happen_all : List Event → CircuitBreaker → CircuitBreaker
happen_all [] b = b
happen_all (e ∷ es) b = happen_all es (happen e b)

-- A closed breaker has counted fewer failures than its threshold and any other none, and a probe is
-- in flight only when the breaker is half open.
pub record IsValid (b : CircuitBreaker) : Type 0 where
  pub threshold : 1 ≤ b.failure_threshold
  pub counted : b.state ≡ closed → b.failures < b.failure_threshold
  pub forgotten : b.state ≢ closed → b.failures ≡ 0
  pub probing : b.probe_in_flight ≡ true → b.state ≡ half_open

acquire-IsValid : (now : ℕ) (b : CircuitBreaker) → IsValid b → IsValid (try_acquire now b).1
unfolding try_acquire acquire_from acquire_in
acquire-IsValid now b v = ground arith

failure-IsValid : (now : ℕ) (b : CircuitBreaker) → IsValid b → IsValid (on_failure now b)
unfolding on_failure failure_in trip
failure-IsValid now b v = ground arith

success-IsValid : (b : CircuitBreaker) → IsValid b → IsValid (on_success b)
unfolding on_success success_in
success-IsValid b v = ground arith

abort-IsValid : (b : CircuitBreaker) → IsValid b → IsValid (on_abort b)
unfolding on_abort
abort-IsValid b v = ground arith

happen-IsValid : (e : Event) (b : CircuitBreaker) → IsValid b → IsValid (happen e b)
unfolding happen
happen-IsValid (asked now) b v = acquire-IsValid now b v
happen-IsValid (failed now) b v = failure-IsValid now b v
happen-IsValid succeeded b v = success-IsValid b v
happen-IsValid aborted b v = abort-IsValid b v

-- Whatever calls ask, fail, succeed and abort, in whatever order, a breaker that was valid stays
-- valid: closed, it has counted fewer failures than its threshold, and a probe is in flight only when
-- it is half open.
pub happen_all-IsValid :
    (es : List Event) (b : CircuitBreaker) → IsValid b → IsValid (happen_all es b)
happen_all-IsValid [] b v = v
happen_all-IsValid (e ∷ es) b v = happen_all-IsValid es (happen e b) (happen-IsValid e b v)

-- A new breaker is valid.
new_breaker-IsValid :
    (threshold timeout : ℕ) (b : CircuitBreaker)
    → new_breaker threshold timeout ≡ some b
    → IsValid b
unfolding new_breaker
new_breaker-IsValid threshold timeout b h = ground arith

-- Failures at these instants, one after the other.
abbrev fail_at : List ℕ → CircuitBreaker → CircuitBreaker
fail_at [] b = b
fail_at (now ∷ nows) b = fail_at nows (on_failure now b)

failure-opened : (now : ℕ) (b : CircuitBreaker) → b.state ≡ opened → on_failure now b ≡ b
unfolding on_failure failure_in
failure-opened now b o = ground arith

stays_open :
    (nows : List ℕ) (b : CircuitBreaker) → b.state ≡ opened → (fail_at nows b).state ≡ opened
stays_open [] b o = o
stays_open (now ∷ nows) b o = rw (fail_at, failure-opened now b o) (stays_open nows b o)

trips_at :
    (now : ℕ) (b : CircuitBreaker)
    → b.state ≡ closed
    → b.failure_threshold ≤ b.failures + 1
    → (on_failure now b).state ≡ opened
unfolding on_failure failure_in trip
trips_at now b c h = ground arith

counts :
    (now : ℕ) (b : CircuitBreaker)
    → b.state ≡ closed
    → b.failures + 1 < b.failure_threshold
    → on_failure now b ≡ record b { failures = b.failures + 1 }
unfolding on_failure failure_in trip
counts now b c h = ground arith

-- A closed breaker opens at exactly the failure that reaches its threshold, counting those before,
-- and stays closed until then; failures after it leave it open.
state-fail_at :
    (nows : List ℕ) (b : CircuitBreaker)
    → IsValid b
    → b.state ≡ closed
    → (fail_at nows b).state
      ≡ (if ltb (b.failures + length nows) b.failure_threshold then closed else opened)
state-fail_at [] b v c =
    let below : ltb (b.failures + 0) b.failure_threshold ≡ true = ground (arith, v.counted c) in
    rw (below, c)
state-fail_at (now ∷ nows) b v c = elim (Bool-cases (leb b.failure_threshold (b.failures + 1))) [
  | inl reached ↦
      let over : ltb (b.failures + suc (length nows)) b.failure_threshold ≡ false = ground arith in
      rw (over) (stays_open nows (on_failure now b) (trips_at now b c (ground arith)))
  | inr more ↦
      let step = counts now b c (ground arith) in
      let sum : b.failures + 1 + length nows ≡ b.failures + suc (length nows) = omega arith in
      let rest = state-fail_at nows (on_failure now b) (failure-IsValid now b v) (rw (step, c)) in
      rw (fail_at, step) (rw (step, sum) at rest)
]

-- What a breaker answers to calls that ask one after the other, none of which ends meanwhile.
abbrev pub answers : List ℕ → CircuitBreaker → List Bool
answers [] b = []
answers (now ∷ nows) b = (try_acquire now b).0 ∷ answers nows (try_acquire now b).1

abbrev all_refused : List ℕ → List Bool
all_refused nows = map (λ _. false) nows

held :
    (now : ℕ) (b : CircuitBreaker)
    → b.state ≡ half_open
    → b.probe_in_flight ≡ true
    → try_acquire now b ≡ (false, b)
unfolding try_acquire acquire_from acquire_in
held now b s p = ground arith

too_early :
    (now : ℕ) (b : CircuitBreaker)
    → b.state ≡ opened
    → now < b.opened_at + b.recovery_timeout
    → try_acquire now b ≡ (false, b)
unfolding try_acquire acquire_from
too_early now b s h = ground arith

probe_starts :
    (now : ℕ) (b : CircuitBreaker)
    → IsValid b
    → b.state ≡ opened
    → b.opened_at + b.recovery_timeout ≤ now
    → try_acquire now b ≡ (true, record b { state = half_open; probe_in_flight = true })
unfolding try_acquire acquire_from acquire_in
probe_starts now b v s h = ground arith

answers-held :
    (nows : List ℕ) (b : CircuitBreaker)
    → b.state ≡ half_open
    → b.probe_in_flight ≡ true
    → answers nows b ≡ all_refused nows
answers-held [] b s p = refl
answers-held (now ∷ nows) b s p = rw (held now b s p, answers-held nows b s p)

-- Calls that ask an open breaker are all refused until the timeout has passed since it opened; the
-- first call after that passes and no later one does until the probe ends.
pub answers-open :
    (early : List ℕ) (now : ℕ) (later : List ℕ) (b : CircuitBreaker)
    → IsValid b
    → b.state ≡ opened
    → Each (λ t. t < b.opened_at + b.recovery_timeout) early
    → b.opened_at + b.recovery_timeout ≤ now
    → answers (early ++ now ∷ later) b ≡ all_refused early ++ true ∷ all_refused later
answers-open [] now later b v o before after =
    let probing = record b { state = half_open; probe_in_flight = true } in
    rw (probe_starts now b v o after, answers-held later probing refl refl)
answers-open (t ∷ early) now later b v o before after =
    rw (too_early t b o before.0, answers-open early now later b v o before.1 after)

passes_closed : (now : ℕ) (b : CircuitBreaker) → b.state ≡ closed → try_acquire now b ≡ (true, b)
unfolding try_acquire acquire_from acquire_in
passes_closed now b c = ground arith

passes_half_open :
    (now : ℕ) (b : CircuitBreaker)
    → b.state ≡ half_open
    → b.probe_in_flight ≡ false
    → (try_acquire now b).0 ≡ true
unfolding try_acquire acquire_from acquire_in
passes_half_open now b h p = ground arith

on_abort_lem :
    (b : CircuitBreaker) → ((on_abort b).state ≡ b.state) × ((on_abort b).probe_in_flight ≡ false)
unfolding on_abort
on_abort_lem b = ground arith

fail_at-IsValid : (nows : List ℕ) (b : CircuitBreaker) → IsValid b → IsValid (fail_at nows b)
fail_at-IsValid [] b v = v
fail_at-IsValid (now ∷ nows) b v = fail_at-IsValid nows (on_failure now b) (failure-IsValid now b v)

-- A call passes a closed breaker, other calls fail until their number opens it, and once its timeout is
-- over a second call passes as the probe: while neither has ended a third call is refused, but when the
-- first call is aborted the third passes, with the probe still in flight.
pub second_probe :
    (first : ℕ) (failures : List ℕ) (probe third : ℕ) (b : CircuitBreaker)
    → IsValid b
    → b.state ≡ closed
    → b.failure_threshold ≤ b.failures + length failures
    → let tripped = fail_at failures (try_acquire first b).1 in
      tripped.opened_at + tripped.recovery_timeout ≤ probe
      → let tripped = fail_at failures (try_acquire first b).1 in
        let probing = (try_acquire probe tripped).1 in
        ((try_acquire first b).0 ≡ true)
        × ((try_acquire probe tripped).0 ≡ true)
        × ((try_acquire third probing).0 ≡ false)
        × ((try_acquire third (on_abort probing)).0 ≡ true)
second_probe first failures probe third b v c enough late =
    let passed = passes_closed first b c in
    let tripped = fail_at failures b in
    let reached : ltb (b.failures + length failures) b.failure_threshold ≡ false = ground arith in
    let is_open : tripped.state ≡ opened = rw reached at (state-fail_at failures b v c) in
    let probing : CircuitBreaker = record tripped { state = half_open; probe_in_flight = true } in
    let starts =
      probe_starts probe tripped (fail_at-IsValid failures b v) is_open (rw passed at late) in
    let (still, freed) = on_abort_lem probing in
    rw (passed, starts)
      (
        refl,
        refl,
        ap (λ x. x.0) (held third probing refl refl),
        passes_half_open third (on_abort probing) still freed,
      )
