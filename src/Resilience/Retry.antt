-- ===== src/Resilience/Retry.antt =====
-- src/gateway/infrastructure/resilience/retry.py: how often a call is repeated, and how long it
-- waits. Delays are whole milliseconds; what each attempt gives is an argument.
pub mod Laws
use code_zard.Prelude.{
  ℕ, zero, suc, ◌+◌, ◌-◌, ◌*◌, ◌^◌, min, Bool, true, false, ◌||◌, not, Option, none, some, List, [],
  ◌∷◌, if◌then◌else◌, leb,
}
use code_zard.Resilience.Upstream.{
  Reply, answered, timed_out, unreachable, circuit_open, interrupted,
}
use code_zard.Resilience.Breaker.{among}

pub record RetryPolicy : Type 0 where
  pub max_attempts : ℕ
  pub base_delay : ℕ
  pub max_delay : ℕ
  pub retry_on_status : List ℕ

-- `delay_for`; `none` is the `OverflowError` of `2.0 ** 1024` and of any higher power.
unfoldable pub delay_for : RetryPolicy → ℕ → Option ℕ
delay_for p attempt =
    if leb 1_025 attempt then none else some (min (p.base_delay * 2 ^ (attempt - 1)) p.max_delay)

unfoldable pub should_retry_status : RetryPolicy → ℕ → Bool
should_retry_status p status = among status p.retry_on_status

-- What a call leaves: its reply, how many attempts were made, the waits and the attempts whose
-- response was discarded, oldest first.
pub record Served : Type 0 where
  pub reply : Reply
  pub attempts : ℕ
  pub slept : List ℕ
  pub discarded : List ℕ

-- What the loop does with the reply of one attempt: the two errors and a bad status go round again,
-- an answer being discarded first.
pub data Decision : Type 0 where
  give_back again discard_and_again : Decision

unfoldable pub decide : RetryPolicy → ℕ → Reply → Decision
unfolding should_retry_status
decide p attempt (answered status) =
    if leb p.max_attempts attempt || not (should_retry_status p status)
    then give_back
    else discard_and_again
decide p attempt (timed_out sent) = if leb p.max_attempts attempt then give_back else again
decide p attempt (unreachable sent) = if leb p.max_attempts attempt then give_back else again
decide p attempt circuit_open = give_back
decide p attempt interrupted = give_back

abbrev waited : ℕ → Option Served → Option Served
waited d none = none
waited d (some r) = some (record r { slept = d ∷ r.slept })

abbrev dropped : ℕ → Option Served → Option Served
dropped k none = none
dropped k (some r) = some (record r { discarded = k ∷ r.discarded })

-- The wait before the next attempt and that attempt, or the exception where the wait has no value.
abbrev repeated : Option ℕ → ℕ → Option Served → Option Served
repeated none attempt rest =
    some (record { reply = interrupted; attempts = attempt; slept = []; discarded = [] })
repeated (some d) attempt rest = waited d rest

-- The `while True` of `_attempts`, from one attempt on; `none` when the fuel is out.
unfoldable pub attempts_from : ℕ → RetryPolicy → (ℕ → Reply) → ℕ → Option Served
unfolding decide delay_for
attempts_from zero p call attempt = none
attempts_from (suc fuel) p call attempt =
    let rest = repeated (delay_for p attempt) attempt (attempts_from fuel p call (attempt + 1)) in
    elim (decide p attempt (call attempt)) [
      | give_back ↦
          some (record { reply = call attempt; attempts = attempt; slept = []; discarded = [] })
      | again ↦ rest
      | discard_and_again ↦ dropped attempt rest
    ]

-- `_attempts`: the loop runs only for an idempotent request.
unfoldable pub run_attempts : RetryPolicy → Bool → (ℕ → Reply) → Option Served
unfolding attempts_from
run_attempts p idempotent call =
    if idempotent
    then attempts_from p.max_attempts p call 1
    else some (record { reply = call 1; attempts = 1; slept = []; discarded = [] })
