-- ===== src/Resilience/Retry/Laws.antt =====
-- What a retried call (`infrastructure/resilience/retry.py`) is: how many attempts, which reply, and
-- how long it waits.
use code_zard.Prelude.{
  ℕ, zero, suc, ◌+◌, ◌-◌, ◌*◌, ◌^◌, min, leb, ◌≤◌, ◌<◌, Bool, true, false, some, List, [], ◌∷◌, ◌≡◌,
  ◌⊎◌, refl, arith, ltb, Bool-cases, Option-cases, inl, inr,
}
use code_zard.Resilience.Upstream.{Reply, answered, timed_out, unreachable, interrupted}
use code_zard.Resilience.Retry.{
  RetryPolicy, delay_for, should_retry_status, Served, give_back, again, discard_and_again, decide,
  attempts_from, run_attempts,
}

-- A reply that asks for another attempt, however many were made.
abbrev is_transient : RetryPolicy → Reply → Bool
is_transient p (answered status) = should_retry_status p status
is_transient p (timed_out _) = true
is_transient p (unreachable _) = true
is_transient p _ = false

-- The waits from one attempt on, for a number of them: each twice the one before, up to the longest.
abbrev waits : RetryPolicy → ℕ → ℕ → List ℕ
waits p attempt zero = []
waits p attempt (suc n) =
    min (p.base_delay * 2 ^ (attempt - 1)) p.max_delay ∷ waits p (attempt + 1) n

-- What a call gives that began at the attempt `first`: the reply of the attempt after `n` more, all
-- before it transient, and it is not, unless it was the last.
pub record IsServed (p : RetryPolicy) (call : ℕ → Reply) (first : ℕ) (r : Served) : Type 0 where
  from : first ≤ r.attempts
  pub bounded : r.attempts ≤ p.max_attempts
  last : r.reply ≡ call r.attempts
  pub before : (k : ℕ) → first ≤ k → k < r.attempts → is_transient p (call k) ≡ true
  pub stopped : r.attempts < p.max_attempts → is_transient p r.reply ≡ false
  pub slept : r.slept ≡ waits p first (r.attempts - first)

decide-last :
    (p : RetryPolicy) (attempt : ℕ) (x : Reply)
    → p.max_attempts ≤ attempt
    → decide p attempt x ≡ give_back
unfolding decide
decide-last p attempt x h = ground arith

decide-final :
    (p : RetryPolicy) (attempt : ℕ) (x : Reply)
    → is_transient p x ≡ false
    → decide p attempt x ≡ give_back
unfolding decide
decide-final p attempt x h = ground arith

decide-transient :
    (p : RetryPolicy) (attempt : ℕ) (x : Reply)
    → attempt < p.max_attempts
    → is_transient p x ≡ true
    → (decide p attempt x ≡ again) ⊎ (decide p attempt x ≡ discard_and_again)
unfolding decide
decide-transient p attempt x b h = ground arith

-- The attempt that gives its reply back, seen on its own.
IsServed-now :
    (p : RetryPolicy) (call : ℕ → Reply) (a : ℕ)
    → a ≤ p.max_attempts
    → (a < p.max_attempts → is_transient p (call a) ≡ false)
    → IsServed p call a (record { reply = call a; attempts = a; slept = []; discarded = [] })
IsServed-now p call a b s =
    let none_left : a - a ≡ 0 = omega arith in
    record {
      from = omega arith;
      bounded = b;
      last = refl;
      before = λ k f l. absurd (omega arith);
      stopped = s;
      slept = rw (none_left);
    }

-- A transient attempt in front.
IsServed-later :
    (p : RetryPolicy) (call : ℕ → Reply) (a : ℕ) (r : Served) (d : List ℕ)
    → is_transient p (call a) ≡ true
    → IsServed p call (a + 1) r
    → IsServed p call a
        (record r { slept = min (p.base_delay * 2 ^ (a - 1)) p.max_delay ∷ r.slept; discarded = d })
IsServed-later p call a r d h v =
    let one_more : r.attempts - a ≡ suc (r.attempts - (a + 1)) = omega (arith, v.from) in
    record {
      from = omega (arith, v.from);
      bounded = v.bounded;
      last = v.last;
      before = λ k f l. elim (Bool-cases (ltb a k)) [
        | inl past ↦ v.before k (ground arith) l
        | inr here ↦ let same_k : k ≡ a = ground arith in rw same_k h
      ];
      stopped = v.stopped;
      slept = rw (one_more, v.slept);
    }

-- The powers that the first 1,024 delays take are numbers of the source.
delay_for-few :
    (p : RetryPolicy) (attempt : ℕ)
    → attempt < 1_025
    → delay_for p attempt ≡ some (min (p.base_delay * 2 ^ (attempt - 1)) p.max_delay)
unfolding delay_for
delay_for-few p attempt few = let test : leb 1_025 attempt ≡ false = ground arith in rw test

served_from :
    (f : ℕ) (p : RetryPolicy) (call : ℕ → Reply) (a : ℕ)
    → f + a ≡ p.max_attempts
    → p.max_attempts ≤ 1_025
    → (r : Served) × (attempts_from (suc f) p call a ≡ some r) × IsServed p call a r
unfolding attempts_from
served_from zero p call a h few =
    let last = decide-last p a (call a) (omega arith) in
    (_, rw (attempts_from, last), IsServed-now p call a (omega arith) (λ l. absurd (omega arith)))
served_from (suc f) p call a h few = elim (Bool-cases (is_transient p (call a))) [
  | inl transient ↦
      let (r, runs, v) = served_from f p call (a + 1) (omega arith) few in
      let wait = delay_for-few p a (omega arith) in
      elim (decide-transient p a (call a) (omega arith) transient) [
        | inl e ↦ (
          _,
          rw (attempts_from, e, wait, runs),
          IsServed-later p call a r r.discarded transient v,
        )
        | inr e ↦ (
          _,
          rw (attempts_from, e, wait, runs),
          IsServed-later p call a r (a ∷ r.discarded) transient v,
        )
      ]
  | inr final ↦
      let done = decide-final p a (call a) final in
      (_, rw (attempts_from, done), IsServed-now p call a (omega arith) (λ l. final))
]

abbrev attempted : Reply → ℕ → List ℕ → Served
attempted reply attempt discarded = record {
  reply = reply;
  attempts = attempt;
  slept = [];
  discarded = discarded;
}

-- Whatever the delays, the attempts end and stay within their number.
bounded_from :
    (f : ℕ) (p : RetryPolicy) (call : ℕ → Reply) (a : ℕ)
    → f + a ≡ p.max_attempts
    → (r : Served) × (attempts_from (suc f) p call a ≡ some r) × (r.attempts ≤ p.max_attempts)
unfolding attempts_from
bounded_from zero p call a h =
    let last = decide-last p a (call a) (omega arith) in
    (attempted (call a) a [], rw (attempts_from, last), omega arith)
bounded_from (suc f) p call a h =
    let (r, runs, v) = bounded_from f p call (a + 1) (omega arith) in
    elim (Bool-cases (is_transient p (call a))) [
      | inr final ↦
          let done = decide-final p a (call a) final in
          (attempted (call a) a [], rw (attempts_from, done), omega arith)
      | inl transient ↦ elim (decide-transient p a (call a) (omega arith) transient) [
        | inl e ↦ elim (Option-cases (delay_for p a)) [
          | inl over ↦ (attempted interrupted a [], rw (attempts_from, e, over), omega arith)
          | inr (d, wait) ↦ (record r { slept = d ∷ r.slept }, rw (attempts_from, e, wait, runs), v)
        ]
        | inr e ↦ elim (Option-cases (delay_for p a)) [
          | inl over ↦ (attempted interrupted a (a ∷ []), rw (attempts_from, e, over), omega arith)
          | inr (d, wait) ↦ (
            record r { slept = d ∷ r.slept; discarded = a ∷ r.discarded },
            rw (attempts_from, e, wait, runs),
            v,
          )
        ]
      ]
    ]

pub run_attempts-bounded :
    (p : RetryPolicy) (call : ℕ → Reply)
    → 1 ≤ p.max_attempts
    → (r : Served) × (run_attempts p true call ≡ some r) × (r.attempts ≤ p.max_attempts)
unfolding run_attempts
run_attempts-bounded p call h =
    let fuel : suc (p.max_attempts - 1) ≡ p.max_attempts = omega arith in
    let (r, runs, v) = bounded_from (p.max_attempts - 1) p call 1 (omega arith) in
    (r, rw fuel at runs, v)

-- An idempotent call with between one and 1,025 attempts allowed always ends: it makes at most the allowed
-- attempts, gives the last one's reply back, repeats only what is transient, gives a transient reply
-- back only when no attempt is left, and waits before the first repetition the policy's base delay, before
-- each later one twice the delay before it, and never longer than the policy's longest delay.
pub run_attempts-IsServed :
    (p : RetryPolicy) (call : ℕ → Reply)
    → 1 ≤ p.max_attempts
    → p.max_attempts ≤ 1_025
    → (r : Served) × (run_attempts p true call ≡ some r) × IsServed p call 1 r
unfolding run_attempts
run_attempts-IsServed p call h few =
    let fuel : suc (p.max_attempts - 1) ≡ p.max_attempts = omega arith in
    let (r, runs, v) = served_from (p.max_attempts - 1) p call 1 (omega arith) few in
    (r, rw fuel at runs, v)
