-- ===== src/Runs/Gate.antt =====
-- The state machine of `domain/runs.py`: what has to happen before a project is generated, and what
-- no move changes.
use code_zard.Prelude.{
  Option-cases, ap, ◌∙◌, ℕ, ◌+◌, String, Option, none, some, List, [], ◌∷◌, ◌≡◌, ◌≢◌, inl, inr,
  refl, arith,
}
use code_zard.Prelude.Result.{Result, ok, err}
use code_zard.Runs.{
  RunState, idea, plan_review, plan_approved, backend_generation, RunEvent, describe, ask, propose,
  reject, revise, approve, generate, deliver, fail, target, Run, RunError, describing, asked,
  proposed, rejected, revising, approved, generating, delivered, failing,
}

-- Where a history leads, newest event first; `none` once a move was refused.
abbrev pub after : List RunEvent → Option RunState
after [] = some idea
after (e ∷ es) = elim (after es) [ none ↦ none | some s ↦ target s e ]

from_approved :
    (s : RunState) (e : RunEvent)
    → target s e ≡ some backend_generation
    → (s ≡ plan_approved) × (e ≡ generate)
unfolding target
from_approved s e h = ground arith

from_review :
    (s : RunState) (e : RunEvent)
    → target s e ≡ some plan_approved
    → (s ≡ plan_review) × (e ≡ approve)
unfolding target
from_review s e h = ground arith

-- The last event of a history that arrived somewhere, and where the rest of it had arrived.
last_event :
    (es : List RunEvent) (s : RunState)
    → after es ≡ some s
    → s ≢ idea
    → (e : RunEvent) × (pre : List RunEvent) × (t : RunState) × (es ≡ e ∷ pre)
      × (after pre ≡ some t)
      × (target t e ≡ some s)
last_event [] s h n = absurd (n (cc))
last_event (e ∷ pre) s h n = elim (Option-cases (after pre)) [
  | inl stuck ↦ cc (rw (stuck, after) at h)
  | inr (t, here) ↦ (e, pre, t, refl, here, rw (here, after) at h)
]

-- Whatever the history, a run that is generating got there by a generate event right behind an
-- approve event, which the plan's review allowed: there is no other way past the gate.
pub generation_needs_approval :
    (es : List RunEvent)
    → after es ≡ some backend_generation
    → (pre : List RunEvent) × (es ≡ generate ∷ approve ∷ pre) × (after pre ≡ some plan_review)
generation_needs_approval es h =
    let (e, pre, t, es_is, pre_at, step) = last_event es backend_generation h (λ x. cc) in
    let (t_is, e_is) = from_approved t e step in
    let (e', pre', t', pre_is, pre'_at, step') =
      last_event pre plan_approved (pre_at ∙ ap some t_is) (λ x. cc) in
    let (t'_is, e'_is) = from_review t' e' step' in (pre', cc, cc)

-- The moves of a run, one for each method that makes a transition.
pub data Move (D : Type 0) : Type 0 where
  describing_move rejected_move revising_move approved_move generating_move : Move D
  asked_move : String → D → Move D
  proposed_move : D → Move D
  delivered_move failed_move : String → Move D

module _ {D : Type 0} where
  unfoldable pub make : Run D → Move D → ℕ → Result RunError (Run D)
  unfolding describing rejected revising approved generating asked proposed delivered failing
  make r describing_move now = describing r now
  make r rejected_move now = rejected r now
  make r revising_move now = revising r now
  make r approved_move now = approved r now
  make r generating_move now = generating r now
  make r (asked_move summary d) now = asked r summary d now
  make r (proposed_move d) now = proposed r d now
  make r (delivered_move artifact) now = delivered r artifact now
  make r (failed_move message) now = failing r message now

  abbrev event_of : Move D → RunEvent
  event_of describing_move = describe
  event_of rejected_move = reject
  event_of revising_move = revise
  event_of approved_move = approve
  event_of generating_move = generate
  event_of (asked_move _ _) = ask
  event_of (proposed_move _) = propose
  event_of (delivered_move _) = deliver
  event_of (failed_move _) = fail

  abbrev pub is_ask : Move D → ℕ
  is_ask (asked_move _ _) = 1
  is_ask _ = 0

  -- What a move that was allowed may change: the state follows the table, the rounds grow by a
  -- questionnaire that is served, and who pays, what it costs and what was asked for stay.
  pub record Kept (r : Run D) (m : Move D) (r' : Run D) : Type 0 where
    followed : target r.state (event_of m) ≡ some r'.state
    pub rounds : r'.rounds ≡ r.rounds + is_ask m
    pub id : r'.id ≡ r.id
    pub idea : r'.idea ≡ r.idea
    pub account : r'.account ≡ r.account
    pub charged : r'.charged ≡ r.charged
    pub answers : r'.answers ≡ r.answers

  -- A method returns only along the table; then it changes the state as the table says, counts a
  -- round exactly when it serves a questionnaire, and keeps the run's id, idea, account, charge and
  -- answers.
  pub make-Kept : (r r' : Run D) (m : Move D) (now : ℕ) → make r m now ≡ ok r' → Kept r m r'
  unfolding make
  make-Kept r r' describing_move now h = ground arith
  make-Kept r r' _ now h = ground arith

  -- A method raises exactly when the table has no such move, and names the state and the event.
  make_refused :
      (r : Run D) (m : Move D) (now : ℕ)
      → target r.state (event_of m) ≡ none
      → make r m now ≡ err (RunError.illegal_transition r.state (event_of m))
  unfolding make
  make_refused r describing_move now h = ground arith
  make_refused r _ now h = ground arith
