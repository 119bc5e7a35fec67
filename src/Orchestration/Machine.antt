-- ===== src/Orchestration/Machine.antt =====
-- The planning of `application/orchestration.py` stays within the state machine of `domain/runs.py`
-- and within its rounds, whatever the agents answer.
use code_zard.Prelude.{
  ℕ, ◌+◌, ◌==◌, ◌≤◌, String, false, List, ◌≡◌, refl, arith, Bool-cases, inl, inr,
}
use code_zard.Prelude.Result.{Result, ok, err, ◌>>=◌}
use code_zard.Json.{text, Fields, end, field, get, str_or_empty}
use code_zard.Runs.{Answer, RunError, max_rounds, start, approved, billed, rounds_left, answering}
use code_zard.Runs.Gate.{
  Move, describing_move, rejected_move, revising_move, approved_move, asked_move, proposed_move,
  make, make-Kept, is_ask,
}
use code_zard.Runs.Plans.{Reached, started, made, answered, charged}
use code_zard.Orchestration.Answers.{questions, questions_in, is_plan, is_empty_list}
use code_zard.Orchestration.Planner.{
  Outside, PlanRun, Raised, lifted, ask_pm, judge_plan, plan, analyzed, begin, replan, revise,
  revised, plan_payload, revise_payload,
}

-- A run that the methods of a run can make, in at most so many rounds.
pub record IsWithin (rounds : ℕ) (r : PlanRun) : Type 0 where
  pub reached : Reached r
  pub bounded : r.rounds ≤ rounds

-- The same of a step that may raise.
abbrev pub Yields : ℕ → Result Raised PlanRun → Type 0
Yields n (ok r) = IsWithin n r
Yields n (err e) = Unit

Yields-bind :
    {A : Type 0} (n : ℕ) (m : Result Raised A) (f : A → Result Raised PlanRun)
    → ((a : A) → Yields n (f a))
    → Yields n (m >>= f)
Yields-bind n (ok a) f h = h a
Yields-bind n (err e) f h = tt

Yields-bind_run :
    (k n : ℕ) (m : Result Raised PlanRun) (f : PlanRun → Result Raised PlanRun)
    → Yields k m
    → ((r : PlanRun) → IsWithin k r → Yields n (f r))
    → Yields n (m >>= f)
Yields-bind_run k n (ok r) f y h = h r y
Yields-bind_run k n (err e) f y h = tt

-- A move that does not go past the rounds.
pub make-Yields :
    {k : ℕ} (n : ℕ) (r : PlanRun) (m : Move Fields) (now : ℕ)
    → IsWithin k r
    → k + is_ask m ≤ n
    → Yields n (lifted (make r m now))
make-Yields {k} n r m now y room = go (make r m now) refl
  where
    go : (result : Result RunError PlanRun) → make r m now ≡ result → Yields n (lifted result)
    go (ok r') made_it = record {
      reached = made m now y.reached made_it;
      bounded = omega (arith, y.bounded, (make-Kept r r' m now made_it).rounds);
    }
    go (err e) made_it = tt

-- A run with a round left has had one at most.
one_more : (r : PlanRun) → IsWithin max_rounds r → (rounds_left r == 0) ≡ false → IsWithin 1 r
unfolding rounds_left
one_more r y more = record { reached = y.reached; bounded = ground (arith, y.bounded) }

answering-IsWithin :
    {k : ℕ} (r : PlanRun) (answers : List Answer) (now : ℕ)
    → IsWithin k r
    → IsWithin k (answering r answers now)
unfolding answering
answering-IsWithin r answers now y = record {
  reached = answered answers now y.reached;
  bounded = y.bounded;
}

pub billed-IsWithin :
    {k : ℕ} (r : PlanRun) (tokens now : ℕ) → IsWithin k r → IsWithin k (billed r tokens now)
unfolding billed
billed-IsWithin r tokens now y = record {
  reached = charged tokens now y.reached;
  bounded = y.bounded;
}

start-no_rounds :
    (id idea account : String) (now : ℕ) (r : PlanRun)
    → start id idea account now ≡ ok r
    → r.rounds ≤ 0
unfolding start
start-no_rounds id idea account now r h = ground arith

start-Yields : (id idea account : String) (now : ℕ) → Yields 0 (lifted (start id idea account now))
start-Yields id idea account now = go (start id idea account now) refl
  where
    go :
        (result : Result RunError PlanRun)
        → start id idea account now ≡ result
        → Yields 0 (lifted result)
    go (ok r) started_it = record {
      reached = started id idea account now started_it;
      bounded = start-no_rounds id idea account now r started_it;
    }
    go (err e) started_it = tt

module _ (o : Outside) where
  judge_plan-Yields :
      (run : PlanRun) (answer : Fields) (now : ℕ)
      → IsWithin max_rounds run
      → Yields max_rounds (judge_plan o run answer now)
  unfolding judge_plan make rounds_left
  judge_plan-Yields run answer now y =
      elim (Bool-cases (is_empty_list (questions_in o.render answer))) [
        | inl silent ↦ elim (Bool-cases (is_plan o.render answer)) [
          | inl planned ↦
              rw (silent, planned)
                (make-Yields max_rounds run (proposed_move answer) now y (omega arith))
          | inr neither ↦ rw (silent, neither, Yields) tt
        ]
        | inr asks ↦ elim (Bool-cases (rounds_left run == 0)) [
          | inl over ↦ rw (asks, over, Yields) tt
          | inr more ↦
              rw (asks, more)
                (make-Yields max_rounds run (asked_move run.summary _) now (one_more run y more)
                  (omega arith))
        ]
      ]

  plan-Yields :
      (run : PlanRun) (now : ℕ) → IsWithin max_rounds run → Yields max_rounds (plan o run now)
  unfolding plan
  plan-Yields run now y =
      Yields-bind max_rounds (ask_pm o "plan" (plan_payload run))
        (λ answer. judge_plan o run answer now) (λ answer. judge_plan-Yields run answer now y)

  -- A first questionnaire is the first round, and a plan that asks again the second one.
  analyzed-Yields :
      (run : PlanRun) (answer : Fields) → IsWithin 0 run → Yields max_rounds (analyzed o run answer)
  unfolding analyzed make
  analyzed-Yields run answer y =
      elim (Bool-cases (is_empty_list (questions o.render (get "questionnaire" answer)))) [
        | inl silent ↦ rw silent (
            Yields-bind_run 1 max_rounds _ (λ unasked. plan o unasked (o.clock 3))
              (make-Yields 1 run (asked_move (str_or_empty o.render (get "summary" answer)) _)
                (o.clock 2) y (omega arith))
              (λ unasked within.
                plan-Yields unasked (o.clock 3)
                  (record { reached = within.reached; bounded = omega (arith, within.bounded) })))
        | inr asks ↦ rw asks (
            make-Yields max_rounds run (asked_move (str_or_empty o.render (get "summary" answer)) _)
              (o.clock 2) y (omega arith))
      ]

  pub begin-Yields : (idea account : String) → Yields max_rounds (begin o idea account)
  unfolding begin make
  begin-Yields idea account =
      Yields-bind_run 0 max_rounds _ _ (start-Yields o.new_id idea account (o.clock 0)) λ new y.
        Yields-bind_run 0 max_rounds _ _
          (make-Yields 0 new describing_move (o.clock 1) y (omega arith))
          λ run y'.
            Yields-bind max_rounds (ask_pm o "analyze" (field "idea" (text run.idea) end))
              (analyzed o run) λ answer. analyzed-Yields run answer y'

  pub replan-Yields :
      (answers : List Answer) (run : PlanRun)
      → IsWithin max_rounds run
      → Yields max_rounds (replan o answers run)
  unfolding replan
  replan-Yields answers run y =
      plan-Yields (answering run answers (o.clock 1)) (o.clock 2)
        (answering-IsWithin run answers (o.clock 1) y)

  revised-Yields :
      (run : PlanRun) (answer : Fields)
      → IsWithin max_rounds run
      → Yields max_rounds (revised o run answer)
  unfolding make
  revised-Yields run answer y = elim (Bool-cases (is_plan o.render answer)) [
    | inl planned ↦
        rw planned (make-Yields max_rounds run (proposed_move answer) (o.clock 3) y (omega arith))
    | inr other ↦ rw (other, Yields) tt
  ]

  pub revise-Yields :
      (feedback : String) (run : PlanRun)
      → IsWithin max_rounds run
      → Yields max_rounds (revise o feedback run)
  unfolding revise make
  revise-Yields feedback stored y =
      Yields-bind_run max_rounds max_rounds _ _
        (make-Yields max_rounds stored rejected_move (o.clock 1) y (omega arith))
        λ refused y1.
          Yields-bind_run max_rounds max_rounds _ _
            (make-Yields max_rounds refused revising_move (o.clock 2) y1 (omega arith))
            λ run y2.
              Yields-bind max_rounds (ask_pm o "revise" (revise_payload run feedback))
                (revised o run) λ answer. revised-Yields run answer y2

  pub approved-Yields :
      (run : PlanRun) (now : ℕ)
      → IsWithin max_rounds run
      → Yields max_rounds (lifted (approved run now))
  unfolding make
  approved-Yields run now y = make-Yields max_rounds run approved_move now y (omega arith)
