-- ===== src/Orchestration/Refinement.antt =====
-- Whatever the callers, the agents, the meter and the streams do, the runs that the orchestrator stores
-- are runs of the state machine (`application/orchestration.py` over `domain/runs.py`).
pub mod Calls
mod Generating
use code_zard.Prelude.{ℕ, String, Option, none, some, List, arith, Bool-cases, inl, inr, ◌||◌}
use code_zard.Prelude.Text.{same, strip}
use code_zard.Prelude.Result.{Result, ok, err}
use code_zard.Billing.Errors.{BillingError}
use code_zard.Billing.Pricing.{Usage, is_empty}
use code_zard.Billing.Ledger.{LedgerEntry, Balance}
use code_zard.Runs.{Answer, max_rounds, approved, generating, delivered, failing}
use code_zard.Runs.Gate.{generating_move, delivered_move, failed_move, make}
use code_zard.RunStore as RunStore
use code_zard.Proxy.{InboundRequest}
use code_zard.Orchestration.Planner.{Outside, PlanRun, Raised, lifted, begin, replan, revise}
use code_zard.Orchestration.Moves.{
  RunMeter, World, Outcome, save, saved, known, fetch, after_fetch, stored_move, refusal_of,
  authorized, if_paid, start, answer, reject, approve, read,
}
use code_zard.Orchestration.Generation.{
  Stream, Ending, whole, raised, gone, closed, charge, booked, put_failed, give_up, put_delivered,
  settle, flow, launched, launch, generate,
}
use code_zard.Orchestration.Machine.{
  IsWithin, Yields, make-Yields, billed-IsWithin, begin-Yields, replan-Yields, revise-Yields,
  approved-Yields,
}
use code_zard.Orchestration.Stored.{All, All-put, Found, get-All}
use code_zard.Orchestration.Refinement.Calls.{
  AllWithin, save-AllWithin, saved-AllWithin, fetch-AllWithin, stored_move-AllWithin,
  if_paid-AllWithin, authorized-AllWithin,
}
use code_zard.Orchestration.Refinement.Generating.{generate-AllWithin}

module _ {B : Type 0} where
  -- One call of the orchestrator, whatever is outside.
  pub data Step : World B → World B → Type 0 where
    start_step :
        (o : Outside) (meter : Option (RunMeter B)) (idea account : String) (w : World B)
        → Step w (start o meter idea account w).1
    answer_step :
        (o : Outside) (id : String) (answers : List Answer) (w : World B)
        → Step w (answer o id answers w).1
    reject_step :
        (o : Outside) (id feedback : String) (w : World B) → Step w (reject o id feedback w).1
    approve_step : (o : Outside) (id : String) (w : World B) → Step w (approve o id w).1
    read_step : (o : Outside) (id : String) (w : World B) → Step w (read o id w).1
    generate_step :
        (o : Outside) (meter : Option (RunMeter B))
        (stream : String → InboundRequest → Result String Stream) (id : String) (w : World B)
        → Step w (generate o meter stream id w).1.1

  start-AllWithin :
      (o : Outside) (meter : Option (RunMeter B)) (idea account : String) (w : World B)
      → AllWithin w
      → AllWithin (start o meter idea account w).1
  unfolding start
  start-AllWithin o meter idea account w all =
      if_paid-AllWithin o (authorized meter account w) (begin o idea account)
        (authorized-AllWithin meter account w all) (begin-Yields o idea account)

  reject-AllWithin :
      (o : Outside) (id feedback : String) (w : World B)
      → AllWithin w
      → AllWithin (reject o id feedback w).1
  unfolding reject
  reject-AllWithin o id feedback w all = elim (Bool-cases (same (strip feedback) "")) [
    | inl nothing ↦ rw nothing all
    | inr reason ↦ rw reason (
        stored_move-AllWithin (o.clock 0) (o.clock 4) (revise o (strip feedback)) id w
          (revise-Yields o (strip feedback)) all)
  ]

  Step-AllWithin : {w w' : World B} → Step w w' → AllWithin w → AllWithin w'
  unfolding answer approve read
  Step-AllWithin (start_step o meter idea account w) all =
      start-AllWithin o meter idea account w all
  Step-AllWithin (answer_step o id answers w) all =
      stored_move-AllWithin (o.clock 0) (o.clock 3) (replan o answers) id w
        (replan-Yields o answers) all
  Step-AllWithin (reject_step o id feedback w) all = reject-AllWithin o id feedback w all
  Step-AllWithin (approve_step o id w) all =
      stored_move-AllWithin (o.clock 0) (o.clock 2) (λ run. lifted (approved run (o.clock 1))) id w
        (λ run y. approved-Yields o run (o.clock 1) y) all
  Step-AllWithin (read_step o id w) all = (fetch-AllWithin (o.clock 0) id w all).1
  Step-AllWithin (generate_step o meter stream id w) all =
      generate-AllWithin o meter stream id w all

  -- What calls of the orchestrator make of a world.
  pub data Reachable (w : World B) : World B → Type 0 where
    here : Reachable w w
    then_step : {v v' : World B} → Reachable w v → Step v v' → Reachable w v'

  -- However the orchestrator is called, and whatever the agents, the streams, the meter and the clock
  -- give, every run that it has in its store is one that the methods of a run can make from a new one,
  -- and was served at most two questionnaires, if that was so to begin with.
  pub Reachable-AllWithin : {w w' : World B} → AllWithin w → Reachable w w' → AllWithin w'
  Reachable-AllWithin all here = all
  Reachable-AllWithin all (then_step before step) =
      Step-AllWithin step (Reachable-AllWithin all before)
