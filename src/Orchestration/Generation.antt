-- ===== src/Orchestration/Generation.antt =====
-- `generate` and `_charge` of `application/orchestration.py`: the backend's stream goes to the log and
-- to the caller, with the run's state moved around it.
use Prim.Native.String.{count}
use code_zard.Prelude.{ℕ, ◌+◌, String, ◌||◌, Option, none, some, List, [], ◌∷◌, if◌then◌else◌}
use code_zard.Prelude.Int.{ℤ, pos_part, neg_part}
use code_zard.Prelude.Text.{same}
use code_zard.Prelude.Result.{Result, ok, err}
use code_zard.Json.{text, object, end, field}
use code_zard.Billing.Errors.{BillingError}
use code_zard.Billing.Pricing.{Usage, is_empty}
use code_zard.Billing.Ledger.{LedgerEntry}
use code_zard.Runs.{generating, delivered, failing, billed}
use code_zard.RunLog as RunLog
use code_zard.RunLog.{RunLog}
use code_zard.Proxy.{InboundRequest}
use code_zard.Orchestration.Answers.{or_else}
use code_zard.Orchestration.Prompt.{prompt_for}
use code_zard.Orchestration.Planner.{
  Outside, PlanRun, Raised, upstream, cancelled, closed_early, lifted, agent_request, document,
}
use code_zard.Orchestration.Scan.{StreamScan, fresh, feed}
use code_zard.Orchestration.Moves.{RunMeter, World, Outcome, save, fetch}

-- What happens next on the stream, for as long as it has not ended: a chunk arrives; a chunk arrives and
-- the caller closes its end of the stream while it has it; the caller's task is cancelled; the stream
-- breaks, with the exception's type and text.
pub data Arrival : Type 0 where
  chunk left : String → Arrival
  lost : Arrival
  broke : String → Arrival

pub record Stream : Type 0 where
  pub status : ℕ
  pub arrivals : List Arrival

-- How the loop of `generate` ends.
pub data Ending : Type 0 where
  whole : StreamScan → Ending
  raised : String → Ending
  gone closed : Ending

-- The chunks that the caller was given, how the loop ended, and the log after it.
abbrev pub Passed : Type 0
Passed = List String × Ending × RunLog String

abbrev pub gave : String → Passed → Passed
gave c (given, ending, log) = (c ∷ given, ending, log)

module _ (o : Outside) where
  abbrev append_log : String → String → RunLog String → RunLog String
  append_log id c log = RunLog.append count id c log

  -- The loop over the chunks.
  unfoldable pub consume : String → List Arrival → StreamScan → RunLog String → Passed
  unfolding feed
  consume id [] scan log = ([], whole scan, log)
  consume id (chunk c ∷ more) scan log =
      let log' = append_log id c log in
      elim (feed (λ line. document (o.loads line)) o.render c scan) [
        | ok scan' ↦ gave c (consume id more scan' log')
        | err e ↦ (c ∷ [], raised (o.describe e), log')
      ]
  consume id (left c ∷ more) scan log = (c ∷ [], closed, append_log id c log)
  consume id (lost ∷ more) scan log = ([], gone, log)
  consume id (broke message ∷ more) scan log = ([], raised message, log)

abbrev magnitude : ℤ → ℕ
magnitude z = pos_part z + neg_part z

module _ {B : Type 0} (o : Outside) (meter : Option (RunMeter B)) where
  abbrev pub booked : PlanRun → Result BillingError (Option LedgerEntry) → PlanRun
  booked run (err e) = run
  booked run (ok none) = run
  booked run (ok (some entry)) = billed run (magnitude entry.tokens) (o.clock 4)

  -- `_charge`
  unfoldable pub charge : PlanRun → Usage → World B → PlanRun × World B
  unfolding is_empty billed
  charge run usage w = elim meter [
    | none ↦ (run, w)
    | some m ↦
        if same run.account "" || is_empty usage
        then (run, w)
        else let (entry, billing) = m.charge run.account run.id usage w.billing in
          (booked run entry, record w { billing = billing })
  ]

  -- `self._runs.put(run.failed(…))`, and then the result; a run that may not fail would raise.
  abbrev pub put_failed : Result Raised PlanRun → Result Raised Unit → World B → Outcome B Unit
  put_failed (ok failed) result w = (result, save (o.clock 5) failed w)
  put_failed (err e) result w = (err e, w)

  abbrev pub give_up : PlanRun → String → Result Raised Unit → World B → Outcome B Unit
  give_up run message result w = put_failed (lifted (failing run message (o.clock 3))) result w

  abbrev pub put_delivered : Result Raised PlanRun → Usage → World B → Outcome B Unit
  put_delivered (ok done) usage w =
      let (run, w') = charge done usage w in (ok tt, save (o.clock 5) run w')
  put_delivered (err e) usage w = (err e, w)

  -- What follows the loop: its `except` clauses, and the end of `generate`. The log is ended apart.
  unfoldable pub settle : PlanRun → Ending → World B → Outcome B Unit
  unfolding charge failing delivered save
  settle run (raised message) w = give_up run message (err (upstream message)) w
  settle run gone w = give_up run "the connection was lost during generation" (err cancelled) w
  settle run closed w = (err closed_early, w)
  settle run (whole scan) w =
      if same scan.artifact ""
      then give_up run "the agent produced no artifact" (ok tt) w
      else put_delivered (lifted (delivered run scan.artifact (o.clock 3))) scan.usage w

  -- The loop has ended: `finally` ends the log, however it ended.
  abbrev pub wind_up : PlanRun → Passed → World B → List String × Outcome B Unit
  wind_up run (given, ending, log) w =
      (given, settle run ending (record w { log = RunLog.end run.id log }))

  abbrev pub flow : PlanRun → Result String Stream → World B → List String × Outcome B Unit
  flow run (err e) w = ([], (err (upstream e), w))
  flow run (ok s) w = wind_up run (consume o run.id s.arrivals fresh (RunLog.start run.id w.log)) w

  abbrev pub generation_request : PlanRun → InboundRequest
  generation_request run = agent_request "POST" "api/v1/chat" o.settings.backend_token (
      o.dumps (
        object (
          field "question" (text (prompt_for o.render (or_else run.plan end)))
            (field "locale" (text o.settings.locale) end))))

  module _ (stream : String → InboundRequest → Result String Stream) where
    abbrev pub launched : Result Raised PlanRun → World B → List String × Outcome B Unit
    launched (err e) w = ([], (err e, w))
    launched (ok run) w =
        flow run (stream o.settings.backend_service (generation_request run))
          (save (o.clock 2) run w)

    abbrev pub launch : Outcome B PlanRun → List String × Outcome B Unit
    launch (err e, w) = ([], (err e, w))
    launch (ok stored, w) = launched (lifted (generating stored (o.clock 1))) w

    -- `generate`: the chunks that the caller was given, and the outcome.
    unfoldable pub generate : String → World B → List String × Outcome B Unit
    unfolding fetch save generating consume settle prompt_for
    generate id w = launch (fetch (o.clock 0) id w)
