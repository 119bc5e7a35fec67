-- ===== src/Orchestration/Tests.antt =====
-- An idea that the PM asks about, plans, and that is generated, with concrete agents; and the theorems
-- about the orchestrator at such inputs.
use code_zard.Prelude.{
  ℕ, ◌+◌, ◌≤◌, String, Bool, true, false, Option, none, some, List, [], ◌∷◌, ◌≡◌, refl, arith,
  if◌then◌else◌, Each,
}
use code_zard.Prelude.Int.{ℤ, pos}
use code_zard.Prelude.Text.{same}
use code_zard.Prelude.Result.{Result, ok, err}
use code_zard.Json.{Json, text, integer, array, object, nil, item, Fields, end, field}
use code_zard.Billing.Agent.{ReadError}
use code_zard.Runs.{Run, RunState, RunError, RunEvent, illegal_transition, generate}
use code_zard.RunStore as RunStore
use code_zard.RunStore.{RunStore}
use code_zard.RunLog as RunLog
use code_zard.Proxy.{InboundRequest}
use code_zard.Orchestration.Planner.{
  Outside, PlanRun, Response, upstream, attribute_error, document, ask_pm,
}
use code_zard.Orchestration.Moves as Moves
use code_zard.Orchestration.Moves.{RunMeter, World, Outcome, fetch}
use code_zard.Orchestration.Scan.{fresh, cut}
use code_zard.Orchestration.Scan.Chunks.{feed_all, read_whole, feed_all-eq-read_whole}
use code_zard.Orchestration.Generation as Generation
use code_zard.Orchestration.Generation.{Arrival, chunk, left, lost, broke, Stream}
use code_zard.Orchestration.Refinement.Calls.{AllWithin}
use code_zard.Orchestration.Refinement.{
  start_step, answer_step, approve_step, here, then_step, Reachable-AllWithin,
}
use code_zard.Orchestration.Settles.{Settled}
use code_zard.Orchestration.Delivery.{running, generate_settles, generate_unopened}
use code_zard.Orchestration.Charges.{Billed, generate-Billed, Reaches, project-Reaches}
use code_zard.Orchestration.Project as Project

abbrev ask_answer : Json
ask_answer = object (
    field "summary" (text "A shop") (
      field "questionnaire"
        (object
          (field "questions" (array (item (object (field "text" (text "Who?") end)) nil)) end))
        end))

abbrev plan_fields : Fields
plan_fields =
    field "purpose" (text "Sell bread")
      (field "entities" (array (item (object (field "name" (text "Loaf") end)) nil)) end)

abbrev done_event : Json
done_event = object (
    field "type" (text "done") (
      field "project" (object (field "id" (text "p1") end)) (
        field "cost" (object (field "usage" (object (field "tokens" (integer (pos 900)) end)) end))
          end)))

abbrev loads : String → Result String Json
loads s =
    if same s "asks"
    then ok ask_answer
    else if same s "plans"
    then ok (object plan_fields)
    else if same s "done"
    then ok done_event
    else if same s "fails"
    then ok (object (field "error" (text "out of tokens") end))
    else err "Expecting value"

abbrev pm : String → InboundRequest → Result String Response
pm service r =
    if same r.path "api/v1/analyze"
    then ok (record { status_code = 200; body = "asks" })
    else if same r.path "api/v1/plan"
    then ok (record { status_code = 200; body = "plans" })
    else ok (record { status_code = 500; body = "fails" })

abbrev outside : Outside
outside = record {
  settings = record {
    pm_service = "pm";
    backend_service = "backend";
    pm_token = "";
    backend_token = "secret";
    locale = "es";
    console = true;
  };
  loads = loads;
  dumps = λ v. "payload";
  render = λ v. "";
  clock = λ n. 10 + n;
  new_id = "r1";
  describe = λ e. "OverflowError: ";
  forward = pm;
}

-- A meter that counts its charges.
abbrev counting : RunMeter ℕ
counting = record {
  authorize =
      λ account n. (ok (record { account = account; granted = pos 1; purchased = pos 0 }), n);
  charge = λ account run_id usage n. (ok none, n + 1);
}

abbrev empty_world : World ℕ
empty_world = record {
  runs = record { runs = []; ttl = 3_600; max = 8 };
  log = record { logs = []; next_event = 0; fired = []; max_bytes = 65_536; max_runs = 8 };
  billing = 0;
}

abbrev approved_run : PlanRun
approved_run = record {
  id = "r1";
  idea = "a shop for bread";
  state = RunState.plan_approved;
  rounds = 1;
  answers = [];
  plan = some plan_fields;
  summary = "A shop";
  questionnaire = none;
  artifact_id = "";
  error = "";
  account = "acme";
  charged = 0;
  created_at = 5;
  updated_at = 9;
}

abbrev approved_world : World ℕ
approved_world = record empty_world {
  runs = record { runs = ("r1", approved_run) ∷ []; ttl = 3_600; max = 8 };
}

abbrev backend : Stream
backend = record { status = 200; arrivals = chunk "data: do" ∷ chunk "ne\n" ∷ [] }

abbrev served : String → InboundRequest → Result String Stream
served service r = ok backend

abbrev generated : List String × Outcome ℕ Unit
generated = Generation.generate outside (some counting) served "r1" approved_world

-- The stream is passed on, the run has its project, and one charge was made.
generated_test :
    (generated.0 ≡ "data: do" ∷ ("ne\n" ∷ []))
    × (generated.1.1.runs.runs
        ≡ (
          "r1",
          record approved_run { state = RunState.zip_ready; artifact_id = "p1"; updated_at = 13 },
        )
          ∷ [])
    × (generated.1.1.billing ≡ 1)
unfolding Generation.generate RunStore.get code_zard.Runs.target code_zard.Billing.Agent.from_agent
    RunStore.put code_zard.Prelude.Int.max_ℤ
generated_test = (refl, refl, refl)

-- An error of the PM that is no dictionary raises what nothing catches.
ask_pm_error : ask_pm outside "revise" end ≡ err attribute_error
unfolding ask_pm
ask_pm_error = refl

feed_all-eq-read_whole_example :
    feed_all (λ s. document (loads s)) (λ v. "") ("data: do" ∷ "ne\nda" ∷ []) fresh
    ≡ read_whole (λ s. document (loads s)) (λ v. "") "data: done\nda" fresh
unfolding cut
feed_all-eq-read_whole_example =
    feed_all-eq-read_whole (λ s. document (loads s)) (λ v. "") ("data: do" ∷ "ne\nda" ∷ [])
      ((omega arith, tt), omega arith)

abbrev started : World ℕ
started = (Moves.start outside (some counting) "a shop for bread" "acme" empty_world).1

Reachable-AllWithin_example :
    AllWithin (Moves.approve outside "r1" (Moves.answer outside "r1" [] started).1).1
Reachable-AllWithin_example = Reachable-AllWithin {w = empty_world} tt (
    then_step
      (then_step
        (then_step here (start_step outside (some counting) "a shop for bread" "acme" empty_world))
        (answer_step outside "r1" [] started))
      (approve_step outside "r1" (Moves.answer outside "r1" [] started).1))

generate_settles_example :
    (final : PlanRun) × ((RunStore.get 20 "r1" generated.1.1.runs).0 ≡ some final) × Settled final
unfolding fetch RunStore.get
generate_settles_example =
    generate_settles outside (some counting) served "r1" approved_world approved_world approved_run
      refl refl backend 20 (λ r. refl) (tt, (tt, tt)) (omega arith) (omega arith) (omega arith)

abbrev shut : String → InboundRequest → Result String Stream
shut service r = err "no instance"

generate_unopened_example :
    let (r, after) = (Generation.generate outside (some counting) shut "r1" approved_world).1 in
    (r ≡ err (upstream "no instance"))
    × ((RunStore.get 20 "r1" after.runs).0 ≡ some (running outside (some counting) approved_run))
unfolding fetch RunStore.get
generate_unopened_example =
    generate_unopened outside (some counting) shut "r1" approved_world approved_world approved_run
      refl refl "no instance" 20 (λ r. refl) (omega arith) (omega arith)

generate-Billed_example :
    let ending =
      (Generation.consume outside "r1" backend.arrivals fresh
        (RunLog.start "r1" approved_world.log)).1 in
    Billed outside (some counting) approved_run ending approved_world generated.1.1
unfolding fetch RunStore.get
generate-Billed_example =
    generate-Billed outside (some counting) served "r1" approved_world approved_world approved_run
      backend refl refl (λ r. refl)

project-Reaches_example :
    Reaches outside served
      (Project.download_request outside served)
      (fetch 10 "r1" generated.1.1)
      (Project.open_download outside served "r1" generated.1.1)
    × Reaches outside served
        (Project.console_request outside served "ls")
        (fetch 10 "r1" generated.1.1)
        (Project.open_console outside served "r1" "ls" generated.1.1)
project-Reaches_example = project-Reaches outside served "r1" "ls" generated.1.1
