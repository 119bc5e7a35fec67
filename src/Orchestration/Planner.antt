-- ===== src/Orchestration/Planner.antt =====
-- The calls of the PM, and the planning that they carry: `_ask_pm`, `_plan`, and the parts of `start`,
-- `answer` and `reject` that touch no store (`application/orchestration.py`).
use code_zard.Prelude.{
  ℕ, ◌+◌, ◌==◌, String, Bool, Option, none, some, List, [], ◌∷◌, leb, if◌then◌else◌,
}
use code_zard.Prelude.Int.{pos}
use code_zard.Prelude.Text.{same, concat, spell}
use code_zard.Prelude.Result.{Result, ok, err, ◌>>=◌}
use code_zard.Json.{
  Json, null, text, integer, array, object, Items, nil, item, Fields, end, field, get, truthy, str,
  str_or_empty,
}
use code_zard.Runs.{
  Answer, Run, RunError, max_rounds, start, describing, asked, proposed, rejected, revising,
  rounds_left, answering,
}
use code_zard.Resilience.Upstream.{Headers}
use code_zard.Proxy.{InboundRequest}
use code_zard.Billing.Errors.{BillingError}
use code_zard.Billing.Agent.{ReadError}
use code_zard.Orchestration.Answers.{questions, questions_in, is_plan, from_objects, is_empty_list}

-- `OrchestrationSettings`
pub record Settings : Type 0 where
  pub pm_service : String
  pub backend_service : String
  pub pm_token : String
  pub backend_token : String
  pub locale : String
  pub console : Bool

pub record Response : Type 0 where
  pub status_code : ℕ
  pub body : String

-- What a move raises.
pub data Raised : Type 0 where
  unpaid : BillingError → Raised
  run_error : RunError → Raised
  run_not_found : String → Raised
  no_reason : Raised
  -- `OrchestrationError`: an agent answered, and what it said cannot be used.
  unusable : String → String → Raised
  -- What a call of the proxy raises.
  upstream : String → Raised
  -- `AttributeError`, which no clause of the code catches.
  attribute_error : Raised
  -- The ends of a stream that are no error of the agent.
  cancelled closed_early : Raised
  console_disabled project_gone : Raised
  no_project : String → Raised

-- The proxy and the outside: the calls of `ProxyService`, the JSON library, the clock and the random
-- token of a new run. A failure is known by its text, and a reading of the clock is handed its number.
pub record Outside : Type 0 where
  pub settings : Settings
  pub loads : String → Result String Json
  pub dumps : Json → String
  pub render : Json → String
  pub clock : ℕ → ℕ
  pub new_id : String
  pub describe : ReadError → String
  pub forward : String → InboundRequest → Result String Response

abbrev pub lifted : {A : Type 0} → Result RunError A → Result Raised A
lifted (ok a) = ok a
lifted (err e) = err (run_error e)

abbrev pub document : Result String Json → Option Json
document (ok v) = some v
document (err e) = none

-- `_agent_headers`
abbrev agent_headers : String → Headers
agent_headers token =
    ("content-type", "application/json")
    ∷ (if same token "" then [] else ("x-mirag-token", token) ∷ [])

-- `InboundRequest(method, path, headers, body=body)`, with the defaults of the other fields.
abbrev pub agent_request : String → String → String → String → InboundRequest
agent_request method path token body = record {
  method = method;
  path = path;
  headers = agent_headers token;
  query_params = [];
  body = body;
  client_host = none;
  scheme = "http";
  host = none;
  request_id = none;
}

-- The run of a plan or a questionnaire is a run over dictionaries.
abbrev pub PlanRun : Type 0
PlanRun = Run Fields

-- `{**payload, "locale": locale}`
unfoldable with_locale : String → Fields → Fields
with_locale locale end = field "locale" (text locale) end
with_locale locale (field key v fs) = field key v (with_locale locale fs)

abbrev plan_json : Option Fields → Json
plan_json none = null
plan_json (some plan) = object plan

unfoldable pub answers_json : List Answer → Items
answers_json [] = nil
answers_json (a ∷ more) =
    item (object (field "questionId" (text a.question_id) (field "value" (text a.value) end)))
      (answers_json more)

unfoldable pub questionnaire : Json → List Fields → Fields
unfolding from_objects
questionnaire reason qs = field "reason" reason (field "questions" (array (from_objects qs)) end)

-- What the PM is asked for a plan, and for another version of one.
abbrev pub plan_payload : PlanRun → Fields
plan_payload run = field "idea" (text run.idea) (
    field "answers" (array (answers_json run.answers))
      (field "round" (integer (pos run.rounds)) (field "maxRounds" (integer (pos max_rounds)) end)))

abbrev pub revise_payload : PlanRun → String → Fields
revise_payload run feedback =
    field "plan" (plan_json run.plan) (field "feedback" (text feedback) end)

module _ (o : Outside) where
  abbrev unusable_pm : String → Raised
  unusable_pm detail = unusable o.settings.pm_service detail

  -- `str(detail or f"{operation} answered {status}")`
  abbrev refusal : String → ℕ → Json → Raised
  refusal operation status detail = unusable_pm (
      if truthy detail
      then str o.render detail
      else concat operation (concat " answered " (spell (pos status))))

  -- `(answer.get("error") or {}).get("message")`
  abbrev message_of : Json → Result Raised Json
  message_of (object e) = ok (get "message" e)
  message_of e = if truthy e then err attribute_error else ok null

  -- What `_ask_pm` makes of a body that was read.
  abbrev judged : String → ℕ → Json → Result Raised Fields
  judged operation status (object answer) =
      if leb 400 status
      then (message_of (get "error" answer) >>= λ detail. err (refusal operation status detail))
      else ok answer
  judged operation status _ = err (refusal operation status (text ""))

  abbrev parsed : String → ℕ → Result String Json → Result Raised Fields
  parsed operation status (err e) =
      err (unusable_pm (concat operation (concat " did not answer JSON: " e)))
  parsed operation status (ok answer) = judged operation status answer

  abbrev answered : String → Result String Response → Result Raised Fields
  answered operation (err e) = err (upstream e)
  answered operation (ok r) =
      parsed operation r.status_code (o.loads (if same r.body "" then "{}" else r.body))

  -- `_ask_pm`
  unfoldable pub ask_pm : String → Fields → Result Raised Fields
  unfolding with_locale truthy str get spell
  ask_pm operation payload = answered operation (
      o.forward o.settings.pm_service (
        agent_request "POST" (concat "api/v1/" operation) o.settings.pm_token
          (o.dumps (object (with_locale o.settings.locale payload)))))

  -- What `_plan` makes of the answer.
  unfoldable pub judge_plan : PlanRun → Fields → ℕ → Result Raised PlanRun
  unfolding questions_in is_plan asked proposed rounds_left questionnaire get str_or_empty spell
  judge_plan run answer now =
      let qs = questions_in o.render answer in
      if is_empty_list qs
      then if is_plan o.render answer
        then lifted (proposed run answer now)
        else err (unusable_pm "the PM returned neither a plan nor questions")
      else if rounds_left run == 0
      then err (
          unusable_pm (
            concat "the PM asked for round "
              (concat (spell (pos (run.rounds + 1))) (concat " of " (spell (pos max_rounds))))))
      else lifted (
          asked run run.summary
            (questionnaire (text (str_or_empty o.render (get "reason" answer))) qs) now)

  -- `_plan`
  unfoldable pub plan : PlanRun → ℕ → Result Raised PlanRun
  unfolding ask_pm judge_plan answers_json
  plan run now = ask_pm "plan" (plan_payload run) >>= λ answer. judge_plan run answer now

  -- `reason = questionnaire.get("reason") if isinstance(questionnaire, Mapping) else ""`
  abbrev reason_of : Json → Json
  reason_of (object q) = get "reason" q
  reason_of _ = text ""

  -- The first answer of the PM: a questionnaire, or no questions and a plan.
  unfoldable pub analyzed : PlanRun → Fields → Result Raised PlanRun
  unfolding questions_in asked questionnaire plan get str_or_empty
  analyzed run answer =
      let summary = str_or_empty o.render (get "summary" answer) in
      let qs = questions o.render (get "questionnaire" answer) in
      if is_empty_list qs
      then (lifted (asked run summary (questionnaire (text "") []) (o.clock 2)) >>= λ unasked.
          plan unasked (o.clock 3))
      else lifted (
          asked run summary
            (questionnaire (text (str_or_empty o.render (reason_of (get "questionnaire" answer))))
              qs)
            (o.clock 2))

  -- `start`, between the meter and the store.
  unfoldable pub begin : String → String → Result Raised PlanRun
  unfolding start describing ask_pm analyzed
  begin idea account = do
    new ← lifted (start o.new_id idea account (o.clock 0))
    run ← lifted (describing new (o.clock 1))
    answer ← ask_pm "analyze" (field "idea" (text run.idea) end)
    analyzed run answer

  -- `answer`, between the two calls of the store.
  unfoldable pub replan : List Answer → PlanRun → Result Raised PlanRun
  unfolding answering plan
  replan answers run = plan (answering run answers (o.clock 1)) (o.clock 2)

  abbrev pub revised : PlanRun → Fields → Result Raised PlanRun
  revised run answer =
      if is_plan o.render answer
      then lifted (proposed run answer (o.clock 3))
      else err (unusable_pm "the PM did not return a revised plan")

  -- `reject`, between the two calls of the store.
  unfoldable pub revise : String → PlanRun → Result Raised PlanRun
  unfolding rejected revising ask_pm is_plan proposed
  revise feedback stored = do
    refused ← lifted (rejected stored (o.clock 1))
    run ← lifted (revising refused (o.clock 2))
    answer ← ask_pm "revise" (revise_payload run feedback)
    revised run answer
