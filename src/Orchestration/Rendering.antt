-- ===== src/Orchestration/Rendering.antt =====
-- `Run.as_json` of src/gateway/domain/runs.py.
use code_zard.Prelude.{String, Option, none, some, List, [], ◌∷◌}
use code_zard.Prelude.Int.{pos}
use code_zard.Json.{Json, null, integer, text, array, object, Items, nil, item, Fields, end, field}
use code_zard.Runs.{RunState, Answer, max_rounds}
use code_zard.Orchestration.Planner.{PlanRun}

abbrev state_text : RunState → String
state_text RunState.idea = "IDEA"
state_text RunState.pm_analysis = "PM_ANALYSIS"
state_text RunState.questionnaire = "QUESTIONNAIRE"
state_text RunState.plan_review = "PLAN_REVIEW"
state_text RunState.plan_rejected = "PLAN_REJECTED"
state_text RunState.pm_revision = "PM_REVISION"
state_text RunState.plan_approved = "PLAN_APPROVED"
state_text RunState.backend_generation = "BACKEND_GENERATION"
state_text RunState.zip_ready = "ZIP_READY"
state_text RunState.failed = "FAILED"

abbrev object_or_null : Option Fields → Json
object_or_null none = null
object_or_null (some fs) = object fs

abbrev given_answers : List Answer → Items
given_answers [] = nil
given_answers (a ∷ more) =
    item (object (field "questionId" (text a.question_id) (field "value" (text a.value) end)))
      (given_answers more)

unfoldable pub run_json : PlanRun → Json
run_json r = object (
    field "runId" (text r.id) (
      field "state" (text (state_text r.state)) (
        field "idea" (text r.idea) (
          field "summary" (text r.summary) (
            field "questionnaire" (object_or_null r.questionnaire) (
              field "plan" (object_or_null r.plan) (
                field "answers" (array (given_answers r.answers)) (
                  field "round" (integer (pos r.rounds)) (
                    field "maxRounds" (integer (pos max_rounds)) (
                      field "artifactId" (text r.artifact_id) (
                        field "error" (text r.error) (
                          field "account" (text r.account)
                            (field "charged" (integer (pos r.charged)) end)))))))))))))
