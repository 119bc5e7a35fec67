-- ===== src/Orchestration/Project.antt =====
-- The project, once it exists: `open_console`, `open_download`, `_artifact_of` and `_open` of
-- `application/orchestration.py`.
use Prim.Native.String.{[] as empty_text, ◌∷◌ as ◌then_char◌}
use code_zard.Prelude.{
  ℕ, zero, suc, ◌==◌, String, Option, none, some, List, [], ◌∷◌, ltb, if◌then◌else◌,
}
use code_zard.Prelude.Int.{pos}
use code_zard.Prelude.Text.{same, concat, spell}
use code_zard.Prelude.Result.{Result, ok, err, ◌>>=◌}
use code_zard.Json.{Json, text, object, end, field, get, truthy, str_or_empty}
use code_zard.Proxy.{InboundRequest}
use code_zard.Orchestration.Planner.{
  Outside, PlanRun, Raised, unusable, upstream, cancelled, console_disabled, no_project,
  project_gone, agent_request, document,
}
use code_zard.Orchestration.Moves.{World, Outcome, fetch}
use code_zard.Orchestration.Generation.{Arrival, chunk, left, lost, broke, Stream}

-- `b"".join([chunk async for chunk in stream.chunks])`
unfoldable pub collected : List Arrival → Result Raised String
collected [] = ok ""
collected (chunk c ∷ more) = collected more >>= λ rest. ok (concat c rest)
collected (left c ∷ more) = collected more >>= λ rest. ok (concat c rest)
collected (lost ∷ more) = err cancelled
collected (broke message ∷ more) = err (upstream message)

-- `body[:n]`
abbrev take_text : ℕ → String → String
take_text zero s = empty_text
take_text (suc n) empty_text = empty_text
take_text (suc n) (c then_char s) = c then_char take_text n s

module _ (o : Outside) (stream : String → InboundRequest → Result String Stream) where
  -- `v or {}`
  abbrev or_object : Json → Json
  or_object v = if truthy v then v else object end

  -- `str(….get("message") or "")`, and the empty text where there is no such method.
  abbrev message_in : Json → String
  message_in (object e) = str_or_empty o.render (get "message" e)
  message_in _ = ""

  abbrev error_in : Json → String
  error_in (object fs) = message_in (or_object (get "error" fs))
  error_in _ = ""

  abbrev detail_in : Option Json → String
  detail_in none = ""
  detail_in (some v) = error_in (or_object v)

  -- What a refusal of the agent is turned into.
  unfoldable pub refused : ℕ → String → Raised
  unfolding truthy get str_or_empty spell
  refused status body =
      let detail = detail_in (document (o.loads (take_text 4_096 body))) in
      if status == 410
      then project_gone
      else unusable o.settings.backend_service
          (if same detail "" then concat "the agent answered " (spell (pos status)) else detail)

  abbrev pub checked : Result String Stream → Result Raised Stream
  checked (err e) = err (upstream e)
  checked (ok s) =
      if ltb s.status 400
      then ok s
      else (collected s.arrivals >>= λ body. err (refused s.status body))

  -- `_open`
  unfoldable pub open_stream : InboundRequest → Result Raised Stream
  unfolding refused collected
  open_stream request = checked (stream o.settings.backend_service request)

  abbrev artifact_path : String → String → String
  artifact_path artifact action = concat "api/v1/artifacts/" (concat artifact action)

  abbrev pub console_request : String → String → InboundRequest
  console_request command artifact =
      agent_request "POST" (artifact_path artifact "/exec") o.settings.backend_token
        (o.dumps (object (field "command" (text command) end)))

  abbrev pub download_request : String → InboundRequest
  download_request artifact =
      agent_request "GET" (artifact_path artifact "/download") o.settings.backend_token ""

  module _ {B : Type 0} where
    abbrev pub artifact_in : String → Outcome B PlanRun → Outcome B String
    artifact_in id (err e, w) = (err e, w)
    artifact_in id (ok run, w) =
        (if same run.artifact_id "" then err (no_project id) else ok run.artifact_id, w)

    -- `_artifact_of`
    unfoldable artifact_of : String → World B → Outcome B String
    unfolding fetch
    artifact_of id w = artifact_in id (fetch (o.clock 0) id w)

    abbrev pub opened : (String → InboundRequest) → Outcome B String → Outcome B Stream
    opened request (err e, w) = (err e, w)
    opened request (ok artifact, w) = (open_stream (request artifact), w)

    unfoldable pub open_console : String → String → World B → Outcome B Stream
    unfolding artifact_of open_stream
    open_console id command w =
        if o.settings.console
        then opened (console_request command) (artifact_of id w)
        else (err console_disabled, w)

    unfoldable pub open_download : String → World B → Outcome B Stream
    unfolding artifact_of open_stream
    open_download id w = opened download_request (artifact_of id w)
