-- ===== src/Runs.antt =====
-- src/gateway/domain/runs.py: a run, carried from an idea to a project. The documents that the
-- agents write (a plan, a questionnaire) are values of any type `D`; instants are numbers.
pub mod Gate
pub mod Plans
mod Tests
use Prim.Native.String.{count}
use code_zard.Prelude.{
  ℕ, ◌+◌, ◌-◌, String, Bool, true, false, Option, none, some, List, [], ◌∷◌, if◌then◌else◌, ltb,
}
use code_zard.Prelude.Text.{same, strip}
use code_zard.Prelude.Result.{Result, ok, err}

abbrev pub max_rounds : ℕ
max_rounds = 2

abbrev max_idea_chars : ℕ
max_idea_chars = 4_000

pub data RunState : Type 0 where
  idea pm_analysis questionnaire plan_review plan_rejected : RunState
  pm_revision plan_approved backend_generation zip_ready failed : RunState

pub data RunEvent : Type 0 where
  describe ask propose reject revise approve generate deliver fail reset : RunEvent

-- `TRANSITIONS`
unfoldable transitions : RunState → RunEvent → Option RunState
transitions idea describe = some pm_analysis
transitions pm_analysis ask = some questionnaire
transitions pm_analysis propose = some plan_review
transitions questionnaire describe = some pm_analysis
transitions questionnaire ask = some questionnaire
transitions questionnaire propose = some plan_review
transitions plan_review reject = some plan_rejected
transitions plan_review approve = some plan_approved
transitions plan_rejected revise = some pm_revision
transitions pm_revision propose = some plan_review
transitions plan_approved generate = some backend_generation
transitions backend_generation deliver = some zip_ready
transitions zip_ready reset = some idea
transitions failed reset = some idea
transitions _ _ = none

-- `FAILABLE`: the states of the table but the two ends.
unfoldable failable : RunState → Bool
failable zip_ready = false
failable failed = false
failable _ = true

-- Where an event leads: `may` tells whether there is such a state, `_moved` goes there.
unfoldable pub target : RunState → RunEvent → Option RunState
unfolding transitions failable
target s fail = if failable s then some failed else none
target s e = transitions s e

pub record Answer : Type 0 where
  pub question_id : String
  pub value : String

pub record Run (D : Type 0) : Type 0 where
  pub id : String
  pub idea : String
  pub state : RunState
  pub rounds : ℕ
  pub answers : List Answer
  pub plan : Option D
  pub summary : String
  pub questionnaire : Option D
  pub artifact_id : String
  pub error : String
  pub account : String
  pub charged : ℕ
  pub created_at : ℕ
  pub updated_at : ℕ

-- The `ValueError`s of `start`, and `IllegalTransitionError`.
pub data RunError : Type 0 where
  no_idea idea_too_long : RunError
  illegal_transition : RunState → RunEvent → RunError

abbrev is_some : Option RunState → Bool
is_some none = false
is_some (some s) = true

-- `merged[answer.question_id] = answer`: an answer to a question that is there takes its place.
unfoldable pub merge_answer : List Answer → Answer → List Answer
merge_answer [] a = a ∷ []
merge_answer (b ∷ bs) a = if same b.question_id a.question_id then a ∷ bs else b ∷ merge_answer bs a

unfoldable pub merge_answers : List Answer → List Answer → List Answer
unfolding merge_answer
merge_answers merged [] = merged
merge_answers merged (a ∷ more) = merge_answers (merge_answer merged a) more

module _ {D : Type 0} where
  -- `Run.start`; the id is the caller's random token.
  unfoldable pub start : String → String → String → ℕ → Result RunError (Run D)
  start id text account now =
      let trimmed = strip text in
      if same trimmed ""
      then err no_idea
      else if ltb max_idea_chars (count trimmed)
      then err idea_too_long
      else ok (record {
        id = id;
        idea = trimmed;
        state = RunState.idea;
        rounds = 0;
        answers = [];
        plan = none;
        summary = "";
        questionnaire = none;
        artifact_id = "";
        error = "";
        account = account;
        charged = 0;
        created_at = now;
        updated_at = now;
      })

  unfoldable pub billed : Run D → ℕ → ℕ → Run D
  billed r tokens now = record r { charged = tokens; updated_at = now }

  unfoldable pub may : Run D → RunEvent → Bool
  unfolding target
  may r e = is_some (target r.state e)

  abbrev move_to : Run D → RunEvent → Option RunState → ℕ → Result RunError (Run D)
  move_to r e none now = err (illegal_transition r.state e)
  move_to r e (some s) now = ok (record r { state = s; updated_at = now })

  -- `_moved`; a method applies its changes of the other fields to what comes back.
  unfoldable moved : Run D → RunEvent → ℕ → Result RunError (Run D)
  moved r e now = move_to r e (target r.state e) now

  abbrev changed : Result RunError (Run D) → (Run D → Run D) → Result RunError (Run D)
  changed (err e) f = err e
  changed (ok r) f = ok (f r)

  unfoldable pub describing : Run D → ℕ → Result RunError (Run D)
  unfolding moved
  describing r now = moved r describe now

  -- The only place `rounds` grows.
  unfoldable pub asked : Run D → String → D → ℕ → Result RunError (Run D)
  unfolding moved
  asked r summary questions now = changed (moved r ask now) λ r'. record r' {
    summary = if same summary "" then r.summary else summary;
    questionnaire = some questions;
    rounds = r.rounds + 1;
  }

  unfoldable pub proposed : Run D → D → ℕ → Result RunError (Run D)
  unfolding moved
  proposed r plan now =
      changed (moved r propose now) λ r'. record r' { plan = some plan; questionnaire = none }

  unfoldable pub rejected : Run D → ℕ → Result RunError (Run D)
  unfolding moved
  rejected r now = moved r reject now

  unfoldable pub revising : Run D → ℕ → Result RunError (Run D)
  unfolding moved
  revising r now = moved r revise now

  unfoldable pub approved : Run D → ℕ → Result RunError (Run D)
  unfolding moved
  approved r now = moved r approve now

  unfoldable pub generating : Run D → ℕ → Result RunError (Run D)
  unfolding moved
  generating r now = moved r generate now

  unfoldable pub delivered : Run D → String → ℕ → Result RunError (Run D)
  unfolding moved
  delivered r artifact now =
      changed (moved r deliver now) λ r'. record r' { artifact_id = artifact }

  -- `Run.failed`
  unfoldable pub failing : Run D → String → ℕ → Result RunError (Run D)
  unfolding moved
  failing r message now = changed (moved r fail now) λ r'. record r' { error = message }

  unfoldable pub rounds_left : Run D → ℕ
  rounds_left r = max_rounds - r.rounds

  unfoldable pub may_generate : Run D → Bool
  unfolding may
  may_generate r = may r generate

  unfoldable pub answering : Run D → List Answer → ℕ → Run D
  unfolding merge_answers
  answering r answers now = record r {
    answers = merge_answers (merge_answers [] r.answers) answers;
    updated_at = now;
  }
