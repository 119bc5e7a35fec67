-- ===== src/Orchestration/Answers.antt =====
-- What an agent's answer says: `_list`, `_items`, `_questions` and `_is_plan` of
-- `application/orchestration.py`.
use code_zard.Prelude.{
  String, Bool, true, false, not, ◌&&◌, ◌||◌, Option, none, some, List, [], ◌∷◌,
}
use code_zard.Prelude.Text.{same, strip}
use code_zard.Json.{Json, object, Items, nil, item, Fields, get, as_object, as_list, str_or_empty}

-- The values that are dictionaries.
unfoldable objects : List Json → List Fields
objects [] = []
objects (object fs ∷ vs) = fs ∷ objects vs
objects (_ ∷ vs) = objects vs

-- `_items`
unfoldable pub items : Json → List Fields
unfolding objects as_list
items v = objects (as_list v)

abbrev pub is_empty_list : {A : Type 0} → List A → Bool
is_empty_list [] = true
is_empty_list (_ ∷ _) = false

unfoldable pub from_objects : List Fields → Items
from_objects [] = nil
from_objects (fs ∷ more) = item (object fs) (from_objects more)

abbrev pub or_else : {A : Type 0} → Option A → A → A
or_else none a = a
or_else (some b) a = b

module _ (render : Json → String) where
  -- `str(v or "").strip()`, and whether it is anything.
  abbrev says : Json → Bool
  says v = not (same (strip (str_or_empty render v)) "")

  unfoldable asking : List Fields → List Fields
  unfolding get str_or_empty strip
  asking [] = []
  asking (q ∷ qs) =
      let rest = asking qs in elim (says (get "text" q)) [ true ↦ q ∷ rest | false ↦ rest ]

  -- `_questions` of a dictionary; of anything else there are none.
  unfoldable pub questions_in : Fields → List Fields
  unfolding asking items get
  questions_in answer =
      let source = or_else (as_object (get "questionnaire" answer)) answer in
      asking (items (get "questions" source))

  abbrev pub questions : Json → List Fields
  questions (object answer) = questions_in answer
  questions _ = []

  -- `_is_plan` of a dictionary.
  unfoldable pub is_plan : Fields → Bool
  unfolding items get str_or_empty strip
  is_plan answer =
      says (get "purpose" answer)
      && (not (is_empty_list (items (get "entities" answer)))
          || not (is_empty_list (items (get "roles" answer)))
          || not (is_empty_list (items (get "flows" answer)))
          || not (is_empty_list (items (get "constraints" answer))))
