-- ===== src/Orchestration/Prompt.antt =====
-- `prompt_for` and `_entity` of `application/orchestration.py`: the approved plan as one question.
use code_zard.Prelude.{String, List, [], ◌∷◌, ◌++◌, map, if◌then◌else◌, ◌≡◌, refl}
use code_zard.Prelude.Text.{same, strip, concat}
use code_zard.Json.{
  Json, text, array, object, nil, item, Fields, end, field, get, as_list, str, str_or_empty,
}
use code_zard.Orchestration.Answers.{items}

abbrev header : String
header = "Generá un proyecto completo, con su estructura de archivos, README y tests."

-- `separator.join(parts)`
unfoldable joined : String → List String → String
joined separator [] = ""
joined separator (s ∷ []) = s
joined separator (s ∷ t ∷ more) = concat s (concat separator (joined separator (t ∷ more)))

-- A section of the prompt, unless it has no parts.
abbrev section : String → List String → List String
section title [] = []
section title (part ∷ parts) = concat title (joined "; " (part ∷ parts)) ∷ []

module _ (render : Json → String) where
  -- `_entity`
  unfoldable entity : Fields → String
  unfolding str_or_empty get as_list joined strip str
  entity e =
      let name = str_or_empty render (get "name" e) in
      let listed = joined ", " (map (str render) (as_list (get "fields" e))) in
      let detail =
        if same listed "" then strip (str_or_empty render (get "description" e)) else listed in
      if same detail "" then name else concat name (concat " (" (concat detail ")"))

  abbrev flow : Fields → String
  flow f =
      concat (str render (get "name" f))
        (concat ": " (joined " → " (map (str render) (as_list (get "steps" f)))))

  unfoldable sections : Fields → List String
  unfolding entity items joined get str str_or_empty as_list
  sections plan =
      section "Entidades: " (map entity (items (get "entities" plan)))
      ++ (section "Roles: "
            (map (λ r. str_or_empty render (get "name" r)) (items (get "roles" plan)))
          ++ (section "Flujos: " (map flow (items (get "flows" plan)))
              ++ (section "Restricciones: " (
                    map (λ c. str_or_empty render (get "statement" c))
                      (items (get "constraints" plan)))
                  ++ section
                      "Decisiones que el plan deja abiertas (resolvelas y dejá dicho qué asumiste): "
                      (map (str render) (as_list (get "openQuestions" plan))))))

  abbrev spaced : List String → List String
  spaced [] = []
  spaced (s ∷ more) = "" ∷ s ∷ more

  -- `prompt_for`
  unfoldable pub prompt_for : Fields → String
  unfolding sections joined get str_or_empty
  prompt_for plan =
      joined "\n" (header ∷ "" ∷ str_or_empty render (get "purpose" plan) ∷ spaced (sections plan))

abbrev bikes : Fields
bikes =
    field "purpose" (text "Bikes")
      (field "entities" (array (item (object (field "name" (text "Bike") end)) nil)) end)

-- A plan with one entity, of which nothing else is said.
prompt_for-bikes :
    prompt_for (λ v. "") bikes
    ≡ "Generá un proyecto completo, con su estructura de archivos, README y tests.\n\nBikes\n\nEntidades: Bike"
unfolding prompt_for
prompt_for-bikes = refl
