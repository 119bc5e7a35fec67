-- ===== src/Runs/Tests.antt =====
-- The events of one run, from its idea to its project.
use code_zard.Prelude.{some, List, [], ◌∷◌, ◌≡◌, refl}
use code_zard.Runs.{
  RunEvent, plan_review, describe, propose, approve, generate, reject, revise, target,
}
use code_zard.Runs.Gate.{after, generation_needs_approval}

generation_needs_approval_example :
    (pre : List RunEvent) × (generate ∷ approve ∷ propose ∷ revise ∷ reject ∷ propose ∷ describe
        ∷ []
      ≡ generate ∷ approve ∷ pre)
    × (after pre ≡ some plan_review)
unfolding target
generation_needs_approval_example =
    generation_needs_approval
      (generate ∷ approve ∷ propose ∷ revise ∷ reject ∷ propose ∷ describe ∷ []) refl
