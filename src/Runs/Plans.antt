-- ===== src/Runs/Plans.antt =====
-- Invariants of the runs that the methods of `domain/runs.py` can make, and the merge of answers.
use code_zard.Prelude.{
  ℕ, String, Option, none, some, List, [], ◌∷◌, ◌≡◌, ◌≢◌, Bool, true, false, refl, arith,
  if◌then◌else◌, Option-cases, inl, inr, ap, ◌∙◌,
}
use code_zard.Prelude.Text.{same, same_iff}
use code_zard.Prelude.Result.{ok}
use code_zard.Runs.{
  RunState, plan_review, plan_rejected, pm_revision, plan_approved, backend_generation, zip_ready,
  target, Answer, Run, start, billed, may_generate, merge_answer, merge_answers, answering,
}
use code_zard.Runs.Gate.{
  Move, describing_move, rejected_move, revising_move, approved_move, generating_move, asked_move,
  proposed_move, delivered_move, failed_move, make,
}

-- The states in which a plan has been written.
abbrev planned : RunState → Bool
planned plan_review = true
planned plan_rejected = true
planned pm_revision = true
planned plan_approved = true
planned backend_generation = true
planned zip_ready = true
planned _ = false

module _ {D : Type 0} where
  -- From the first review on there is a plan.
  pub record IsPlanned (r : Run D) : Type 0 where
    has_plan : planned r.state ≡ true → r.plan ≢ none

  proposed_plan :
      (r r' : Run D) (d : D) (now : ℕ) → make r (proposed_move d) now ≡ ok r' → r'.plan ≡ some d
  unfolding make
  proposed_plan r r' d now h = ground arith

  other_plan :
      (r r' : Run D) (m : Move D) (now : ℕ)
      → make r m now ≡ ok r'
      → ((d : D) → m ≢ proposed_move d)
      → (r'.plan ≡ r.plan) × (planned r'.state ≡ true → planned r.state ≡ true)
  unfolding make target
  other_plan r r' describing_move now h n = ground arith
  other_plan r r' rejected_move now h n = ground arith
  other_plan r r' revising_move now h n = ground arith
  other_plan r r' approved_move now h n = ground arith
  other_plan r r' generating_move now h n = ground arith
  other_plan r r' (asked_move s d) now h n = ground arith
  other_plan r r' (proposed_move d) now h n = absurd (n d refl)
  other_plan r r' (delivered_move a) now h n = ground arith
  other_plan r r' (failed_move x) now h n = ground arith

  make-IsPlanned :
      (r r' : Run D) (m : Move D) (now : ℕ) → IsPlanned r → make r m now ≡ ok r' → IsPlanned r'
  make-IsPlanned r r' (proposed_move d) now p h = record {
    has_plan = λ _ e. cc (proposed_plan r r' d now h, e);
  }
  make-IsPlanned r r' m now p h =
      let (same_plan, back) = other_plan r r' m now h (λ d e. cc) in
      record { has_plan = λ at e. p.has_plan (back at) (cc) }

  start-IsPlanned :
      (id text account : String) (now : ℕ) (r : Run D)
      → start id text account now ≡ ok r
      → IsPlanned r
  unfolding start
  start-IsPlanned id text account now r h = record { has_plan = λ at. ground arith }

  -- The runs that `start` and the methods make.
  pub data Reached : Run D → Type 0 where
    started :
        (id text account : String) (now : ℕ) {r : Run D}
        → start id text account now ≡ ok r
        → Reached r
    made : {r r' : Run D} (m : Move D) (now : ℕ) → Reached r → make r m now ≡ ok r' → Reached r'
    answered :
        {r : Run D} (answers : List Answer) (now : ℕ)
        → Reached r
        → Reached (answering r answers now)
    charged : {r : Run D} (tokens now : ℕ) → Reached r → Reached (billed r tokens now)

  answering-IsPlanned :
      (r : Run D) (answers : List Answer) (now : ℕ)
      → IsPlanned r
      → IsPlanned (answering r answers now)
  unfolding answering
  answering-IsPlanned r answers now p = record { has_plan = p.has_plan }

  billed-IsPlanned : (r : Run D) (tokens now : ℕ) → IsPlanned r → IsPlanned (billed r tokens now)
  unfolding billed
  billed-IsPlanned r tokens now p = record { has_plan = p.has_plan }

  Reached-IsPlanned : {r : Run D} → Reached r → IsPlanned r
  Reached-IsPlanned (started id text account now {r} h) = start-IsPlanned id text account now r h
  Reached-IsPlanned (made {r} {r'} m now reached h) =
      make-IsPlanned r r' m now (Reached-IsPlanned reached) h
  Reached-IsPlanned (answered {r} answers now reached) =
      answering-IsPlanned r answers now (Reached-IsPlanned reached)
  Reached-IsPlanned (charged {r} tokens now reached) =
      billed-IsPlanned r tokens now (Reached-IsPlanned reached)

  may_generate-planned : (r : Run D) → may_generate r ≡ true → planned r.state ≡ true
  unfolding may_generate target
  may_generate-planned r h = ground arith

  -- A run that may generate has a plan for the prompt.
  generation_has_plan :
      (r : Run D) → Reached r → may_generate r ≡ true → (d : D) × (r.plan ≡ some d)
  generation_has_plan r reached h = elim (Option-cases r.plan) [
    | inl missing ↦ absurd ((Reached-IsPlanned reached).has_plan (may_generate-planned r h) missing)
    | inr found ↦ found
  ]

-- The answer to a question, and the last one that a list gives to it.
abbrev pub answer_to : String → List Answer → Option Answer
answer_to q [] = none
answer_to q (a ∷ more) = if same a.question_id q then some a else answer_to q more

abbrev last_answer : String → List Answer → Option Answer → Option Answer
last_answer q [] before = before
last_answer q (a ∷ more) before =
    last_answer q more (if same a.question_id q then some a else before)

answer_to-merge_answer :
    (q : String) (merged : List Answer) (a : Answer)
    → answer_to q (merge_answer merged a)
      ≡ (if same a.question_id q then some a else answer_to q merged)
unfolding merge_answer
answer_to-merge_answer q [] a = refl
answer_to-merge_answer q (b ∷ bs) a = ground (
  arith,
  answer_to-merge_answer q bs a,
  same_iff b.question_id a.question_id,
  same_iff b.question_id q,
  same_iff a.question_id q,
)

answer_to-merge_answers :
    (q : String) (merged more : List Answer)
    → answer_to q (merge_answers merged more) ≡ last_answer q more (answer_to q merged)
unfolding merge_answers
answer_to-merge_answers q merged [] = refl
answer_to-merge_answers q merged (a ∷ more) =
    answer_to-merge_answers q (merge_answer merged a) more
    ∙ ap (last_answer q more) (answer_to-merge_answer q merged a)

-- After answers come in, a question has the last of them that answers it, and its earlier answer if
-- none does: a round of answers loses nothing of the rounds before it.
pub answering_merges :
    {D : Type 0} (r : Run D) (answers : List Answer) (now : ℕ) (q : String)
    → answer_to q (answering r answers now).answers
      ≡ last_answer q answers (last_answer q r.answers none)
unfolding answering
answering_merges r answers now q =
    answer_to-merge_answers q (merge_answers [] r.answers) answers
    ∙ ap (last_answer q answers) (answer_to-merge_answers q [] r.answers)
