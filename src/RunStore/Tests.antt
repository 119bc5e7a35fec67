-- ===== src/RunStore/Tests.antt =====
-- A store of two runs at most, whose runs live for an hour.
use code_zard.Prelude.{ℕ, String, none, [], ◌∷◌, ◌≡◌, refl}
use code_zard.Runs.{Run, RunState}
use code_zard.RunStore.{RunStore, put}

abbrev run_at : String → ℕ → Run String
run_at id now = record {
  id = id;
  idea = "a shop for bread";
  state = RunState.idea;
  rounds = 0;
  answers = [];
  plan = none;
  summary = "";
  questionnaire = none;
  artifact_id = "";
  error = "";
  account = "acme";
  charged = 0;
  created_at = now;
  updated_at = now;
}

abbrev two_runs : RunStore String
two_runs = record {
  runs = ("r1", run_at "r1" 10) ∷ ("r2", run_at "r2" 20) ∷ [];
  ttl = 3_600;
  max = 2;
}

-- The oldest run goes for the third one.
evicts_oldest :
    put 30 (run_at "r3" 30) two_runs
    ≡ record { runs = ("r2", run_at "r2" 20) ∷ ("r3", run_at "r3" 30) ∷ []; ttl = 3_600; max = 2 }
unfolding put
evicts_oldest = refl
