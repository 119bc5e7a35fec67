-- ===== src/RunLog/Tests.antt =====
-- A log of numbers, each of which is as large as it says, with ten bytes for each of two runs.
use code_zard.Prelude.{ℕ, List, [], ◌∷◌, ◌≡◌, refl, arith, false}
use code_zard.RunLog.{Log, RunLog, waiting, follow_turn, append, find_log}
use code_zard.RunLog.Laws.{IsValid}
use code_zard.RunLog.History.{LogEvent, started, appended, ended, run_events, run_events-IsValid}
use code_zard.RunLog.Readers.{follow-append_full}

abbrev size_of : ℕ → ℕ
size_of n = n

abbrev empty_log : RunLog ℕ
empty_log = record { logs = []; next_event = 0; fired = []; max_bytes = 10; max_runs = 2 }

abbrev spoken : Log ℕ
spoken = record { chunks = 4 ∷ 5 ∷ []; size = 9; is_ended = false; woken = 3 }

abbrev one_log : RunLog ℕ
one_log = record empty_log { logs = ("r1", spoken) ∷ []; next_event = 4 }

empty_log-IsValid : IsValid size_of empty_log
empty_log-IsValid = ground arith

abbrev history : List (LogEvent ℕ)
history = appended "r1" 4 ∷ appended "r1" 7 ∷ started "r2" ∷ ended "r1" ∷ appended "r3" 50 ∷ []

run_events-IsValid_example : IsValid size_of (run_events size_of history empty_log)
run_events-IsValid_example = run_events-IsValid size_of history empty_log empty_log-IsValid

follow-append_full_example : follow_turn "r1" 2 (append size_of "r1" 3 one_log) ≡ waiting 4
unfolding find_log
follow-append_full_example =
    follow-append_full size_of "r1" 3 4 (5 ∷ []) one_log spoken refl refl refl (omega arith)
