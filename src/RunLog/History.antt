-- ===== src/RunLog/History.antt =====
-- Whatever happens to the run log (`infrastructure/run_log.py`), in whatever order, and what a reader
-- gets of it.
use code_zard.Prelude.{
  ℕ, String, false, some, List, [], ◌∷◌, ◌≡◌, inl, inr, refl, arith, Bool-cases, Option-cases,
}
use code_zard.RunLog.{Log, RunLog, find_log, evict, start, wake, end, has, append, append_to}
use code_zard.RunLog.Laws.{
  IsSized, IsValid, grow-IsSized, Each-write_log, length-write_log, found, evict-Each, evict-room,
}

-- What the writing side does.
pub data LogEvent (A : Type 0) : Type 0 where
  started ended : String → LogEvent A
  appended : String → A → LogEvent A

module _ {A : Type 0} (size_of : A → ℕ) where
  unfoldable pub happen : LogEvent A → RunLog A → RunLog A
  unfolding start end append
  happen (started id) s = start id s
  happen (ended id) s = end id s
  happen (appended id chunk) s = append size_of id chunk s

  abbrev pub run_events : List (LogEvent A) → RunLog A → RunLog A
  run_events [] s = s
  run_events (e ∷ es) s = run_events es (happen e s)

  start-IsValid : (id : String) (s : RunLog A) → IsValid size_of s → IsValid size_of (start id s)
  unfolding start
  start-IsValid id s v =
      let new : Log A = record { chunks = []; size = 0; is_ended = false; woken = s.next_event } in
      record {
        some_room = v.some_room;
        sized =
            Each-write_log size_of s.max_bytes id new _
              (record { counted = refl; bounded = inr (omega arith) })
              (evict-Each size_of s.max_runs s.max_bytes s.logs v.sized);
        bounded = omega (
          arith,
          length-write_log size_of id new (evict s.max_runs s.logs),
          evict-room size_of s.max_runs s.logs v.some_room,
        );
      }

  wake-IsValid :
      (id : String) (log old : Log A) (s : RunLog A)
      → find_log id s.logs ≡ some old
      → IsSized size_of s.max_bytes log
      → IsValid size_of s
      → IsValid size_of (wake id log s)
  unfolding wake
  wake-IsValid id log old s here h v =
      let rearmed = record log { woken = s.next_event } in
      record {
        some_room = v.some_room;
        sized =
            Each-write_log size_of s.max_bytes id rearmed s.logs
              (record { counted = h.counted; bounded = h.bounded }) v.sized;
        bounded = rw ((found size_of s.max_bytes id old s.logs here v.sized).1 rearmed) v.bounded;
      }

  end-IsValid : (id : String) (s : RunLog A) → IsValid size_of s → IsValid size_of (end id s)
  unfolding end
  end-IsValid id s v = elim (Option-cases (find_log id s.logs)) [
    | inl absent ↦ rw (end, absent) v
    | inr (log, here) ↦
        let h = (found size_of s.max_bytes id log s.logs here v.sized).0 in
        rw (end, here)
          (wake-IsValid id _ log s here (record { counted = h.counted; bounded = h.bounded }) v)
  ]

  append_here-IsValid :
      (id : String) (chunk : A) (s : RunLog A)
      → IsValid size_of s
      → IsValid size_of (append_to size_of id chunk s (find_log id s.logs))
  append_here-IsValid id chunk s v = elim (Option-cases (find_log id s.logs)) [
    | inl absent ↦ rw (absent) v
    | inr (log, here) ↦
        let h = (found size_of s.max_bytes id log s.logs here v.sized).0 in
        rw (here) (wake-IsValid id _ log s here (grow-IsSized size_of s.max_bytes chunk log h) v)
  ]

  append-IsValid :
      (id : String) (chunk : A) (s : RunLog A)
      → IsValid size_of s
      → IsValid size_of (append size_of id chunk s)
  unfolding append
  append-IsValid id chunk s v = elim (Bool-cases (has id s)) [
    | inl there ↦ rw there (append_here-IsValid id chunk s v)
    | inr absent ↦ rw absent (append_here-IsValid id chunk (start id s) (start-IsValid id s v))
  ]

  -- Whatever runs start, speak and end, in whatever order, a valid log stays valid: the size that is
  -- kept for each run is that of its chunks, which is within the bound unless it is of one chunk, and
  -- there are never more logs than allowed.
  pub run_events-IsValid :
      (es : List (LogEvent A)) (s : RunLog A)
      → IsValid size_of s
      → IsValid size_of (run_events es s)
  unfolding happen
  run_events-IsValid [] s v = v
  run_events-IsValid (started id ∷ es) s v = run_events-IsValid es _ (start-IsValid id s v)
  run_events-IsValid (ended id ∷ es) s v = run_events-IsValid es _ (end-IsValid id s v)
  run_events-IsValid (appended id chunk ∷ es) s v =
      run_events-IsValid es _ (append-IsValid id chunk s v)
