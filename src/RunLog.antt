-- ===== src/RunLog.antt =====
-- src/gateway/infrastructure/run_log.py: what each run has said so far, in one dictionary. An
-- `asyncio.Event` is a number, and is set when it is among the events that fired. The methods run in
-- one event loop, so each is one step; a reader is a step for each turn of its loop, and one more for
-- the end of a turn that gives chunks.
mod Laws
mod History
mod Readers
mod Tests
use code_zard.Prelude.{
  ℕ, zero, suc, ◌+◌, ◌-◌, String, Bool, true, false, Option, none, some, List, [], ◌∷◌, ◌++◌,
  if◌then◌else◌, ltb, leb, length, drop,
}
use code_zard.Prelude.Text.{same}

pub record Log (A : Type 0) : Type 0 where
  pub chunks : List A
  pub size : ℕ
  pub is_ended : Bool
  pub woken : ℕ

pub record RunLog (A : Type 0) : Type 0 where
  pub logs : List (String × Log A)
  pub next_event : ℕ
  pub fired : List ℕ
  pub max_bytes : ℕ
  pub max_runs : ℕ

-- What a turn of a reader's loop does: it stops, gives chunks, or waits.
pub data Turn (A : Type 0) : Type 0 where
  stopped : Turn A
  gave : List A → Turn A
  waiting : ℕ → Turn A

module _ {A : Type 0} where
  unfoldable pub find_log : String → List (String × Log A) → Option (Log A)
  find_log id [] = none
  find_log id (l ∷ ls) = if same l.0 id then some l.1 else find_log id ls

  -- Writing a key that is there keeps its place in the dictionary; a new one goes to the end.
  unfoldable pub write_log : String → Log A → List (String × Log A) → List (String × Log A)
  write_log id log [] = (id, log) ∷ []
  write_log id log (l ∷ ls) = if same l.0 id then (l.0, log) ∷ ls else l ∷ write_log id log ls

  -- `_evict` and `_forget`: the first logs go until there is room for one more, and their readers
  -- are woken.
  unfoldable pub evict : ℕ → List (String × Log A) → List (String × Log A)
  evict max [] = []
  evict max (l ∷ ls) = let rest = evict max ls in if leb max (length (l ∷ ls)) then rest else l ∷ ls

  unfoldable evicted_events : ℕ → List (String × Log A) → List ℕ
  evicted_events max [] = []
  evicted_events max (l ∷ ls) =
      let rest = evicted_events max ls in if leb max (length (l ∷ ls)) then l.1.woken ∷ rest else []

  unfoldable pub start : String → RunLog A → RunLog A
  unfolding write_log evict evicted_events
  start id s =
      let log : Log A = record { chunks = []; size = 0; is_ended = false; woken = s.next_event } in
      record s {
        logs = write_log id log (evict s.max_runs s.logs);
        next_event = s.next_event + 1;
        fired = evicted_events s.max_runs s.logs ++ s.fired;
      }

  -- `_wake`, with the log that is to be written: its event fires and a new one takes its place.
  unfoldable pub wake : String → Log A → RunLog A → RunLog A
  unfolding write_log
  wake id log s = record s {
    logs = write_log id (record log { woken = s.next_event }) s.logs;
    next_event = s.next_event + 1;
    fired = log.woken ∷ s.fired;
  }

  unfoldable pub end : String → RunLog A → RunLog A
  unfolding find_log wake
  end id s = elim (find_log id s.logs) [
    | none ↦ s
    | some log ↦ wake id (record log { is_ended = true }) s
  ]

  unfoldable pub has : String → RunLog A → Bool
  unfolding find_log
  has id s = elim (find_log id s.logs) [ none ↦ false | some log ↦ true ]

  -- One turn of the loop of `follow`, for a reader with this cursor.
  unfoldable pub follow_turn : String → ℕ → RunLog A → Turn A
  unfolding find_log
  follow_turn id cursor s = elim (find_log id s.logs) [
    | none ↦ stopped
    | some log ↦
        if ltb cursor (length log.chunks)
        then gave (drop cursor log.chunks)
        else if log.is_ended
        then stopped
        else waiting log.woken
  ]

  -- Where a reader's cursor stands when it has taken the last chunk that a turn gives: at the end of the
  -- log as it is by then, which other calls have changed since the turn began.
  unfoldable pub cursor_after : Log A → ℕ
  cursor_after log = length log.chunks

  module _ (size_of : A → ℕ) where
    -- The `while` of `append`: the oldest chunks go while there are too many bytes and more than one
    -- chunk. Gives the chunks that stay and their size.
    unfoldable pub trim : ℕ → List A → ℕ → List A × ℕ
    trim max [] size = ([], size)
    trim max (c ∷ []) size = (c ∷ [], size)
    trim max (c ∷ d ∷ cs) size =
        let rest = trim max (d ∷ cs) (size - size_of c) in
        if ltb max size then rest else (c ∷ d ∷ cs, size)

    unfoldable pub grow : ℕ → A → Log A → Log A
    unfolding trim
    grow max chunk log =
        let (chunks, size) = trim max (log.chunks ++ chunk ∷ []) (log.size + size_of chunk) in
        record log { chunks = chunks; size = size }

    abbrev pub append_to : String → A → RunLog A → Option (Log A) → RunLog A
    append_to id chunk s none = s
    append_to id chunk s (some log) = wake id (grow s.max_bytes chunk log) s

    -- `append`; a run without a log is started first, and then has one.
    unfoldable pub append : String → A → RunLog A → RunLog A
    unfolding has start grow wake find_log
    append id chunk s =
        let s' = if has id s then s else start id s in append_to id chunk s' (find_log id s'.logs)
