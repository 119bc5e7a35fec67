-- ===== src/RunLog/Readers.antt =====
-- What a reader of a run gets from `follow` (`infrastructure/run_log.py`) after an append.
use code_zard.Prelude.{
  ℕ, suc, ◌+◌, ◌-◌, ◌≤◌, ◌<◌, String, true, false, some, List, [], ◌∷◌, ◌++◌, ◌≡◌, ◌∙◌, ap, inl,
  inr, arith, ltb, length, drop, length-drop, length-append, Bool-cases,
}
use code_zard.Prelude.Text.{same, same_refl}
use code_zard.RunLog.{
  Log, RunLog, gave, waiting, find_log, write_log, wake, has, trim, grow, append, follow_turn,
}
use code_zard.RunLog.Laws.{trim-suffix}

module _ {A : Type 0} where
  find-write_log :
      (id : String) (log : Log A) (ls : List (String × Log A))
      → find_log id (write_log id log ls) ≡ some log
  unfolding find_log write_log
  find-write_log id log [] = rw (same_refl id)
  find-write_log id log (l ∷ ls) = elim (Bool-cases (same l.0 id)) [
    | inl there ↦ rw (there, there)
    | inr other ↦ rw (other, other, find-write_log id log ls)
  ]

  -- What an append to a run that has a log makes of it.
  abbrev appended_log : (A → ℕ) → A → RunLog A → Log A → Log A
  appended_log size_of chunk s log = record (grow size_of s.max_bytes chunk log) {
    woken = s.next_event;
  }

  has-found :
      (id : String) (s : RunLog A) (log : Log A) → find_log id s.logs ≡ some log → has id s ≡ true
  unfolding has
  has-found id s log here = rw (has, here)

  find_log-append :
      (size_of : A → ℕ) (id : String) (chunk : A) (s : RunLog A) (log : Log A)
      → find_log id s.logs ≡ some log
      → find_log id (append size_of id chunk s).logs ≡ some (appended_log size_of chunk s log)
  unfolding append wake
  find_log-append size_of id chunk s log here =
      let there = has-found id s log here in
      rw (append, there, here, wake) (find-write_log id (appended_log size_of chunk s log) s.logs)

  length-snoc : (cs : List A) (c : A) → length (cs ++ c ∷ []) ≡ suc (length cs)
  length-snoc cs c = omega (arith, length-append cs (c ∷ []))

  trim-shorter :
      (max : ℕ) (size_of : A → ℕ) (c : A) (cs : List A) (chunk : A) (size : ℕ)
      → max < size
      → length (trim size_of max (c ∷ cs ++ chunk ∷ []) size).0 ≤ suc (length cs)
  unfolding trim
  trim-shorter max size_of c [] chunk size over =
      let full : ltb max size ≡ true = ground arith in rw (trim, full) (omega arith)
  trim-shorter max size_of c (d ∷ cs) chunk size over =
      let full : ltb max size ≡ true = ground arith in
      let (k, e, b) = trim-suffix size_of max d (cs ++ chunk ∷ []) (size - size_of c) in
      rw (trim, full, e) (omega (arith, length-drop k (d ∷ cs ++ chunk ∷ []), length-snoc cs chunk))

  suffix-nonempty :
      (max : ℕ) (size_of : A → ℕ) (cs : List A) (chunk : A) (size : ℕ)
      → (k : ℕ) × ((trim size_of max (cs ++ chunk ∷ []) size).0 ≡ drop k (cs ++ chunk ∷ []))
        × (k ≤ length cs)
  suffix-nonempty max size_of [] chunk size = trim-suffix size_of max chunk [] size
  suffix-nonempty max size_of (c ∷ cs) chunk size =
      let (k, e, b) = trim-suffix size_of max c (cs ++ chunk ∷ []) size in
      (k, e, omega (arith, b, length-append cs (chunk ∷ [])))

  -- After an append to a run that has a log, a reader that starts anew is given the chunks that were
  -- there and the new one, in their order, less some of the oldest, and never without the new one.
  pub follow-append :
      (size_of : A → ℕ) (id : String) (chunk : A) (s : RunLog A) (log : Log A)
      → find_log id s.logs ≡ some log
      → (k : ℕ) × (follow_turn id 0 (append size_of id chunk s)
          ≡ gave (drop k (log.chunks ++ chunk ∷ [])))
        × (k ≤ length log.chunks)
  unfolding follow_turn grow
  follow-append size_of id chunk s log here =
      let (k, e, b) =
        suffix-nonempty s.max_bytes size_of log.chunks chunk (log.size + size_of chunk) in
      let count =
        length-drop k (log.chunks ++ chunk ∷ []) ∙ ap (λ n. n - k) (length-snoc log.chunks chunk) in
      let some_left : ltb 0 (suc (length log.chunks) - k) ≡ true = ground arith in
      (
        k,
        rw (follow_turn, find_log-append size_of id chunk s log here, grow, e, count, some_left),
        b,
      )

  -- A reader that has had everything of a run whose log is full misses the next chunk: after the
  -- append its turn of the loop waits for another one, though the new chunk is in the log.
  pub follow-append_full :
      (size_of : A → ℕ) (id : String) (chunk first : A) (rest : List A) (s : RunLog A) (log : Log A)
      → find_log id s.logs ≡ some log
      → log.chunks ≡ first ∷ rest
      → log.is_ended ≡ false
      → s.max_bytes < log.size + size_of chunk
      → follow_turn id (length log.chunks) (append size_of id chunk s) ≡ waiting s.next_event
  unfolding follow_turn grow
  follow-append_full size_of id chunk first rest s log here full running over =
      let short : ltb (length log.chunks) (length (grow size_of s.max_bytes chunk log).chunks)
          ≡ false =
        let shorter : length (grow size_of s.max_bytes chunk log).chunks ≤ length log.chunks =
          rw (grow, full) (trim-shorter s.max_bytes size_of first rest chunk _ over) in
        ground arith in
      rw (follow_turn, find_log-append size_of id chunk s log here, short, running)
