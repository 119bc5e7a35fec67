-- ===== src/RunLog/Laws.antt =====
-- The bookkeeping of the run log (`infrastructure/run_log.py`): sizes, bounds, and what is kept.
use code_zard.Prelude.{
  ℕ, suc, ◌+◌, ◌-◌, ◌≤◌, ◌<◌, String, some, List, [], ◌∷◌, ◌++◌, ◌≡◌, ◌⊎◌, inl, inr, refl, arith,
  ltb, leb, length, drop, Each, Bool-cases,
}
use mathlib.Core.Path.{subst}
use code_zard.Prelude.Text.{same}
use code_zard.RunLog.{Log, RunLog, find_log, write_log, evict, trim, grow}

module _ {A : Type 0} (size_of : A → ℕ) where
  abbrev total_size : List A → ℕ
  total_size [] = 0
  total_size (c ∷ cs) = size_of c + total_size cs

  -- The size that is kept is that of the chunks, and is within the bound unless one chunk alone is
  -- larger.
  pub record IsSized (max : ℕ) (log : Log A) : Type 0 where
    pub counted : log.size ≡ total_size log.chunks
    pub bounded : (log.size ≤ max) ⊎ (length log.chunks ≤ 1)

  total_size-append : (cs : List A) (c : A) → total_size (cs ++ c ∷ []) ≡ total_size cs + size_of c
  total_size-append [] c = omega arith
  total_size-append (b ∷ cs) c = omega (arith, total_size-append cs c)

  trim-size :
      (max : ℕ) (cs : List A) (size : ℕ)
      → size ≡ total_size cs
      → (trim size_of max cs size).1 ≡ total_size (trim size_of max cs size).0
  unfolding trim
  trim-size max [] size h = h
  trim-size max (c ∷ []) size h = h
  trim-size max (c ∷ d ∷ cs) size h = elim (Bool-cases (ltb max size)) [
    | inl over ↦ rw (trim, over) (trim-size max (d ∷ cs) (size - size_of c) (omega arith))
    | inr fits ↦ rw (trim, fits) h
  ]

  trim-bounded :
      (max : ℕ) (cs : List A) (size : ℕ)
      → ((trim size_of max cs size).1 ≤ max) ⊎ (length (trim size_of max cs size).0 ≤ 1)
  unfolding trim
  trim-bounded max [] size = inr (omega arith)
  trim-bounded max (c ∷ []) size = inr (omega arith)
  trim-bounded max (c ∷ d ∷ cs) size = elim (Bool-cases (ltb max size)) [
    | inl over ↦ rw (trim, over) (trim-bounded max (d ∷ cs) (size - size_of c))
    | inr fits ↦ rw (trim, fits) (inl (ground arith))
  ]

  -- What is left is the end of what there was, and something is left of something.
  pub trim-suffix :
      (max : ℕ) (c : A) (cs : List A) (size : ℕ)
      → (k : ℕ) × ((trim size_of max (c ∷ cs) size).0 ≡ drop k (c ∷ cs)) × (k ≤ length cs)
  unfolding trim
  trim-suffix max c [] size = (0, refl, omega arith)
  trim-suffix max c (d ∷ cs) size =
      let (k, e, b) = trim-suffix max d cs (size - size_of c) in
      elim (Bool-cases (ltb max size)) [
        | inl over ↦ (suc k, rw (trim, over) e, omega (arith, b))
        | inr fits ↦ (0, rw (trim, fits), omega arith)
      ]

  pub grow-IsSized :
      (max : ℕ) (chunk : A) (log : Log A)
      → IsSized max log
      → IsSized max (grow size_of max chunk log)
  unfolding grow
  grow-IsSized max chunk log v = record {
    counted =
        trim-size max (log.chunks ++ chunk ∷ []) (log.size + size_of chunk)
          (omega (arith, v.counted, total_size-append log.chunks chunk));
    bounded = trim-bounded max (log.chunks ++ chunk ∷ []) (log.size + size_of chunk);
  }

  -- Every log is sized, and there are at most as many logs as allowed.
  pub record IsValid (s : RunLog A) : Type 0 where
    pub some_room : 1 ≤ s.max_runs
    pub sized : Each (λ l. IsSized s.max_bytes l.1) s.logs
    pub bounded : length s.logs ≤ s.max_runs

  pub Each-write_log :
      (max : ℕ) (id : String) (log : Log A) (ls : List (String × Log A))
      → IsSized max log
      → Each (λ l. IsSized max l.1) ls
      → Each (λ l. IsSized max l.1) (write_log id log ls)
  unfolding write_log
  Each-write_log max id log [] v vs = (v, tt)
  Each-write_log max id log (l ∷ ls) v vs = elim (Bool-cases (same l.0 id)) [
    | inl there ↦ rw (there, Each) (v, vs.1)
    | inr other ↦ rw (other, Each) (vs.0, Each-write_log max id log ls v vs.1)
  ]

  pub length-write_log :
      (id : String) (log : Log A) (ls : List (String × Log A))
      → length (write_log id log ls) ≤ length ls + 1
  unfolding write_log
  length-write_log id log [] = omega arith
  length-write_log id log (l ∷ ls) = elim (Bool-cases (same l.0 id)) [
    | inl there ↦ rw (there, length) (omega arith)
    | inr other ↦ rw (other, length) (omega (arith, length-write_log id log ls))
  ]

  -- A log that is there is found sized, and writing it again makes the dictionary no longer.
  pub found :
      (max : ℕ) (id : String) (log : Log A) (ls : List (String × Log A))
      → find_log id ls ≡ some log
      → Each (λ l. IsSized max l.1) ls
      → IsSized max log × ((log' : Log A) → length (write_log id log' ls) ≡ length ls)
  unfolding find_log write_log
  found max id log [] h vs = absurd (ground arith)
  found max id log (l ∷ ls) h vs = elim (Bool-cases (same l.0 id)) [
    | inl there ↦ (subst (IsSized max) (ground arith) vs.0, λ log'. rw (there, length))
    | inr other ↦
        let (v, same_length) = found max id log ls (rw other at h) vs.1 in
        (v, λ log'. rw (other, length, same_length log'))
  ]

  pub evict-Each :
      (max bytes : ℕ) (ls : List (String × Log A))
      → Each (λ l. IsSized bytes l.1) ls
      → Each (λ l. IsSized bytes l.1) (evict max ls)
  unfolding evict
  evict-Each max bytes [] vs = tt
  evict-Each max bytes (l ∷ ls) vs = elim (Bool-cases (leb max (suc (length ls)))) [
    | inl full ↦ rw (full, Each) (evict-Each max bytes ls vs.1)
    | inr room ↦ rw (room, Each) vs
  ]

  pub evict-room : (max : ℕ) (ls : List (String × Log A)) → 1 ≤ max → length (evict max ls) < max
  unfolding evict
  evict-room max [] h = omega arith
  evict-room max (l ∷ ls) h = elim (Bool-cases (leb max (suc (length ls)))) [
    | inl full ↦ rw (full, length) (evict-room max ls h)
    | inr room ↦ rw (room, length) (ground arith)
  ]
