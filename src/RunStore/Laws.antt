-- ===== src/RunStore/Laws.antt =====
-- What `put` and `get` (`infrastructure/runs.py`) promise: a bound, the run that was put, and who is
-- evicted.
use code_zard.Prelude.{
  ℕ, zero, suc, ◌+◌, ◌-◌, ◌≤◌, String, Bool, true, false, not, some, List, [], ◌∷◌, ◌++◌, ◌≡◌,
  arith, ap, ◌∙◌, ltb, length, drop, keep, length-append, length-drop, Bool-cases, inl, inr, Each,
}
use code_zard.Prelude.Text.{same, same_iff, same_refl}
use code_zard.Runs.{Run}
use code_zard.RunStore.{Entry, RunStore, is_expired, sweep, without, evict, put, lookup, get}

module _ {D : Type 0} where
  -- The loop drops the oldest entries, as many as there are too many.
  evict_lem : (max : ℕ) (es : List (Entry D)) → evict max es ≡ drop (length es - max) es
  unfolding evict
  evict_lem max [] = let none_less : 0 - max ≡ 0 = omega arith in rw (none_less)
  evict_lem max (e ∷ es) = elim (Bool-cases (ltb max (suc (length es)))) [
    | inl more ↦
        let one_less : suc (length es) - max ≡ suc (length es - max) = ground arith in
        rw (more, one_less, evict_lem max es)
    | inr room ↦ let none_less : suc (length es) - max ≡ 0 = ground arith in rw (room, none_less)
  ]

  -- After a run is put there are never more runs than the maximum.
  put_bounded : (now : ℕ) (run : Run D) (s : RunStore D) → length (put now run s).runs ≤ s.max
  unfolding put
  put_bounded now run s =
      let es = without run.id (sweep now s).runs ++ (run.id, run) ∷ [] in
      omega (arith, ap length (evict_lem s.max es), length-drop (length es - s.max) es)

  fresh : (id : String) (es : List (Entry D)) → Each (λ e. same e.0 id ≡ false) (without id es)
  unfolding without
  fresh id [] = tt
  fresh id (e ∷ es) = elim (Bool-cases (same e.0 id)) [
    | inl there ↦ rw (there, Each) (fresh id es)
    | inr other ↦ rw (other, Each) (other, fresh id es)
  ]

  lookup-last :
      (test : Entry D → Bool) (id : String) (run : Run D) (n : ℕ) (es : List (Entry D))
      → test (id, run) ≡ true
      → Each (λ e. same e.0 id ≡ false) es
      → n ≤ length es
      → lookup id (keep test (drop n (es ++ (id, run) ∷ []))) ≡ some run
  unfolding lookup
  lookup-last test id run zero [] h f b = rw (h, same_refl id)
  lookup-last test id run (suc n) [] h f b = absurd (omega arith)
  lookup-last test id run zero (e ∷ es) h f b = elim (Bool-cases (test e)) [
    | inl kept ↦ rw (kept, f.0) (lookup-last test id run zero es h f.1 (omega arith))
    | inr gone ↦ rw gone (lookup-last test id run zero es h f.1 (omega arith))
  ]
  lookup-last test id run (suc n) (e ∷ es) h f b = lookup-last test id run n es h f.1 (omega arith)

  -- A run that was put is found under its id until it expires, whatever was there before, as long as
  -- the store holds at least one run.
  pub get-put :
      (now later : ℕ) (run : Run D) (s : RunStore D)
      → 1 ≤ s.max
      → later ≤ run.updated_at + s.ttl
      → (get later run.id (put now run s)).0 ≡ some run
  unfolding get put sweep
  get-put now later run s room fresh_still =
      let others = without run.id (sweep now s).runs in
      rw (evict_lem s.max (others ++ (run.id, run) ∷ [])) (
        lookup-last _ run.id run _ others (ground arith) (fresh run.id (sweep now s).runs)
          (omega (arith, length-append others ((run.id, run) ∷ []))))

  length-keep : (test : Entry D → Bool) (es : List (Entry D)) → length (keep test es) ≤ length es
  length-keep test [] = omega arith
  length-keep test (e ∷ es) = elim (Bool-cases (test e)) [
    | inl kept ↦ rw (kept, length) (omega (arith, length-keep test es))
    | inr gone ↦ rw (gone, length) (omega (arith, length-keep test es))
  ]

  lookup-without :
      (put_id id : String) (run : Run D) (es : List (Entry D))
      → same put_id id ≡ false
      → lookup id (without put_id es ++ (put_id, run) ∷ []) ≡ lookup id es
  unfolding lookup without
  lookup-without put_id id run [] other = rw other
  lookup-without put_id id run (e ∷ es) other = elim (Bool-cases (same e.0 put_id)) [
    | inl there ↦
        let is_other : same e.0 id ≡ false = ap (λ x. same x id) ((same_iff _ _).0 there) ∙ other in
        rw (there, ◌++◌, is_other) (lookup-without put_id id run es other)
    | inr elsewhere ↦ rw (elsewhere, ◌++◌, lookup-without put_id id run es other)
  ]

  -- When there is room, putting a run leaves every other run that has not expired where it was: a run
  -- is found under another id exactly as it was after the sweep alone.
  get_other-put :
      (now : ℕ) (run : Run D) (id : String) (s : RunStore D)
      → same run.id id ≡ false
      → length s.runs + 1 ≤ s.max
      → lookup id (put now run s).runs ≡ lookup id (sweep now s).runs
  unfolding put sweep without
  get_other-put now run id s other room =
      let swept = (sweep now s).runs in
      let others = without run.id swept in
      let fits : length (others ++ (run.id, run) ∷ []) - s.max ≡ 0 = omega (
        arith,
        length-append others ((run.id, run) ∷ []),
        length-keep (λ e. not (same e.0 run.id)) swept,
        length-keep (λ e. not (is_expired s.ttl now e)) s.runs,
      ) in
      rw (evict_lem s.max (others ++ (run.id, run) ∷ []), fits, drop)
        (lookup-without run.id id run swept other)
