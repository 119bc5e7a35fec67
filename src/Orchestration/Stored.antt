-- ===== src/Orchestration/Stored.antt =====
-- What holds of every stored run goes through the store (`infrastructure/runs.py`) and through the
-- orchestrator's calls of it.
use code_zard.Prelude.{
  ℕ, String, Bool, Option, none, some, List, [], ◌∷◌, ◌++◌, Each, keep, ltb, length, Bool-cases,
  inl, inr,
}
use code_zard.Prelude.Text.{same}
use code_zard.Runs.{Run}
use code_zard.RunStore.{Entry, RunStore, sweep, without, evict, put, lookup, get}

Each-keep :
    {A : Type 0} (P : A → Type 0) (test : A → Bool) (xs : List A)
    → Each P xs
    → Each P (keep test xs)
Each-keep P test [] all = tt
Each-keep P test (x ∷ xs) all = elim (Bool-cases (test x)) [
  | inl kept ↦ rw (kept, Each) (all.0, Each-keep P test xs all.1)
  | inr gone ↦ rw (gone, Each) (Each-keep P test xs all.1)
]

Each-append :
    {A : Type 0} (P : A → Type 0) (xs ys : List A) → Each P xs → Each P ys → Each P (xs ++ ys)
Each-append P [] ys all more = more
Each-append P (x ∷ xs) ys all more = (all.0, Each-append P xs ys all.1 more)

module _ {D : Type 0} (P : Run D → Type 0) where
  -- Every run in the store has the property.
  abbrev pub All : RunStore D → Type 0
  All s = Each (λ e. P e.1) s.runs

  Each-evict :
      (max : ℕ) (es : List (Entry D)) → Each (λ e. P e.1) es → Each (λ e. P e.1) (evict max es)
  unfolding evict
  Each-evict max [] all = tt
  Each-evict max (e ∷ es) all = elim (Bool-cases (ltb max (length (e ∷ es)))) [
    | inl more ↦ rw more (Each-evict max es all.1)
    | inr room ↦ rw (room, Each) all
  ]

  All-sweep : (now : ℕ) (s : RunStore D) → All s → All (sweep now s)
  unfolding sweep
  All-sweep now s all = Each-keep (λ e. P e.1) _ s.runs all

  pub All-put : (now : ℕ) (run : Run D) (s : RunStore D) → All s → P run → All (put now run s)
  unfolding put without
  All-put now run s all p = Each-evict s.max _ (
      Each-append (λ e. P e.1) _ ((run.id, run) ∷ [])
        (Each-keep (λ e. P e.1) _ (sweep now s).runs (All-sweep now s all)) (p, tt))

  -- The property of a run that is there, and of nothing else.
  abbrev pub Found : Option (Run D) → Type 0
  Found none = Unit
  Found (some r) = P r

  Found-lookup : (id : String) (es : List (Entry D)) → Each (λ e. P e.1) es → Found (lookup id es)
  unfolding lookup
  Found-lookup id [] all = tt
  Found-lookup id (e ∷ es) all = elim (Bool-cases (same e.0 id)) [
    | inl this ↦ rw (this, Found) all.0
    | inr other ↦ rw other (Found-lookup id es all.1)
  ]

  pub get-All :
      (now : ℕ) (id : String) (s : RunStore D)
      → All s
      → Found (get now id s).0 × All (get now id s).1
  unfolding get
  get-All now id s all =
      let swept = All-sweep now s all in (Found-lookup id (sweep now s).runs swept, swept)
