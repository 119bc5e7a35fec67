-- ===== src/RunStore.antt =====
-- src/gateway/infrastructure/runs.py: the runs of this process, in a dictionary that forgets what
-- expired and never holds more than its maximum. Each method holds the lock, so it is one step.
pub mod Laws
mod Tests
use code_zard.Prelude.{
  ℕ, ◌+◌, String, Bool, not, Option, none, some, List, [], ◌∷◌, ◌++◌, if◌then◌else◌, ltb, leb,
  length, keep,
}
use code_zard.Prelude.Text.{same}
use code_zard.Runs.{Run}

-- An entry of the dictionary: an id and its run.
abbrev pub Entry : Type 0 → Type 0
Entry D = String × Run D

pub record RunStore (D : Type 0) : Type 0 where
  pub runs : List (Entry D)
  pub ttl : ℕ
  pub max : ℕ

module _ {D : Type 0} where
  -- `run.updated_at < time.monotonic() - ttl`, with nothing below zero.
  abbrev pub is_expired : ℕ → ℕ → Entry D → Bool
  is_expired ttl now e = ltb (e.1.updated_at + ttl) now

  -- `_sweep`
  unfoldable pub sweep : ℕ → RunStore D → RunStore D
  sweep now s = record s { runs = keep (λ e. not (is_expired s.ttl now e)) s.runs }

  -- `self._runs.pop(run.id)`: a dictionary has an id at most once.
  unfoldable pub without : String → List (Entry D) → List (Entry D)
  without id es = keep (λ e. not (same e.0 id)) es

  -- The `while` of `put`: the oldest entry goes until there is room.
  unfoldable pub evict : ℕ → List (Entry D) → List (Entry D)
  evict max [] = []
  evict max (e ∷ es) = let rest = evict max es in if ltb max (length (e ∷ es)) then rest else e ∷ es

  -- `put`: the run is written under its id, taken out, and put back at the end.
  unfoldable pub put : ℕ → Run D → RunStore D → RunStore D
  unfolding sweep without evict
  put now run s =
      let swept = sweep now s in
      record swept { runs = evict s.max (without run.id swept.runs ++ (run.id, run) ∷ []) }

  unfoldable pub lookup : String → List (Entry D) → Option (Run D)
  lookup id [] = none
  lookup id (e ∷ es) = if same e.0 id then some e.1 else lookup id es

  -- `get`, with `none` for `RunNotFoundError`; what expired is dropped either way.
  unfoldable pub get : ℕ → String → RunStore D → Option (Run D) × RunStore D
  unfolding sweep lookup
  get now id s = let swept = sweep now s in (lookup id swept.runs, swept)
