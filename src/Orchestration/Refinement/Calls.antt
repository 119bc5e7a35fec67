-- ===== src/Orchestration/Refinement/Calls.antt =====
-- Calls of the store and of the meter keep the stored runs within the state machine.
use code_zard.Prelude.{ℕ, String, Option, none, some, Bool-cases, inl, inr}
use code_zard.Prelude.Text.{same}
use code_zard.Prelude.Result.{Result, ok, err}
use code_zard.Billing.Errors.{BillingError}
use code_zard.Billing.Ledger.{Balance}
use code_zard.Runs.{max_rounds}
use code_zard.RunStore as RunStore
use code_zard.Orchestration.Planner.{Outside, PlanRun, Raised}
use code_zard.Orchestration.Moves.{
  RunMeter, World, Outcome, save, saved, known, fetch, after_fetch, stored_move, refusal_of,
  authorized, if_paid,
}
use code_zard.Orchestration.Machine.{IsWithin, Yields}
use code_zard.Orchestration.Stored.{All, All-put, Found, get-All}

known-Yields :
    (id : String) (found : Option PlanRun)
    → Found (IsWithin max_rounds) found
    → Yields max_rounds (known id found)
known-Yields id none y = tt
known-Yields id (some run) y = y

module _ {B : Type 0} where
  -- Every stored run is one that the methods of a run can make, in at most two rounds.
  abbrev pub AllWithin : World B → Type 0
  AllWithin w = All (IsWithin max_rounds) w.runs

  pub save-AllWithin :
      (now : ℕ) (run : PlanRun) (w : World B)
      → AllWithin w
      → IsWithin max_rounds run
      → AllWithin (save now run w)
  unfolding save
  save-AllWithin now run w all y = All-put (IsWithin max_rounds) now run w.runs all y

  pub saved-AllWithin :
      (now : ℕ) (r : Result Raised PlanRun) (w : World B)
      → AllWithin w
      → Yields max_rounds r
      → AllWithin (saved now r w).1
  saved-AllWithin now (ok run) w all y = save-AllWithin now run w all y
  saved-AllWithin now (err e) w all y = all

  pub fetch-AllWithin :
      (now : ℕ) (id : String) (w : World B)
      → AllWithin w
      → Yields max_rounds (fetch now id w).0 × AllWithin (fetch now id w).1
  unfolding fetch
  fetch-AllWithin now id w all =
      let got = get-All (IsWithin max_rounds) now id w.runs all in
      (known-Yields id (RunStore.get now id w.runs).0 got.0, got.1)

  after_fetch-AllWithin :
      (later : ℕ) (change : PlanRun → Result Raised PlanRun) (fetched : Outcome B PlanRun)
      → ((run : PlanRun) → IsWithin max_rounds run → Yields max_rounds (change run))
      → Yields max_rounds fetched.0
      → AllWithin fetched.1
      → AllWithin (after_fetch later change fetched).1
  after_fetch-AllWithin later change (ok run, w) ok_change y all =
      saved-AllWithin later (change run) w all (ok_change run y)
  after_fetch-AllWithin later change (err e, w) ok_change y all = all

  pub stored_move-AllWithin :
      (now later : ℕ) (change : PlanRun → Result Raised PlanRun) (id : String) (w : World B)
      → ((run : PlanRun) → IsWithin max_rounds run → Yields max_rounds (change run))
      → AllWithin w
      → AllWithin (stored_move now later change id w).1
  unfolding stored_move
  stored_move-AllWithin now later change id w ok_change all =
      let got = fetch-AllWithin now id w all in
      after_fetch-AllWithin later change (fetch now id w) ok_change got.0 got.1

  pub if_paid-AllWithin :
      (o : Outside) (asked : Option BillingError × World B) (next : Result Raised PlanRun)
      → AllWithin asked.1
      → Yields max_rounds next
      → AllWithin (if_paid o asked next).1
  if_paid-AllWithin o (some e, w) next all y = all
  if_paid-AllWithin o (none, w) next all y = saved-AllWithin (o.clock 4) next w all y

  pub authorized-AllWithin :
      (meter : Option (RunMeter B)) (account : String) (w : World B)
      → AllWithin w
      → AllWithin (authorized meter account w).1
  unfolding authorized
  authorized-AllWithin none account w all = all
  authorized-AllWithin (some meter) account w all = elim (Bool-cases (same account "")) [
    | inl nobody ↦ rw nobody all
    | inr payer ↦ rw payer (go (meter.authorize account w.billing))
  ]
    where
      go : (r : Result BillingError Balance × B) → AllWithin (refusal_of r w).1
      go (ok b, billing) = all
      go (err e, billing) = all
