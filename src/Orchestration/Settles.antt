-- ===== src/Orchestration/Settles.antt =====
-- What the end of a generation puts into the store (`generate` of `application/orchestration.py`).
use Prim.Native.String.{count}
use code_zard.Prelude.{
  ℕ, String, Option, none, some, List, [], ◌∷◌, ◌≡◌, ◌≢◌, ◌⊎◌, refl, sym, ap, ◌∙◌, Bool-cases, inl,
  inr, ◌||◌, Each,
}
use code_zard.Prelude.Text.{same, same_iff}
use code_zard.Prelude.Result.{Result, ok, err}
use code_zard.Billing.Errors.{BillingError}
use code_zard.Billing.Pricing.{Usage, is_empty}
use code_zard.Billing.Ledger.{LedgerEntry}
use code_zard.Runs.{
  plan_approved, backend_generation, zip_ready, failed, generating, delivered, failing, billed,
  target,
}
use code_zard.RunStore as RunStore
use code_zard.RunStore.{RunStore}
use code_zard.RunLog as RunLog
use code_zard.Orchestration.Planner.{Outside, PlanRun, Raised, lifted, document}
use code_zard.Orchestration.Moves.{RunMeter, World, save}
use code_zard.Orchestration.Scan.{StreamScan, feed}
use code_zard.Orchestration.Generation.{
  Arrival, chunk, left, lost, broke, Ending, whole, raised, gone, closed, Passed, gave, consume,
  charge, booked, give_up, put_delivered, settle,
}

-- The caller reads the stream to its end, or its task is cancelled; it does not just close it.
abbrev pub Stays : Arrival → Type 0
Stays (left c) = ⊥
Stays _ = Unit

-- A run with its project, or one that failed.
abbrev pub Settled : PlanRun → Type 0
Settled r = ((r.state ≡ zip_ready) × (r.artifact_id ≢ "")) ⊎ (r.state ≡ failed)

pub generating_lem :
    (run : PlanRun) (now : ℕ)
    → run.state ≡ plan_approved
    → generating run now ≡ ok (record run { state = backend_generation; updated_at = now })
unfolding generating target
generating_lem run now at = rw at

failing_lem :
    (run : PlanRun) (message : String) (now : ℕ)
    → run.state ≡ backend_generation
    → failing run message now
      ≡ ok (record run { state = failed; updated_at = now; error = message })
unfolding failing target
failing_lem run message now at = rw at

pub delivered_lem :
    (run : PlanRun) (artifact : String) (now : ℕ)
    → run.state ≡ backend_generation
    → delivered run artifact now
      ≡ ok (record run { state = zip_ready; updated_at = now; artifact_id = artifact })
unfolding delivered target
delivered_lem run artifact now at = rw at

module _ {B : Type 0} (o : Outside) (meter : Option (RunMeter B)) where
  -- What was put last: a settled run under the same id, just changed.
  pub record Settles (run : PlanRun) (before after : World B) : Type 0 where
    pub final : PlanRun
    pub stored : after.runs ≡ RunStore.put (o.clock 5) final before.runs
    pub same_id : final.id ≡ run.id
    pub timed : (final.updated_at ≡ o.clock 3) ⊎ (final.updated_at ≡ o.clock 4)
    pub settled : Settled final

  give_up-Settles :
      (run : PlanRun) (message : String) (result : Result Raised Unit) (w : World B)
      → run.state ≡ backend_generation
      → Settles run w (give_up o meter run message result w).1
  unfolding save
  give_up-Settles run message result w at = rw (failing_lem run message (o.clock 3) at) (record {
    final = record run { state = failed; updated_at = o.clock 3; error = message };
    stored = refl;
    same_id = refl;
    timed = inl refl;
    settled = inr refl;
  })

  -- Billing changes the run's charge only.
  record Booked (run run' : PlanRun) (w w' : World B) : Type 0 where
    state : run'.state ≡ run.state
    artifact : run'.artifact_id ≡ run.artifact_id
    id : run'.id ≡ run.id
    runs : w'.runs ≡ w.runs
    time : (run'.updated_at ≡ run.updated_at) ⊎ (run'.updated_at ≡ o.clock 4)

  booked-Booked :
      (run : PlanRun) (r : Result BillingError (Option LedgerEntry)) (w w' : World B)
      → w'.runs ≡ w.runs
      → Booked run (booked o meter run r) w w'
  unfolding billed
  booked-Booked run (err e) w w' same_runs = record {
    state = refl;
    artifact = refl;
    id = refl;
    runs = same_runs;
    time = inl refl;
  }
  booked-Booked run (ok none) w w' same_runs = record {
    state = refl;
    artifact = refl;
    id = refl;
    runs = same_runs;
    time = inl refl;
  }
  booked-Booked run (ok (some entry)) w w' same_runs = record {
    state = refl;
    artifact = refl;
    id = refl;
    runs = same_runs;
    time = inr refl;
  }

  charge-Booked :
      (run : PlanRun) (usage : Usage) (w : World B)
      → Booked run (charge o meter run usage w).0 w (charge o meter run usage w).1
  unfolding charge
  charge-Booked run usage w =
      elim meter as (λ m. Booked run (charge o m run usage w).0 w (charge o m run usage w).1) [
        | none ↦ booked-Booked run (ok none) w w refl
        | some m ↦ elim (Bool-cases (same run.account "" || is_empty usage)) [
          | inl free ↦ rw free (booked-Booked run (ok none) w w refl)
          | inr due ↦
              rw due (booked-Booked run (m.charge run.account run.id usage w.billing).0 w _ refl)
        ]
      ]

  put_delivered-Settles :
      (run : PlanRun) (scan : StreamScan) (w : World B)
      → run.state ≡ backend_generation
      → scan.artifact ≢ ""
      → Settles run w
          (put_delivered o meter (lifted (delivered run scan.artifact (o.clock 3))) scan.usage w).1
  unfolding save
  put_delivered-Settles run scan w at artifact =
      let done : PlanRun = record run {
        state = zip_ready;
        updated_at = o.clock 3;
        artifact_id = scan.artifact;
      } in
      let billing = charge-Booked done scan.usage w in
      rw (delivered_lem run scan.artifact (o.clock 3) at) (record {
        final = (charge o meter done scan.usage w).0;
        stored = ap (RunStore.put (o.clock 5) (charge o meter done scan.usage w).0) billing.runs;
        same_id = billing.id;
        timed = billing.time;
        settled = inl (billing.state, λ nothing. artifact (sym billing.artifact ∙ nothing));
      })

  pub settle-Settles :
      (run : PlanRun) (ending : Ending) (w : World B)
      → run.state ≡ backend_generation
      → ending ≢ closed
      → Settles run w (settle o meter run ending w).1
  unfolding settle
  settle-Settles run (raised message) w at not_closed = give_up-Settles run message _ w at
  settle-Settles run gone w at not_closed = give_up-Settles run _ _ w at
  settle-Settles run closed w at not_closed = absurd (not_closed refl)
  settle-Settles run (whole scan) w at not_closed = elim (Bool-cases (same scan.artifact "")) [
    | inl nothing ↦ rw nothing (give_up-Settles run _ (ok tt) w at)
    | inr something ↦ rw something (
        put_delivered-Settles run scan w at (λ nothing. cc ((same_iff scan.artifact "").1 nothing)))
  ]

  pub Stays-open :
      (id : String) (arrivals : List Arrival) (scan : StreamScan) (log : RunLog.RunLog String)
      → Each Stays arrivals
      → (consume o id arrivals scan log).1 ≢ closed
  unfolding consume
  Stays-open id [] scan log all = λ e. cc
  Stays-open id (chunk c ∷ more) scan log all =
      elim (feed (λ line. document (o.loads line)) o.render c scan)
        as (λ r.
          let passed : Passed = elim r [
            | ok scan' ↦ gave c (consume o id more scan' (RunLog.append count id c log))
            | err e ↦ (c ∷ [], raised (o.describe e), RunLog.append count id c log)
          ] in
          passed.1 ≢ closed) [
            | ok scan' ↦ Stays-open id more scan' (RunLog.append count id c log) all.1
            | err e ↦ λ h. cc
          ]
  Stays-open id (left c ∷ more) scan log all = absurd all.0
  Stays-open id (lost ∷ more) scan log all = λ e. cc
  Stays-open id (broke message ∷ more) scan log all = λ e. cc
