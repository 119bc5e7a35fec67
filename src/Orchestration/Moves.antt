-- ===== src/Orchestration/Moves.antt =====
-- The moves of `RunOrchestrator` that a caller makes before a project is generated: `start`, `answer`,
-- `reject`, `approve` and `read` (`application/orchestration.py`), over the store of runs, the log and
-- the meter of `domain/ports.py`.
use code_zard.Prelude.{ℕ, String, Option, none, some, List, if◌then◌else◌}
use code_zard.Prelude.Text.{same, strip}
use code_zard.Prelude.Result.{Result, ok, err}
use code_zard.Json.{Fields}
use code_zard.Billing.Errors.{BillingError}
use code_zard.Billing.Pricing.{Usage}
use code_zard.Billing.Ledger.{LedgerEntry, Balance}
use code_zard.Runs.{Answer, approved}
use code_zard.RunStore as RunStore
use code_zard.RunStore.{RunStore}
use code_zard.RunLog.{RunLog}
use code_zard.Orchestration.Planner.{
  Outside, PlanRun, Raised, unpaid, run_not_found, no_reason, lifted, begin, replan, revise,
}

-- `RunMeter`: what the orchestrator needs from billing. `B` is the state of the billing.
pub record RunMeter (B : Type 0) : Type 0 where
  pub authorize : String → B → Result BillingError Balance × B
  pub charge : String → String → Usage → B → Result BillingError (Option LedgerEntry) × B

pub record World (B : Type 0) : Type 0 where
  pub runs : RunStore Fields
  pub log : RunLog String
  pub billing : B

-- A move returns or raises, and what it wrote before a raise stays written.
abbrev pub Outcome : Type 0 → Type 0 → Type 0
Outcome B A = Result Raised A × World B

abbrev pub known : String → Option PlanRun → Result Raised PlanRun
known id none = err (run_not_found id)
known id (some run) = ok run

module _ {B : Type 0} where
  -- `self._runs.put(run)`, at this instant.
  unfoldable pub save : ℕ → PlanRun → World B → World B
  save now run w = record w { runs = RunStore.put now run w.runs }

  -- `return await self._runs.put(run)` after a step that may raise.
  abbrev pub saved : ℕ → Result Raised PlanRun → World B → Outcome B PlanRun
  saved now (ok run) w = (ok run, save now run w)
  saved now (err e) w = (err e, w)

  -- `self._runs.get(run_id)`, which drops what expired.
  unfoldable pub fetch : ℕ → String → World B → Outcome B PlanRun
  fetch now id w =
      let (found, runs) = RunStore.get now id w.runs in (known id found, record w { runs = runs })

  -- A move of a stored run: it is fetched, changed, and put back unless the change raises.
  abbrev pub after_fetch :
      ℕ → (PlanRun → Result Raised PlanRun) → Outcome B PlanRun → Outcome B PlanRun
  after_fetch later change (ok run, w) = saved later (change run) w
  after_fetch later change (err e, w) = (err e, w)

  unfoldable pub stored_move :
      ℕ → ℕ → (PlanRun → Result Raised PlanRun) → String → World B → Outcome B PlanRun
  unfolding fetch save
  stored_move now later change id w = after_fetch later change (fetch now id w)

  abbrev pub refusal_of : Result BillingError Balance × B → World B → Option BillingError × World B
  refusal_of (ok b, billing) w = (none, record w { billing = billing })
  refusal_of (err e, billing) w = (some e, record w { billing = billing })

  -- What the meter raises before a run starts; without a meter, or an account, it is not asked.
  unfoldable pub authorized : Option (RunMeter B) → String → World B → Option BillingError × World B
  authorized none account w = (none, w)
  authorized (some meter) account w =
      if same account "" then (none, w) else refusal_of (meter.authorize account w.billing) w

  module _ (o : Outside) where
    abbrev pub if_paid : Option BillingError × World B → Result Raised PlanRun → Outcome B PlanRun
    if_paid (some e, w) next = (err (unpaid e), w)
    if_paid (none, w) next = saved (o.clock 4) next w

    -- `start`
    unfoldable pub start : Option (RunMeter B) → String → String → World B → Outcome B PlanRun
    unfolding authorized save begin
    start meter idea account w = if_paid (authorized meter account w) (begin o idea account)

    -- `answer`
    unfoldable pub answer : String → List Answer → World B → Outcome B PlanRun
    unfolding stored_move replan
    answer id answers w = stored_move (o.clock 0) (o.clock 3) (replan o answers) id w

    -- `reject`
    unfoldable pub reject : String → String → World B → Outcome B PlanRun
    unfolding stored_move revise strip
    reject id feedback w =
        let reason = strip feedback in
        if same reason ""
        then (err no_reason, w)
        else stored_move (o.clock 0) (o.clock 4) (revise o reason) id w

    -- `approve`
    unfoldable pub approve : String → World B → Outcome B PlanRun
    unfolding stored_move approved
    approve id w =
        stored_move (o.clock 0) (o.clock 2) (λ run. lifted (approved run (o.clock 1))) id w

    -- `read`
    unfoldable pub read : String → World B → Outcome B PlanRun
    unfolding fetch
    read id w = fetch (o.clock 0) id w
