-- ===== src/Orchestration/Metered.antt =====
-- What the orchestrator does to the billing it runs on: only what the meter's own methods do.
use code_zard.Prelude.{ℕ, String, Option, none, some, Bool-cases, inl, inr, ◌||◌}
use code_zard.Prelude.Text.{same, strip}
use code_zard.Prelude.Result.{Result, ok, err}
use code_zard.Billing.Errors.{BillingError}
use code_zard.Billing.Pricing.{Usage, is_empty}
use code_zard.Billing.Ledger.{Balance}
use code_zard.Runs.{generating, delivered}
use code_zard.Proxy.{InboundRequest}
use code_zard.Orchestration.Planner.{Outside, PlanRun, Raised, lifted, begin, revise}
use code_zard.Orchestration.Moves.{
  RunMeter, World, Outcome, save, saved, fetch, after_fetch, stored_move, refusal_of, authorized,
  if_paid, start, reject, read,
}
use code_zard.Orchestration.Generation.{
  Stream, Ending, whole, raised, gone, closed, charge, put_failed, put_delivered, settle, flow,
  launched, launch, generate,
}

module _ {B : Type 0} (P : B → Type 0) where
  -- The methods of a meter keep a property of the billing.
  pub record KeepsIt (m : RunMeter B) : Type 0 where
    pub by_authorize : (account : String) (b : B) → P b → P (m.authorize account b).1
    pub by_charge : (account id : String) (u : Usage) (b : B) → P b → P (m.charge account id u b).1

  abbrev pub MeterKeeps : Option (RunMeter B) → Type 0
  MeterKeeps none = Unit
  MeterKeeps (some m) = KeepsIt m

  saved_keeps :
      (now : ℕ) (r : Result Raised PlanRun) (w : World B)
      → P w.billing
      → P (saved now r w).1.billing
  unfolding save
  saved_keeps now (ok run) w p = p
  saved_keeps now (err e) w p = p

  -- Every move but the start and the generation leaves the billing alone.
  pub stored_move_keeps :
      (now later : ℕ) (change : PlanRun → Result Raised PlanRun) (id : String) (w : World B)
      → P w.billing
      → P (stored_move now later change id w).1.billing
  unfolding stored_move fetch
  stored_move_keeps now later change id w p = go (fetch now id w) p
    where
      go :
          (fetched : Outcome B PlanRun)
          → P fetched.1.billing
          → P (after_fetch later change fetched).1.billing
      go (ok run, w') q = saved_keeps later (change run) w' q
      go (err e, w') q = q

  pub read_keeps :
      (o : Outside) (id : String) (w : World B) → P w.billing → P (read o id w).1.billing
  unfolding read
  read_keeps o id w p = p

  pub reject_keeps :
      (o : Outside) (id feedback : String) (w : World B)
      → P w.billing
      → P (reject o id feedback w).1.billing
  unfolding reject
  reject_keeps o id feedback w p = elim (Bool-cases (same (strip feedback) "")) [
    | inl nothing ↦ rw nothing p
    | inr reason ↦
        rw reason (stored_move_keeps (o.clock 0) (o.clock 4) (revise o (strip feedback)) id w p)
  ]

  refusal_keeps :
      (r : Result BillingError Balance × B) (w : World B) → P r.1 → P (refusal_of r w).1.billing
  refusal_keeps (ok b, billing) w p = p
  refusal_keeps (err e, billing) w p = p

  authorized_keeps :
      (meter : Option (RunMeter B)) (account : String) (w : World B)
      → MeterKeeps meter
      → P w.billing
      → P (authorized meter account w).1.billing
  unfolding authorized
  authorized_keeps none account w k p = p
  authorized_keeps (some m) account w k p = elim (Bool-cases (same account "")) [
    | inl nobody ↦ rw nobody p
    | inr payer ↦
        rw payer
          (refusal_keeps (m.authorize account w.billing) w (k.by_authorize account w.billing p))
  ]

  pub start_keeps :
      (o : Outside) (meter : Option (RunMeter B)) (idea account : String) (w : World B)
      → MeterKeeps meter
      → P w.billing
      → P (start o meter idea account w).1.billing
  unfolding start
  start_keeps o meter idea account w k p =
      go (authorized meter account w) (authorized_keeps meter account w k p)
    where
      go :
          (asked : Option BillingError × World B)
          → P asked.1.billing
          → P (if_paid o asked (begin o idea account)).1.billing
      go (some e, w') q = q
      go (none, w') q = saved_keeps (o.clock 4) (begin o idea account) w' q

  module _ (o : Outside) (meter : Option (RunMeter B)) (keeps : MeterKeeps meter) where
    charge_keeps :
        (run : PlanRun) (usage : Usage) (w : World B)
        → P w.billing
        → P (charge o meter run usage w).1.billing
    unfolding charge
    charge_keeps run usage w p = go meter keeps
      where
        go : (m : Option (RunMeter B)) → MeterKeeps m → P (charge o m run usage w).1.billing
        go none k = p
        go (some m) k = elim (Bool-cases (same run.account "" || is_empty usage)) [
          | inl free ↦ rw free p
          | inr due ↦ rw due (k.by_charge run.account run.id usage w.billing p)
        ]

    put_failed_keeps :
        (r : Result Raised PlanRun) (result : Result Raised Unit) (w : World B)
        → P w.billing
        → P (put_failed o meter r result w).1.billing
    unfolding save
    put_failed_keeps (ok failed) result w p = p
    put_failed_keeps (err e) result w p = p

    put_delivered_keeps :
        (r : Result Raised PlanRun) (usage : Usage) (w : World B)
        → P w.billing
        → P (put_delivered o meter r usage w).1.billing
    unfolding save
    put_delivered_keeps (ok done) usage w p = charge_keeps done usage w p
    put_delivered_keeps (err e) usage w p = p

    settle_keeps :
        (run : PlanRun) (ending : Ending) (w : World B)
        → P w.billing
        → P (settle o meter run ending w).1.billing
    unfolding settle
    settle_keeps run (raised message) w p = put_failed_keeps _ _ w p
    settle_keeps run gone w p = put_failed_keeps _ _ w p
    settle_keeps run closed w p = p
    settle_keeps run (whole scan) w p = elim (Bool-cases (same scan.artifact "")) [
      | inl nothing ↦ rw nothing (put_failed_keeps _ (ok tt) w p)
      | inr something ↦
          rw something
            (put_delivered_keeps (lifted (delivered run scan.artifact (o.clock 3))) scan.usage w p)
    ]

    flow_keeps :
        (run : PlanRun) (r : Result String Stream) (w : World B)
        → P w.billing
        → P (flow o meter run r w).1.1.billing
    flow_keeps run (err e) w p = p
    flow_keeps run (ok s) w p = settle_keeps run _ _ p

    module _ (stream : String → InboundRequest → Result String Stream) where
      launched_keeps :
          (r : Result Raised PlanRun) (w : World B)
          → P w.billing
          → P (launched o meter stream r w).1.1.billing
      unfolding save
      launched_keeps (err e) w p = p
      launched_keeps (ok run) w p = flow_keeps run _ (save (o.clock 2) run w) p

      pub generate_keeps :
          (id : String) (w : World B) → P w.billing → P (generate o meter stream id w).1.1.billing
      unfolding generate fetch
      generate_keeps id w p = go (fetch (o.clock 0) id w) p
        where
          go :
              (fetched : Outcome B PlanRun)
              → P fetched.1.billing
              → P (launch o meter stream fetched).1.1.billing
          go (err e, w') q = q
          go (ok stored, w') q = launched_keeps (lifted (generating stored (o.clock 1))) w' q
