-- ===== src/Orchestration/Refinement/Generating.antt =====
-- A generation keeps the stored runs within the state machine.
use code_zard.Prelude.{String, Option, none, some, arith, Bool-cases, inl, inr, ◌||◌}
use code_zard.Prelude.Text.{same}
use code_zard.Prelude.Result.{Result, ok, err}
use code_zard.Billing.Errors.{BillingError}
use code_zard.Billing.Pricing.{Usage, is_empty}
use code_zard.Billing.Ledger.{LedgerEntry}
use code_zard.Runs.{max_rounds, generating, delivered, failing}
use code_zard.Runs.Gate.{generating_move, delivered_move, failed_move, make}
use code_zard.Proxy.{InboundRequest}
use code_zard.Orchestration.Planner.{Outside, PlanRun, Raised, lifted}
use code_zard.Orchestration.Moves.{RunMeter, World, Outcome, save, fetch}
use code_zard.Orchestration.Generation.{
  Stream, Ending, whole, raised, gone, closed, charge, booked, put_failed, give_up, put_delivered,
  settle, flow, launched, launch, generate,
}
use code_zard.Orchestration.Machine.{IsWithin, Yields, make-Yields, billed-IsWithin}
use code_zard.Orchestration.Refinement.Calls.{AllWithin, save-AllWithin, fetch-AllWithin}

module _ {B : Type 0} where
  module _ (o : Outside) (meter : Option (RunMeter B)) where
    put_failed-AllWithin :
        (r : Result Raised PlanRun) (result : Result Raised Unit) (w : World B)
        → AllWithin w
        → Yields max_rounds r
        → AllWithin (put_failed o meter r result w).1
    put_failed-AllWithin (ok failed) result w all y = save-AllWithin (o.clock 5) failed w all y
    put_failed-AllWithin (err e) result w all y = all

    give_up-AllWithin :
        (run : PlanRun) (message : String) (result : Result Raised Unit) (w : World B)
        → AllWithin w
        → IsWithin max_rounds run
        → AllWithin (give_up o meter run message result w).1
    unfolding make
    give_up-AllWithin run message result w all y =
        put_failed-AllWithin (lifted (failing run message (o.clock 3))) result w all
          (make-Yields max_rounds run (failed_move message) (o.clock 3) y (omega arith))

    booked-IsWithin :
        (run : PlanRun) (r : Result BillingError (Option LedgerEntry))
        → IsWithin max_rounds run
        → IsWithin max_rounds (booked o meter run r)
    booked-IsWithin run (err e) y = y
    booked-IsWithin run (ok none) y = y
    booked-IsWithin run (ok (some entry)) y = billed-IsWithin run _ (o.clock 4) y

    charge-AllWithin :
        (run : PlanRun) (usage : Usage) (w : World B)
        → AllWithin w
        → IsWithin max_rounds run
        → IsWithin max_rounds (charge o meter run usage w).0
          × AllWithin (charge o meter run usage w).1
    unfolding charge
    charge-AllWithin run usage w all y =
        elim meter
          as (λ m.
            IsWithin max_rounds (charge o m run usage w).0 × AllWithin (charge o m run usage w).1) [
              | none ↦ (y, all)
              | some m ↦ elim (Bool-cases (same run.account "" || is_empty usage)) [
                | inl free ↦ rw free (y, all)
                | inr due ↦
                    rw due
                      (booked-IsWithin run (m.charge run.account run.id usage w.billing).0 y, all)
              ]
            ]

    put_delivered-AllWithin :
        (r : Result Raised PlanRun) (usage : Usage) (w : World B)
        → AllWithin w
        → Yields max_rounds r
        → AllWithin (put_delivered o meter r usage w).1
    put_delivered-AllWithin (ok done) usage w all y =
        let billed = charge-AllWithin done usage w all y in
        save-AllWithin (o.clock 5) (charge o meter done usage w).0 (charge o meter done usage w).1
          billed.1 billed.0
    put_delivered-AllWithin (err e) usage w all y = all

    settle-AllWithin :
        (run : PlanRun) (ending : Ending) (w : World B)
        → AllWithin w
        → IsWithin max_rounds run
        → AllWithin (settle o meter run ending w).1
    unfolding settle make
    settle-AllWithin run (raised message) w all y = give_up-AllWithin run message _ w all y
    settle-AllWithin run gone w all y = give_up-AllWithin run _ _ w all y
    settle-AllWithin run closed w all y = all
    settle-AllWithin run (whole scan) w all y = elim (Bool-cases (same scan.artifact "")) [
      | inl nothing ↦ rw nothing (give_up-AllWithin run _ (ok tt) w all y)
      | inr something ↦ rw something (
          put_delivered-AllWithin (lifted (delivered run scan.artifact (o.clock 3))) scan.usage w
            all
            (make-Yields max_rounds run (delivered_move scan.artifact) (o.clock 3) y (omega arith)))
    ]

    flow-AllWithin :
        (run : PlanRun) (r : Result String Stream) (w : World B)
        → AllWithin w
        → IsWithin max_rounds run
        → AllWithin (flow o meter run r w).1.1
    flow-AllWithin run (err e) w all y = all
    flow-AllWithin run (ok s) w all y = settle-AllWithin run _ _ all y

    module _ (stream : String → InboundRequest → Result String Stream) where
      launched-AllWithin :
          (r : Result Raised PlanRun) (w : World B)
          → AllWithin w
          → Yields max_rounds r
          → AllWithin (launched o meter stream r w).1.1
      launched-AllWithin (err e) w all y = all
      launched-AllWithin (ok run) w all y =
          flow-AllWithin run _ (save (o.clock 2) run w) (save-AllWithin (o.clock 2) run w all y) y

      launch-AllWithin :
          (fetched : Outcome B PlanRun)
          → Yields max_rounds fetched.0
          → AllWithin fetched.1
          → AllWithin (launch o meter stream fetched).1.1
      unfolding make
      launch-AllWithin (err e, w) y all = all
      launch-AllWithin (ok stored, w) y all =
          launched-AllWithin (lifted (generating stored (o.clock 1))) w all
            (make-Yields max_rounds stored generating_move (o.clock 1) y (omega arith))

      pub generate-AllWithin :
          (id : String) (w : World B) → AllWithin w → AllWithin (generate o meter stream id w).1.1
      unfolding generate
      generate-AllWithin id w all =
          let got = fetch-AllWithin (o.clock 0) id w all in
          launch-AllWithin (fetch (o.clock 0) id w) got.0 got.1
