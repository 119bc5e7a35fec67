-- ===== src/Orchestration/Delivery.antt =====
-- How a generation ends (`generate` of `application/orchestration.py`).
use code_zard.Prelude.{
  ℕ, ◌+◌, ◌≤◌, String, Option, some, List, ◌∷◌, ◌≡◌, refl, arith, inl, inr, Each,
}
use code_zard.Prelude.Result.{Result, ok, err}
use code_zard.Json.{Fields}
use code_zard.Runs.{plan_approved, backend_generation}
use code_zard.RunStore as RunStore
use code_zard.RunStore.{RunStore}
use code_zard.RunStore.Laws.{get-put}
use code_zard.RunLog as RunLog
use code_zard.Proxy.{InboundRequest}
use code_zard.Orchestration.Planner.{Outside, PlanRun, upstream, closed_early}
use code_zard.Orchestration.Moves.{RunMeter, World, save, fetch}
use code_zard.Orchestration.Scan.{fresh}
use code_zard.Orchestration.Generation as Generation
use code_zard.Orchestration.Generation.{
  Arrival, chunk, left, lost, broke, Stream, Ending, whole, raised, gone, closed, Passed, gave,
  consume, charge, booked, put_failed, give_up, put_delivered, settle, wind_up, generation_request,
  flow, launched, launch,
}
use code_zard.Orchestration.Settles.{
  Settled, Settles, settle-Settles, Stays-open, Stays, generating_lem,
}

module _ {B : Type 0} (o : Outside) (meter : Option (RunMeter B)) where
  put_kept :
      (now : ℕ) (run : PlanRun) (s : RunStore Fields)
      → ((RunStore.put now run s).ttl ≡ s.ttl) × ((RunStore.put now run s).max ≡ s.max)
  unfolding RunStore.put
  put_kept now run s = (refl, refl)

  Settles-found :
      (run : PlanRun) (before after : World B) (later : ℕ)
      (settles : Settles o meter run before after)
      → 1 ≤ before.runs.max
      → later ≤ o.clock 3 + before.runs.ttl
      → later ≤ o.clock 4 + before.runs.ttl
      → (RunStore.get later run.id after.runs).0 ≡ some settles.final
  Settles-found run before after later settles room soon soon' =
      let in_time : later ≤ settles.final.updated_at + before.runs.ttl = elim settles.timed [
        | inl third ↦ omega (arith, third)
        | inr fourth ↦ omega (arith, fourth)
      ] in
      rw (settles.stored, ← settles.same_id)
        (get-put (o.clock 5) later settles.final before.runs room in_time)

  -- An approved run while its project is generated.
  abbrev pub running : PlanRun → PlanRun
  running stored = record stored { state = backend_generation; updated_at = o.clock 1 }

  module _ (stream : String → InboundRequest → Result String Stream) where
    generate-launch :
        (id : String) (w : World B)
        → Generation.generate o meter stream id w ≡ launch o meter stream (fetch (o.clock 0) id w)
    unfolding Generation.generate
    generate-launch id w = refl

    -- `generate` puts the run before it opens the stream.
    pub generate-flow :
        (id : String) (w w1 : World B) (stored : PlanRun)
        → fetch (o.clock 0) id w ≡ (ok stored, w1)
        → stored.state ≡ plan_approved
        → Generation.generate o meter stream id w
          ≡ flow o meter
              (running stored)
              (stream o.settings.backend_service (generation_request o meter (running stored)))
              (save (o.clock 2) (running stored) w1)
    generate-flow id w w1 stored fetched at =
        rw (generate-launch id w, fetched, launch, generating_lem stored (o.clock 1) at)

    module _ (id : String) (w w1 : World B) (stored : PlanRun)
        (fetched : fetch (o.clock 0) id w ≡ (ok stored, w1))
        (at : stored.state ≡ plan_approved) where
      -- A generation that a caller watches to its end settles: with a stream that opened, and that the
      -- caller does not close before it ends, breaks or is cancelled, an approved run that was fetched
      -- is afterwards found under its id with its project, or as failed.
      pub generate_settles :
          (s : Stream) (later : ℕ)
          → ((r : InboundRequest) → stream o.settings.backend_service r ≡ ok s)
          → Each Stays s.arrivals
          → 1 ≤ w1.runs.max
          → later ≤ o.clock 3 + w1.runs.ttl
          → later ≤ o.clock 4 + w1.runs.ttl
          → let after = (Generation.generate o meter stream id w).1.1 in
            (final : PlanRun) × ((RunStore.get later stored.id after.runs).0 ≡ some final)
            × Settled final
      unfolding save
      generate_settles s later opens all room soon soon' =
          let run = running stored in
          let w2 = save (o.clock 2) run w1 in
          let passed = consume o run.id s.arrivals fresh (RunLog.start run.id w2.log) in
          let w3 : World B = record w2 { log = RunLog.end run.id passed.2 } in
          let settles =
            settle-Settles o meter run passed.1 w3 refl
              (Stays-open o meter run.id s.arrivals fresh (RunLog.start run.id w2.log) all) in
          let kept = put_kept (o.clock 2) run w1.runs in
          rw (generate-flow id w w1 stored fetched at, opens (generation_request o meter run))
            (
              settles.final,
              Settles-found run w3 _ later settles (rw kept.1 room) (rw kept.0 soon)
                  (rw kept.0 soon'),
              settles.settled,
            )

      -- When the stream does not open, the run that was fetched stays where `generate` put it: found
      -- under its id as generating, with no error of its own. `generate` raises what the proxy raised.
      pub generate_unopened :
          (e : String) (later : ℕ)
          → ((r : InboundRequest) → stream o.settings.backend_service r ≡ err e)
          → 1 ≤ w1.runs.max
          → later ≤ o.clock 1 + w1.runs.ttl
          → let (r, after) = (Generation.generate o meter stream id w).1 in
            (r ≡ err (upstream e))
            × ((RunStore.get later stored.id after.runs).0 ≡ some (running stored))
      unfolding save
      generate_unopened e later refuses room soon =
          rw
            (
              generate-flow id w w1 stored fetched at,
              refuses (generation_request o meter (running stored)),
            )
            (refl, get-put (o.clock 2) later (running stored) w1.runs room soon)

      -- So it stays when the caller closes the stream while it has the first chunk.
      generate_closed :
          (s : Stream) (c : String) (more : List Arrival) (later : ℕ)
          → ((r : InboundRequest) → stream o.settings.backend_service r ≡ ok s)
          → s.arrivals ≡ left c ∷ more
          → 1 ≤ w1.runs.max
          → later ≤ o.clock 1 + w1.runs.ttl
          → let (r, after) = (Generation.generate o meter stream id w).1 in
            (r ≡ err closed_early)
            × ((RunStore.get later stored.id after.runs).0 ≡ some (running stored))
      unfolding save settle consume
      generate_closed s c more later opens closes room soon =
          rw
            (
              generate-flow id w w1 stored fetched at,
              opens (generation_request o meter (running stored)),
              flow,
              closes,
            )
            (refl, get-put (o.clock 2) later (running stored) w1.runs room soon)
