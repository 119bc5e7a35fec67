-- ===== src/Orchestration/Charges.antt =====
-- What a generation bills (`generate` and `_charge` of `application/orchestration.py`), and which project
-- a caller reaches (`open_console` and `open_download`).
use mathlib.Core.Path.{subst}
use code_zard.Prelude.{
  ◌<◌, String, Option, none, some, ◌≡◌, ◌≢◌, ◌⊎◌, refl, arith, Bool-cases, inl, inr, ◌||◌,
  if◌then◌else◌, ltb, ap,
}
use code_zard.Prelude.Text.{same, same_iff}
use code_zard.Prelude.Result.{Result, ok, err, ◌>>=◌}
use code_zard.Billing.Pricing.{Usage, is_empty}
use code_zard.Runs.{plan_approved, backend_generation}
use code_zard.RunLog as RunLog
use code_zard.Proxy.{InboundRequest}
use code_zard.Orchestration.Planner.{Outside, PlanRun, Raised, console_disabled}
use code_zard.Orchestration.Moves.{RunMeter, World, Outcome, save, fetch}
use code_zard.Orchestration.Scan.{StreamScan, fresh}
use code_zard.Orchestration.Generation as Generation
use code_zard.Orchestration.Generation.{
  Stream, Ending, whole, raised, gone, closed, consume, charge, put_failed, give_up, put_delivered,
  settle, flow, generation_request,
}
use code_zard.Orchestration.Delivery.{running, generate-flow}
use code_zard.Orchestration.Settles.{delivered_lem}
use code_zard.Orchestration.Project.{
  open_console, open_download, console_request, download_request, collected, checked, refused,
  opened, artifact_in, open_stream,
}

module _ {B : Type 0} (o : Outside) (meter : Option (RunMeter B)) where
  -- The billing after a generation: untouched, or one charge of the run's account, for the usage that
  -- was read from a stream that ended by itself with an artifact.
  abbrev pub Billed : PlanRun → Ending → World B → World B → Type 0
  Billed run ending before after =
      (after.billing ≡ before.billing)
      ⊎ ((m : RunMeter B) × (scan : StreamScan) × (meter ≡ some m)
          × (ending ≡ whole scan)
          × (scan.artifact ≢ "")
          × (after.billing ≡ (m.charge run.account run.id scan.usage before.billing).1))

  put_failed-billing :
      (r : Result Raised PlanRun) (result : Result Raised Unit) (w : World B)
      → (put_failed o meter r result w).1.billing ≡ w.billing
  unfolding save
  put_failed-billing (ok failed) result w = refl
  put_failed-billing (err e) result w = refl

  charge-billing :
      (run : PlanRun) (usage : Usage) (w : World B)
      → ((charge o meter run usage w).1.billing ≡ w.billing)
        ⊎ ((m : RunMeter B) × (meter ≡ some m)
            × ((charge o meter run usage w).1.billing
                ≡ (m.charge run.account run.id usage w.billing).1))
  unfolding charge
  charge-billing run usage w = go meter
    where
      go :
          (asked : Option (RunMeter B))
          → ((charge o asked run usage w).1.billing ≡ w.billing)
            ⊎ ((m : RunMeter B) × (asked ≡ some m)
                × ((charge o asked run usage w).1.billing
                    ≡ (m.charge run.account run.id usage w.billing).1))
      go none = inl refl
      go (some m) = elim (Bool-cases (same run.account "" || is_empty usage)) [
        | inl free ↦ inl (rw free)
        | inr due ↦ inr (m, refl, rw due)
      ]

  settle-Billed :
      (run : PlanRun) (ending : Ending) (w : World B)
      → run.state ≡ backend_generation
      → Billed run ending w (settle o meter run ending w).1
  unfolding settle save
  settle-Billed run (raised message) w at = inl (put_failed-billing _ _ w)
  settle-Billed run gone w at = inl (put_failed-billing _ _ w)
  settle-Billed run closed w at = inl refl
  settle-Billed run (whole scan) w at = elim (Bool-cases (same scan.artifact "")) [
    | inl nothing ↦ rw nothing (inl (put_failed-billing _ (ok tt) w))
    | inr something ↦
        rw (something, delivered_lem run scan.artifact (o.clock 3) at)
          (elim (charge-billing _ scan.usage w) [
            | inl untouched ↦ inl untouched
            | inr (m, is_meter, billed) ↦ inr (
              m,
              scan,
              is_meter,
              refl,
              (λ nothing. cc ((same_iff scan.artifact "").1 nothing)),
              billed,
            )
          ])
  ]

  module _ (stream : String → InboundRequest → Result String Stream) where
    -- The generation of an approved run that was fetched bills nothing, or the run's account once, for
    -- what was read from a stream that ended by itself with an artifact.
    pub generate-Billed :
        (id : String) (w w1 : World B) (stored : PlanRun) (s : Stream)
        → fetch (o.clock 0) id w ≡ (ok stored, w1)
        → stored.state ≡ plan_approved
        → ((r : InboundRequest) → stream o.settings.backend_service r ≡ ok s)
        → let log = RunLog.start stored.id w1.log in
          let ending = (consume o stored.id s.arrivals fresh log).1 in
          Billed stored ending w1 (Generation.generate o meter stream id w).1.1
    unfolding save
    generate-Billed id w w1 stored s fetched at opens =
        rw
          (
            generate-flow o meter stream id w w1 stored fetched at,
            opens (generation_request o meter (running o meter stored)),
          )
          (settle-Billed (running o meter stored) _ _ refl)

ok_injective : {t s : Stream} → ◌≡◌ {A = Result Raised Stream} (ok t) (ok s) → t ≡ s
ok_injective h = cc

module _ (o : Outside) (stream : String → InboundRequest → Result String Stream) where
  checked_lem :
      (answer : Result String Stream) (s : Stream)
      → checked o stream answer ≡ ok s
      → (answer ≡ ok s) × (s.status < 400)
  checked_lem (err e) s h = absurd (cc)
  checked_lem (ok t) s h = elim (Bool-cases (ltb t.status 400)) [
    | inl fine ↦
        let same_stream : t ≡ s = ok_injective (rw fine at h) in
        (ap ok same_stream, subst (λ x. x.status < 400) same_stream (ground arith))
    | inr refusal ↦ absurd (never (collected t.arrivals) (rw refusal at h))
  ]
    where
      never :
          (body : Result Raised String)
          → ¬ ((body >>= λ b. err (refused o stream t.status b)) ≡ ok s)
      never (ok b) e = cc
      never (err x) e = cc

-- Whom a caller's request reaches: the agent's own answer to the request for the artifact of the run
-- that the caller named, which has one; or the caller gets nothing from the agent.
module _ {B : Type 0} (o : Outside) (stream : String → InboundRequest → Result String Stream) where
  abbrev pub Reaches : (String → InboundRequest) → Outcome B PlanRun → Outcome B Stream → Type 0
  Reaches request (err e, w) opened = (opened ≡ (err e, w))
  Reaches request (ok run, w) (err e, w') = (w' ≡ w)
  Reaches request (ok run, w) (ok s, w') =
      (w' ≡ w)
      × (run.artifact_id ≢ "")
      × (stream o.settings.backend_service (request run.artifact_id) ≡ ok s)
      × (s.status < 400)

  opened-Reaches :
      (id : String) (request : String → InboundRequest) (fetched : Outcome B PlanRun)
      → Reaches request fetched (opened o stream request (artifact_in o stream id fetched))
  unfolding open_stream
  opened-Reaches id request (err e, w) = refl
  opened-Reaches id request (ok run, w) = elim (Bool-cases (same run.artifact_id "")) [
    | inl nothing ↦ rw (nothing, Reaches) refl
    | inr something ↦ rw (something) (
        go (checked o stream (stream o.settings.backend_service (request run.artifact_id))) refl
          (λ nothing. cc ((same_iff run.artifact_id "").1 nothing)))
  ]
    where
      go :
          (r : Result Raised Stream)
          → checked o stream (stream o.settings.backend_service (request run.artifact_id)) ≡ r
          → run.artifact_id ≢ ""
          → Reaches request (ok run, w) (r, w)
      go (err e) answers named = refl
      go (ok s) answers named =
          let (is_answer, fine) = checked_lem o stream _ s answers in (refl, named, is_answer, fine)

  -- The download reaches the artifact of the run that was named.
  open_download-Reaches :
      (id : String) (w : World B)
      → Reaches (download_request o stream) (fetch (o.clock 0) id w) (open_download o stream id w)
  unfolding open_download
  open_download-Reaches id w =
      opened-Reaches id (download_request o stream) (fetch (o.clock 0) id w)

  -- A download reaches the agent's own answer for the artifact of the run that was named, and only an
  -- answer that is no refusal. So does a command, when the console is on; when it is off, it changes
  -- nothing and raises.
  pub project-Reaches :
      (id command : String) (w : World B)
      → Reaches (download_request o stream) (fetch (o.clock 0) id w) (open_download o stream id w)
        × (if o.settings.console
            then Reaches
                (console_request o stream command)
                (fetch (o.clock 0) id w)
                (open_console o stream id command w)
            else open_console o stream id command w ≡ (err console_disabled, w))
  unfolding open_console
  project-Reaches id command w = (
    open_download-Reaches id w,
    elim (Bool-cases o.settings.console) [
      | inl on ↦
          rw on (opened-Reaches id (console_request o stream command) (fetch (o.clock 0) id w))
      | inr off ↦ rw off
    ],
  )
