-- ===== src/Gateway.antt =====
-- src/gateway/bootstrap.py: the parts of the gateway on one store. The orchestrator's meter is the billing
-- service, on whose tables the x402 service works too.
pub mod Wiring
mod Tests
use code_zard.Prelude.{ℕ, String, Option, some, Bool, List, [], ◌∷◌, ◌≡◌}
use code_zard.Prelude.Int.{pos, max_ℤ}
use code_zard.Prelude.Result.{Result}
use code_zard.Billing.Ledger.{total, balance_of}
use code_zard.Billing.Ledger.Conservation.{net, total-balance_of}
use code_zard.Runs.{Answer, approved}
use code_zard.Store.{all_entries, empty_db}
use code_zard.Service.World as Service
use code_zard.Service.World.{Env}
use code_zard.Service.Accounts as Accounts
use code_zard.Service.Periods as Periods
use code_zard.Service.Sales.{or_raise}
use code_zard.Service.Subscribing.{ChainWriter, submit_subscription, subscribe_transaction, built}
use code_zard.Service.Keeps.{Keeps, keeps_rules}
use code_zard.Service.Soundness.{IsSound}
use code_zard.Service.Conserves.{charge-IsSound, authorize-IsSound, settle_period-IsSound}
use code_zard.Service.Reachable.{Call, run, run-IsSound, Keeps-or_raise, empty-IsSound}
use code_zard.Billing.Money.{Money}
use code_zard.X402.{Facilitator, PaymentPayload, PaymentRequirements}
use code_zard.X402.Payments.{requirements, challenge, verify, settle, redeem}
use code_zard.X402.Books.{
  redeem-IsSound, requirements-IsSound, challenge-IsSound, verify-Keeps, settle-IsSound,
}
use code_zard.Proxy.{InboundRequest}
use code_zard.Orchestration.Planner.{Outside, replan, lifted}
use code_zard.Orchestration.Moves.{RunMeter, World, start, answer, reject, approve, read}
use code_zard.Orchestration.Generation.{Stream, generate}
use code_zard.Orchestration.Metered.{
  KeepsIt, stored_move_keeps, read_keeps, reject_keeps, start_keeps, generate_keeps,
}

-- `meter=billing`
abbrev pub service_meter : Env → RunMeter Service.World
service_meter env = record {
  authorize = λ account w. Periods.authorize env account (pos 0) w;
  charge = λ account id u w. Accounts.charge env account id u w;
}

-- A call of one of the parts, with what it meets outside.
pub data Event : Type 0 where
  started : Outside → String → String → Event
  answered : Outside → String → List Answer → Event
  rejected : Outside → String → String → Event
  approved_run : Outside → String → Event
  read_run : Outside → String → Event
  generated : Outside → (String → InboundRequest → Result String Stream) → String → Event
  billed : Call → Event
  -- The methods of the x402 service.
  quoted : String → String → Option Money → Event
  challenged : String → String → String → Event
  verified settled : PaymentPayload → PaymentRequirements → Event
  redeemed : String → String → Event
  subscribing : String → String → Event
  submitted : String → String → Event

abbrev pub GatewayWorld : Type 0
GatewayWorld = World Service.World

module _ (f : Facilitator) (writer : ChainWriter) where
  abbrev on_billing : (Service.World → Service.World) → GatewayWorld → GatewayWorld
  on_billing change w = record w { billing = change w.billing }

  -- What an event leaves, whether the call returns or raises.
  unfoldable pub happen : Event → GatewayWorld → GatewayWorld
  unfolding run
  happen (started o idea account) w = (start o (some (service_meter f.env)) idea account w).1
  happen (answered o id answers) w = (answer o id answers w).1
  happen (rejected o id feedback) w = (reject o id feedback w).1
  happen (approved_run o id) w = (approve o id w).1
  happen (read_run o id) w = (read o id w).1
  happen (generated o stream id) w = (generate o (some (service_meter f.env)) stream id w).1.1
  happen (billed call) w = on_billing (run f.env call) w
  happen (quoted account resource price) w =
      on_billing (λ b. (requirements f account resource price b).1) w
  happen (challenged account reason resource) w =
      on_billing (λ b. (challenge f account reason resource b).1) w
  happen (verified p r) w = on_billing (λ b. (verify f p r b).1) w
  happen (settled p r) w = on_billing (λ b. (settle f p r b).1) w
  happen (redeemed header resource) w = on_billing (λ b. (redeem f header resource b).1) w
  happen (subscribing account plan_id) w =
      on_billing (λ b. (subscribe_transaction f.env writer account plan_id b).1) w
  happen (submitted account signed) w =
      on_billing (λ b. (submit_subscription f.env writer account signed b).1) w

  unfoldable pub happen_all : List Event → GatewayWorld → GatewayWorld
  unfolding happen
  happen_all [] w = w
  happen_all (e ∷ es) w = happen_all es (happen e w)

  abbrev Sound : Service.World → Type 0
  Sound b = IsSound b.db

  meter_keeps : KeepsIt Sound (service_meter f.env)
  meter_keeps = record {
    by_authorize = λ account b h. (authorize-IsSound f.env account (pos 0)).at b h;
    by_charge = λ account id u b h. (charge-IsSound f.env account id u).at b h;
  }

  built-IsSound : (account : String) (plan : _) → Keeps IsSound (built f.env writer account plan)
  built-IsSound account plan = search (keeps_rules, Keeps-or_raise) depth 9

  subscribe_transaction-IsSound :
      (account plan_id : String)
      → Keeps IsSound (subscribe_transaction f.env writer account plan_id)
  unfolding subscribe_transaction
  subscribe_transaction-IsSound account plan_id = search (keeps_rules, built-IsSound)

  submit_subscription-IsSound :
      (account signed : String) → Keeps IsSound (submit_subscription f.env writer account signed)
  unfolding submit_subscription
  submit_subscription-IsSound account signed =
      search (keeps_rules, Keeps-or_raise, settle_period-IsSound f.env) depth 9

  happen-Sound : (e : Event) (w : GatewayWorld) → Sound w.billing → Sound (happen e w).billing
  unfolding happen answer approve
  happen-Sound (started o idea account) w h =
      start_keeps Sound o (some (service_meter f.env)) idea account w meter_keeps h
  happen-Sound (answered o id answers) w h =
      stored_move_keeps Sound (o.clock 0) (o.clock 3) (replan o answers) id w h
  happen-Sound (rejected o id feedback) w h = reject_keeps Sound o id feedback w h
  happen-Sound (approved_run o id) w h =
      stored_move_keeps Sound (o.clock 0) (o.clock 2) (λ r. lifted (approved r (o.clock 1))) id w h
  happen-Sound (read_run o id) w h = read_keeps Sound o id w h
  happen-Sound (generated o stream id) w h =
      generate_keeps Sound o (some (service_meter f.env)) meter_keeps stream id w h
  happen-Sound (billed call) w h = run-IsSound f.env call w.billing h
  happen-Sound (quoted account resource price) w h =
      (requirements-IsSound f account resource price).at w.billing h
  happen-Sound (challenged account reason resource) w h =
      (challenge-IsSound f account reason resource).at w.billing h
  happen-Sound (verified p r) w h = (verify-Keeps f {P = IsSound} p r).at w.billing h
  happen-Sound (settled p r) w h = (settle-IsSound f p r).at w.billing h
  happen-Sound (redeemed header resource) w h = (redeem-IsSound f header resource).at w.billing h
  happen-Sound (subscribing account plan_id) w h =
      (subscribe_transaction-IsSound account plan_id).at w.billing h
  happen-Sound (submitted account signed) w h =
      (submit_subscription-IsSound account signed).at w.billing h

  happen_all-Sound :
      (es : List Event) (w : GatewayWorld) → Sound w.billing → Sound (happen_all es w).billing
  unfolding happen_all
  happen_all-Sound [] w h = h
  happen_all-Sound (e ∷ es) w h = happen_all-Sound es (happen e w) (happen-Sound e w h)

  -- When the store of the billing is empty to begin with, then after any sequence of calls of the
  -- orchestrator, of the billing service, of the x402 service (its quotes, challenges, verifications,
  -- settlements and redemptions) and of subscribing, whatever the agents, the streams, the clock, the
  -- payment network and the contract give, every account's total balance is the sum of the signed tokens
  -- of its ledger rows, or zero where that sum is negative.
  pub ledger_is_sum :
      (es : List Event) (w : GatewayWorld) (account : String)
      → w.billing.db ≡ empty_db
      → let rows = all_entries account (happen_all es w).billing.db in
        total (balance_of account rows) ≡ max_ℤ (pos 0) (net rows)
  ledger_is_sum es w account empty =
      total-balance_of account (all_entries account (happen_all es w).billing.db)
        (happen_all-Sound es w (rw empty empty-IsSound) account)
