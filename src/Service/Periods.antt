-- ===== src/Service/Periods.antt =====
-- The periods of `application/billing_service.py`: `settle_period` and what it is made of, and
-- `authorize`, which settles before it asks for the balance.
use code_zard.Prelude.{ℕ, String, Option, none, some, not, if◌then◌else◌}
use code_zard.Prelude.Int.{ℤ, pos, neg, leb_ℤ, max_ℤ}
use code_zard.Prelude.Result.{ok, err}
use code_zard.Prelude.Text.{concat}
use code_zard.Billing.Errors.{insufficient_funds}
use code_zard.Billing.Money.{zero_money}
use code_zard.Billing.Products.{Cadence, weekly, monthly, one_off, Plan, is_free}
use code_zard.Billing.Catalog
use code_zard.Billing.Catalog.{Catalog, first_free}
use code_zard.Billing.Ledger.{LedgerEntry, Balance, total, can_afford, grant, expiry}
use code_zard.Billing.Subscription.{Subscription, active, begin, due, renewed, ended, period_key}
use code_zard.OnChain.{OnChainSubscription, is_live, chain_period_key}
use code_zard.Store.{append, subscription, put_subscription}
use code_zard.Service.World.{Env, Action, pure, raise, ◌>>=◌, ◌>>◌, reading, query, write, execute}
use code_zard.Service.Accounts.{balance, credit}

abbrev cadence_value : Cadence → String
cadence_value weekly = "weekly"
cadence_value monthly = "monthly"
cadence_value one_off = "one_off"

-- `f"grant:{subscription.period_key}"` and `f"expiry:{subscription.period_key}"`
abbrev grant_reference : Env → Subscription → String
grant_reference env s = concat "grant:" (period_key env.isoformat s)

abbrev expiry_reference : Env → Subscription → String
expiry_reference env s = concat "expiry:" (period_key env.isoformat s)

-- `_grant`
unfoldable pub grant_period : Env → String → Plan → Subscription → Action LedgerEntry
grant_period env account plan s =
    credit env account plan.tokens grant (grant_reference env s) zero_money
      (concat plan.name (concat " · " (cadence_value plan.cadence)))

unfoldable pub begin_on : Env → String → ℕ → Option Plan → Action (Option Subscription)
begin_on env account now none = pure none
begin_on env account now (some plan) = do
  s ← write (put_subscription (begin account plan now))
  grant_period env account plan s
  pure (some s)

-- `_begin_free`
unfoldable pub begin_free : Env → String → ℕ → Action (Option Subscription)
begin_free env account now = begin_on env account now (first_free env.catalog.plans)

abbrev pub expiry_row : Env → String → Subscription → ℕ → Balance → String → LedgerEntry
expiry_row env account s now b id = record {
  id = id;
  account = account;
  kind = expiry;
  tokens = neg b.granted;
  at = now;
  amount = zero_money;
  reference = expiry_reference env s;
  memo = "the period ended and its tokens did not roll over";
}

-- `_expire_grant`
unfoldable pub expire_grant : Env → String → Subscription → ℕ → Action Unit
expire_grant env account s now = do
  b ← balance account
  if leb_ℤ b.granted (pos 0) then pure tt else do
    id ← reading env.entry_id
    execute (append (expiry_row env account s now b id))
    pure tt

-- A plan withdrawn from the catalog is no plan.
abbrev pub plan_of : Catalog → String → Option Plan
plan_of catalog plan_id = elim (Catalog.plan catalog plan_id) [ ok p ↦ some p | err _ ↦ none ]

-- The answer of the contract when it is live at `now`: silence otherwise, an unreachable contract
-- included.
abbrev live_answer : ℕ → Option (Option OnChainSubscription) → Option OnChainSubscription
live_answer now none = none
live_answer now (some none) = none
live_answer now (some (some c)) = if is_live c now then some c else none

abbrev pub chain_reference : OnChainSubscription → String
chain_reference c = concat "chain:" (chain_period_key c)

unfoldable pub mirror_plan :
    Env → String → OnChainSubscription → Option Plan → Action (Option Subscription)
mirror_plan env account c none = pure none
mirror_plan env account c (some plan) = do
  s ← write (
      put_subscription (record {
        account = account;
        plan_id = plan.id;
        started_at = c.started;
        renews_at = c.expires;
        status = active;
      }))
  credit env account plan.tokens grant (chain_reference c) zero_money
      (concat plan.name " · on-chain")
  pure (some s)

unfoldable pub mirror_live :
    Env → String → Option OnChainSubscription → Action (Option Subscription)
mirror_live env account none = pure none
mirror_live env account (some c) = mirror_plan env account c (plan_of env.catalog c.plan)

-- `_mirror_chain`
unfoldable pub mirror_chain : Env → String → ℕ → Action (Option Subscription)
unfolding mirror_live mirror_plan
mirror_chain env account now = if not env.chain_available then pure none else do
  answer ← reading (λ n. env.chain_subscription n account)
  mirror_live env account (live_answer now answer)

-- The end of `settle_period`, once the old grant is expired: a free period renews itself, and any
-- other ends.
unfoldable pub next_period :
    Env → String → Subscription → ℕ → Option Plan → Action (Option Subscription)
next_period env account s now none = do over ← write (put_subscription (ended s)); pure (some over)
next_period env account s now (some plan) =
    if is_free plan
    then (do
      next ← write (put_subscription (renewed s plan now))
      grant_period env account plan next
      pure (some next))
    else (do over ← write (put_subscription (ended s)); pure (some over))

unfoldable pub settle_due : Env → String → Subscription → ℕ → Action (Option Subscription)
settle_due env account s now = do
  expire_grant env account s now
  next_period env account s now (plan_of env.catalog s.plan_id)

unfoldable pub settle_row : Env → String → ℕ → Option Subscription → Action (Option Subscription)
settle_row env account now none = begin_free env account now
settle_row env account now (some s) =
    if due s now then settle_due env account s now else pure (some s)

unfoldable pub settle_mirrored :
    Env → String → ℕ → Option Subscription → Action (Option Subscription)
settle_mirrored env account now (some mirrored) = pure (some mirrored)
settle_mirrored env account now none = do
  row ← query (subscription account)
  settle_row env account now row

unfoldable pub settle_period : Env → String → Action (Option Subscription)
unfolding settle_mirrored
settle_period env account = do
  now ← reading env.clock
  mirrored ← mirror_chain env account now
  settle_mirrored env account now mirrored

unfoldable pub authorize : Env → String → ℤ → Action Balance
authorize env account needed = do
  settle_period env account
  b ← balance account
  let required = max_ℤ needed env.reserve
  if can_afford b required then pure b else raise (insufficient_funds required (total b))
