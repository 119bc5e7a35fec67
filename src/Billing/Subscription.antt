-- ===== src/Billing/Subscription.antt =====
-- `Subscription` of `domain/billing.py`. Instants are microseconds in UTC.
use code_zard.Prelude.{ℕ, ◌+◌, String, Bool, true, false, ◌&&◌, ltb, leb}
use code_zard.Prelude.Text.{concat}
use code_zard.Billing.Products.{Plan, period}

pub data SubscriptionStatus : Type 0 where
  active expired cancelled : SubscriptionStatus

pub record Subscription : Type 0 where
  pub account : String
  pub plan_id : String
  pub started_at : ℕ
  pub renews_at : ℕ
  pub status : SubscriptionStatus

unfoldable pub begin : String → Plan → ℕ → Subscription
unfolding period
begin account plan now = record {
  account = account;
  plan_id = plan.id;
  started_at = now;
  renews_at = now + period plan;
  status = active;
}

abbrev has_status_active : SubscriptionStatus → Bool
has_status_active active = true
has_status_active expired = false
has_status_active cancelled = false

unfoldable is_active : Subscription → ℕ → Bool
is_active s now = has_status_active s.status && ltb now s.renews_at

unfoldable pub due : Subscription → ℕ → Bool
due s now = has_status_active s.status && leb s.renews_at now

unfoldable pub renewed : Subscription → Plan → ℕ → Subscription
unfolding period
renewed s plan now = record s { started_at = now; renews_at = now + period plan; status = active }

unfoldable pub ended : Subscription → Subscription
ended s = record s { status = expired }

-- `Subscription.cancelled`
unfoldable cancel : Subscription → Subscription
cancel s = record s { status = cancelled }

-- `f"{plan_id}:{renews_at.isoformat()}"`; how an instant is spelled is the caller's.
unfoldable pub period_key : (ℕ → String) → Subscription → String
period_key isoformat s = concat s.plan_id (concat ":" (isoformat s.renews_at))
