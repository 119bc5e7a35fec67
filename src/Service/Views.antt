-- ===== src/Service/Views.antt =====
-- `view` of `application/billing_service.py`: everything a billing screen needs, in one read.
use code_zard.Prelude.{ℕ, String, Option, none, some, List}
use code_zard.Json.{Json, null, text, array, object, end, field}
use code_zard.Billing.Products.{Plan}
use code_zard.Billing.Ledger.{LedgerEntry, Balance, UsageSummary, usage_of}
use code_zard.Billing.Subscription.{Subscription}
use code_zard.Billing.Rendering.{
  subscription_json, plan_json, balance_json, entries_json, usage_summary_json,
}
use code_zard.Store.{all_entries, entries}
use code_zard.Service.World.{Env, Action, pure, ◌>>=◌, query}
use code_zard.Service.Accounts.{balance}
use code_zard.Service.Periods.{plan_of, settle_period}

pub record AccountView : Type 0 where
  pub account : String
  pub balance : Balance
  pub subscription : Option Subscription
  pub plan : Option Plan
  pub entries : List LedgerEntry
  pub usage : UsageSummary
  pub lifetime : UsageSummary

abbrev subscribed_plan : Env → Option Subscription → Option Plan
subscribed_plan env none = none
subscribed_plan env (some s) = plan_of env.catalog s.plan_id

abbrev window : Option Subscription → Option ℕ
window none = none
window (some s) = some s.started_at

unfoldable pub view : Env → String → ℕ → Action AccountView
view env account limit = do
  s ← settle_period env account
  history ← query (all_entries account)
  b ← balance account
  recent ← query (entries account limit)
  pure (record {
    account = account;
    balance = b;
    subscription = s;
    plan = subscribed_plan env s;
    entries = recent;
    usage = usage_of history (window s);
    lifetime = usage_of history none;
  })

module _ (isoformat : ℕ → String) where
  abbrev subscription_or_null : Option Subscription → Json
  subscription_or_null none = null
  subscription_or_null (some s) = subscription_json isoformat s

  abbrev plan_or_null : Option Plan → Json
  plan_or_null none = null
  plan_or_null (some p) = plan_json p

  -- `AccountView.as_json`
  unfoldable view_json : AccountView → Json
  unfolding subscription_json plan_json balance_json usage_summary_json
  view_json v = object (
      field "account" (text v.account) (
        field "balance" (balance_json v.balance) (
          field "subscription" (subscription_or_null v.subscription) (
            field "plan" (plan_or_null v.plan) (
              field "usage" (usage_summary_json isoformat v.usage) (
                field "lifetime" (usage_summary_json isoformat v.lifetime)
                  (field "entries" (array (entries_json isoformat v.entries)) end)))))))
