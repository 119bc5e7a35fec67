-- ===== src/Service/Subscribing.antt =====
-- `subscribe_transaction` and `submit_subscription` of `application/billing_service.py`: the transaction that
-- subscribes an account is built here, signed elsewhere, and sent here.
use code_zard.Prelude.{ℕ, String, Option, not, if◌then◌else◌}
use code_zard.Billing.Errors.{costs_nothing, no_contract, contract_failed}
use code_zard.Billing.Products.{Plan, is_free}
use code_zard.Billing.Catalog
use code_zard.Billing.Subscription.{Subscription}
use code_zard.Service.World.{Env, Action, pure, raise, ◌>>=◌, lift, reading}
use code_zard.Service.Sales.{or_raise}
use code_zard.Service.Periods.{settle_period}

-- The half of the registry that writes; `none` is a raise.
pub record ChainWriter : Type 0 where
  pub network : String
  pub build_subscribe : ℕ → String → String → Option String
  pub submit : ℕ → String → Option String

pub record Unsigned : Type 0 where
  pub plan : Plan
  pub contract : String
  pub network : String
  pub xdr : String

pub record Submitted : Type 0 where
  pub transaction : String
  pub subscription : Option Subscription

module _ (env : Env) (writer : ChainWriter) where
  abbrev pub built : String → Plan → Action Unsigned
  built account plan =
      if is_free plan
      then raise (costs_nothing plan.name)
      else if not env.chain_available
      then raise no_contract
      else do
        answer ← reading (λ n. writer.build_subscribe n account plan.id)
        xdr ← or_raise answer contract_failed
        pure (record {
          plan = plan;
          contract = env.contract_id;
          network = writer.network;
          xdr = xdr;
        })

  unfoldable pub subscribe_transaction : String → String → Action Unsigned
  unfolding is_free
  subscribe_transaction account plan_id = do
    plan ← lift (Catalog.plan env.catalog plan_id)
    built account plan

  unfoldable pub submit_subscription : String → String → Action Submitted
  submit_subscription account signed_xdr = if not env.chain_available then raise no_contract else do
    answer ← reading (λ n. writer.submit n signed_xdr)
    tx_hash ← or_raise answer contract_failed
    subscription ← settle_period env account
    pure (record { transaction = tx_hash; subscription = subscription })
