-- ===== src/OnChain.antt =====
-- src/gateway/infrastructure/billing/subscriptions.py: one subscriber's standing, as the contract
-- records it. The modules below read it from the SDK's values, and build and send transactions; what the
-- SDK and the network give is a parameter.
pub mod Values
pub mod Contract
pub mod Readings
mod Tests
use code_zard.Prelude.{ℕ, ◌/◌, String, Bool, ltb}
use code_zard.Prelude.Int.{pos}
use code_zard.Prelude.Text.{concat, spell}

-- Instants are microseconds in UTC.
pub record OnChainSubscription : Type 0 where
  pub plan : String
  pub started : ℕ
  pub expires : ℕ
  pub periods : ℕ

-- `OnChainSubscription.active`
unfoldable pub is_live : OnChainSubscription → ℕ → Bool
is_live s now = ltb now s.expires

-- `f"{plan}:{int(started.timestamp())}"`: whole seconds.
unfoldable pub chain_period_key : OnChainSubscription → String
chain_period_key s = concat s.plan (concat ":" (spell (pos (s.started / 1_000_000))))
