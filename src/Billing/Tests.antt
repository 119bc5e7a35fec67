-- ===== src/Billing/Tests.antt =====
-- Inputs that exercise the theorems about the billing domain.
use code_zard.Prelude.Result.{ok}
use code_zard.Json.{Json, text, real, object, Fields, end, field}
use code_zard.Billing.Agent.{from_agent}
use code_zard.Billing.Agent.Reports.{Readable, from_agent-Readable}
use code_zard.Prelude.{
  ℕ, String, Option, none, some, List, [], ◌∷◌, ◌++◌, ◌≡◌, refl, arith, keep, length, ◌+◌, ◌*◌, ◌≤◌,
  ◌<◌, ◌||◌, ◌⊎◌, true, false,
}
use code_zard.Prelude.Int.{ℤ, pos, ◌≤ℤ◌, negsuc, neg, max_ℤ, ◌+ℤ◌, ◌-ℤ◌}
use code_zard.Prelude.Decimal.{finite, decimal}
use code_zard.Billing.Ledger.{
  EntryKind, LedgerEntry, grant, purchase, usage, no_pools, balance_of, replay_kind, settle_pools,
  replay,
}
use code_zard.Billing.Pricing.{default_pricing, per_million_tokens, tokens_for}
use code_zard.Billing.Pricing.Bounds.{tokens_for_lem}
use code_zard.Billing.Ledger.Conservation.{Sound}
use code_zard.Billing.Ledger.Spending.{spent, balance_of-usage}

abbrev row : EntryKind → ℤ → ℕ → LedgerEntry
row kind tokens at = record {
  id = "e";
  account = "GA";
  kind = kind;
  tokens = tokens;
  at = at;
  amount = record { micros = pos 7 };
  reference = "";
  memo = "";
}

-- A week's grant, a pack, and a run that takes more than the grant.
abbrev history : List LedgerEntry
history = row grant (pos 100) 1 ∷ row purchase (pos 50) 2 ∷ row usage (negsuc 119) 3 ∷ []

history-Sound : Sound no_pools history
history-Sound = omega arith

history_left :
    balance_of "GA" history ≡ record { account = "GA"; granted = pos 0; purchased = pos 30 }
unfolding balance_of settle_pools max_ℤ replay replay_kind ◌-ℤ◌ ◌+ℤ◌ neg code_zard.Prelude.Int.min_ℤ
history_left = refl

balance_of-usage_example :
    balance_of "GA" (history ++ row usage (negsuc 39) 4 ∷ [])
    ≡ spent (balance_of "GA" history) (pos 40)
unfolding neg
balance_of-usage_example =
    balance_of-usage "GA" history (row usage (negsuc 39) 4) (pos 40) history-Sound (refl, refl)
      (omega arith)

decimal_amounts :
    (decimal "12.5000000" ≡ some (finite (pos 125_000_000) 7))
    × (decimal "-1e2" ≡ some (finite (negsuc 99) 0))
    × (decimal " 1_000 " ≡ some (finite (pos 1_000) 0))
    × (decimal "1e1000000000000000000" ≡ none)
    × (decimal "1.2.3" ≡ none)
unfolding decimal neg
decimal_amounts = (refl, refl, refl, refl, refl)

tokens_for_lem_example :
    (t : ℕ) × (tokens_for default_pricing (record { micros = pos 1_000_000 }) ≡ pos t)
    × (t * 6_000_000 ≤ 1_000_000 * per_million_tokens)
    × (1_000_000 * per_million_tokens < (t + 1) * 6_000_000)
tokens_for_lem_example = tokens_for_lem default_pricing 1_000_000 5_999_999 refl

abbrev panel : Fields → Json
panel fs = object (field "usage" (object fs) end)

-- A report in words and fractions: what is no number counts as zero, and a fraction is cut off.
from_agent_test :
    from_agent
      (λ v. "")
      (panel (
        field "tokens"
          (real "12.9")
          (field "calls" (text "many") (field "cost_usd" (text "0.0000025") end))))
    ≡ ok (record {
      tokens = pos 12;
      calls = pos 0;
      cost = record { micros = pos 3 };
      simulated = false;
    })
unfolding from_agent max_ℤ
from_agent_test = refl

from_agent-Readable_example :
    Readable (from_agent (λ v. "") (panel (field "tokens" (real "inf") end)))
from_agent-Readable_example =
    from_agent-Readable (λ v. "") (panel (field "tokens" (real "inf") end))
