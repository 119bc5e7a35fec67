-- ===== src/Billing/Ledger.antt =====
-- The ledger of `domain/billing.py`: entries, the balance as a replay of them, and what was used.
pub mod Conservation
pub mod Spending
pub mod UsageWindow
use code_zard.Prelude.{
  ℕ, String, Bool, true, false, Option, none, some, List, [], ◌∷◌, if◌then◌else◌, ltb, ◌+◌,
}
use code_zard.Prelude.Int.{ℤ, pos, ◌+ℤ◌, ◌-ℤ◌, neg, ltb_ℤ, leb_ℤ, max_ℤ, min_ℤ}
use code_zard.Billing.Money.{Money, zero_money, add}

pub data EntryKind : Type 0 where
  grant purchase usage refund adjustment expiry : EntryKind

-- `at` is a UTC instant in microseconds.
pub record LedgerEntry : Type 0 where
  pub id : String
  pub account : String
  pub kind : EntryKind
  pub tokens : ℤ
  pub at : ℕ
  pub amount : Money
  pub reference : String
  pub memo : String

pub record Balance : Type 0 where
  pub account : String
  pub granted : ℤ
  pub purchased : ℤ

unfoldable pub total : Balance → ℤ
total b = b.granted +ℤ b.purchased

unfoldable pub can_afford : Balance → ℤ → Bool
unfolding total
can_afford b tokens = leb_ℤ tokens (total b)

-- The two running sums of `balance_of`.
pub record Pools : Type 0 where
  pub granted : ℤ
  pub purchased : ℤ

-- A debit comes out of the granted pool first.
unfoldable pub debit : Pools → ℤ → Pools
debit s owed =
    let from_grant = min_ℤ s.granted owed in
    record { granted = s.granted -ℤ from_grant; purchased = s.purchased -ℤ (owed -ℤ from_grant) }

-- One turn of the loop of `balance_of`, by the entry's kind.
unfoldable pub replay_kind : EntryKind → Pools → ℤ → Pools
unfolding debit
replay_kind grant s tokens = record s { granted = s.granted +ℤ tokens }
replay_kind expiry s tokens = record s { granted = max_ℤ (pos 0) (s.granted +ℤ tokens) }
replay_kind purchase s tokens = record s { purchased = s.purchased +ℤ tokens }
replay_kind refund s tokens = record s { purchased = s.purchased +ℤ tokens }
replay_kind usage s tokens = debit s (neg tokens)
replay_kind adjustment s tokens = debit s (neg tokens)

unfoldable pub replay : Pools → List LedgerEntry → Pools
replay s [] = s
replay s (e ∷ es) = replay (replay_kind e.kind s e.tokens) es

-- What follows the loop: a shortfall is taken out of the grant, and nothing is negative.
unfoldable pub settle_pools : String → Pools → Balance
settle_pools account s =
    let owing = ltb_ℤ s.purchased (pos 0) in
    let granted = if owing then s.granted +ℤ s.purchased else s.granted in
    let purchased = if owing then pos 0 else s.purchased in
    record {
      account = account;
      granted = max_ℤ (pos 0) granted;
      purchased = max_ℤ (pos 0) purchased;
    }

abbrev pub no_pools : Pools
no_pools = record { granted = pos 0; purchased = pos 0 }

unfoldable pub balance_of : String → List LedgerEntry → Balance
balance_of account entries = settle_pools account (replay no_pools entries)

pub record UsageSummary : Type 0 where
  pub tokens : ℤ
  pub runs : ℕ
  pub cost : Money
  pub since : Option ℕ

abbrev is_usage : EntryKind → Bool
is_usage usage = true
is_usage _ = false

-- `since is not None and entry.at < since`
abbrev before : ℕ → Option ℕ → Bool
before at none = false
before at (some since) = ltb at since

-- One turn of the loop of `usage_of`.
unfoldable pub count_usage : UsageSummary → LedgerEntry → UsageSummary
count_usage s e =
    if is_usage e.kind
    then if before e.at s.since then s else record s {
      tokens = s.tokens +ℤ neg e.tokens;
      runs = s.runs + 1;
      cost = add s.cost e.amount;
    }
    else s

unfoldable pub usage_from : UsageSummary → List LedgerEntry → UsageSummary
usage_from s [] = s
usage_from s (e ∷ es) = usage_from (count_usage s e) es

unfoldable pub usage_of : List LedgerEntry → Option ℕ → UsageSummary
usage_of entries since =
    usage_from (record { tokens = pos 0; runs = 0; cost = zero_money; since = since }) entries
