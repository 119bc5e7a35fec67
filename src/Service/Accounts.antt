-- ===== src/Service/Accounts.antt =====
-- `balance`, `credit` and `charge` of `application/billing_service.py`: the rows that the service
-- writes.
use code_zard.Prelude.{String, Option, none, some, if◌then◌else◌}
use code_zard.Prelude.Int.{ℤ, pos, neg, ltb_ℤ, leb_ℤ}
use code_zard.Prelude.Text.{concat, spell, spell_grouped}
use code_zard.Billing.Errors.{negative_credit}
use code_zard.Billing.Money.{Money}
use code_zard.Billing.Pricing.{Usage, billable}
use code_zard.Billing.Ledger.{EntryKind, LedgerEntry, Balance, balance_of, usage}
use code_zard.Store.{append, all_entries}
use code_zard.Service.World.{Env, Action, pure, raise, ◌>>=◌, lift, reading, query, execute}

unfoldable pub balance : String → Action Balance
balance account = do rows ← query (all_entries account); pure (balance_of account rows)

-- The one way tokens come into existence.
unfoldable pub credit : Env → String → ℤ → EntryKind → String → Money → String → Action LedgerEntry
credit env account tokens kind reference amount memo =
    if ltb_ℤ tokens (pos 0) then raise negative_credit else do
      id ← reading env.entry_id
      now ← reading env.clock
      execute (
          append (record {
            id = id;
            account = account;
            kind = kind;
            tokens = tokens;
            at = now;
            amount = amount;
            reference = reference;
            memo = memo;
          }))

-- `f"run:{run_id}"`
abbrev pub run_reference : String → String
run_reference run_id = concat "run:" run_id

abbrev pub charge_memo : Usage → String
charge_memo u =
    concat (spell_grouped u.tokens) (concat " tokens · " (concat (spell u.calls) " calls"))

unfoldable pub debit_run : Env → String → String → Usage → ℤ → Action (Option LedgerEntry)
debit_run env account run_id u tokens = if leb_ℤ tokens (pos 0) then pure none else do
  id ← reading env.entry_id
  now ← reading env.clock
  entry ← execute (
      append (record {
        id = id;
        account = account;
        kind = usage;
        tokens = neg tokens;
        at = now;
        amount = u.cost;
        reference = run_reference run_id;
        memo = charge_memo u;
      }))
  pure (some entry)

unfoldable pub charge : Env → String → String → Usage → Action (Option LedgerEntry)
unfolding debit_run
charge env account run_id u = do
  tokens ← lift (billable env.catalog.pricing u)
  debit_run env account run_id u tokens
