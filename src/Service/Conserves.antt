-- ===== src/Service/Conserves.antt =====
-- The methods of `application/billing_service.py`, one by one: each keeps every account's rows sound,
-- whether it returns or raises.
use code_zard.Prelude.{ℕ, ◌+◌, String, Option, none, some, false, ◌≡◌, arith, Bool-cases, inl, inr}
use code_zard.Prelude.Int.{ℤ, pos, ◌≤ℤ◌, ltb_ℤ, leb_ℤ}
use code_zard.Billing.Money.{Money}
use code_zard.Billing.Pricing.{Usage}
use code_zard.Billing.Products.{Plan}
use code_zard.Billing.Catalog.{first_free}
use code_zard.Billing.Ledger.{EntryKind, LedgerEntry, usage, balance_of, replay, no_pools}
use code_zard.Billing.Subscription.{Subscription}
use code_zard.Billing.Invoice.{Invoice}
use code_zard.OnChain.{OnChainSubscription}
use code_zard.Store.{append, all_entries, put_invoice, put_subscription}
use code_zard.Service.World.{Env, pure, write, execute}
use code_zard.Service.Accounts.{balance, credit, charge, debit_run}
use code_zard.Service.Periods.{
  grant_period, begin_on, begin_free, expiry_row, expire_grant, mirror_plan, mirror_live,
  mirror_chain, plan_of, next_period, settle_due, settle_row, settle_mirrored, settle_period,
  authorize,
}
use code_zard.Service.Keeps.{
  Keeps, Keeps-raise, Keeps-write, Keeps-execute, Keeps-if, bind_at, keeps_rules,
}
use code_zard.Service.Soundness.{IsSound, append-IsSound, credit-Fits, expiry-Fits, granted_nonneg}

pub put_subscription-IsSound : (s : Subscription) → Keeps IsSound (write (put_subscription s))
unfolding put_subscription all_entries
put_subscription-IsSound s = Keeps-write (put_subscription s) (λ db h. h)

pub put_invoice-IsSound : (i : Invoice) → Keeps IsSound (write (put_invoice i))
unfolding put_invoice all_entries
put_invoice-IsSound i = Keeps-write (put_invoice i) (λ db h. h)

add_credit-IsSound : (e : LedgerEntry) → pos 0 ≤ℤ e.tokens → Keeps IsSound (execute (append e))
add_credit-IsSound e h = Keeps-execute (append e) (λ db s.
    append-IsSound e db s (credit-Fits e.kind _ e.tokens (granted_nonneg e.account db s) h))

not_negative : (t : ℤ) → ltb_ℤ t (pos 0) ≡ false → pos 0 ≤ℤ t
not_negative t h = ground arith

pub credit-IsSound :
    (env : Env) (account : String) (tokens : ℤ) (kind : EntryKind) (reference : String)
    (amount : Money) (memo : String)
    → Keeps IsSound (credit env account tokens kind reference amount memo)
unfolding credit
credit-IsSound env account tokens kind reference amount memo =
    Keeps-if (ltb_ℤ tokens (pos 0)) _ _ (λ _. Keeps-raise _)
      (λ h. search (keeps_rules, add_credit-IsSound, not_negative tokens h))

add_usage-IsSound :
    (id account : String) (tokens : ℤ) (at : ℕ) (amount : Money) (reference memo : String)
    → Keeps IsSound (
        execute (
          append (record {
            id = id;
            account = account;
            kind = usage;
            tokens = tokens;
            at = at;
            amount = amount;
            reference = reference;
            memo = memo;
          })))
add_usage-IsSound id account tokens at amount reference memo =
    Keeps-execute (append _) (λ db s. append-IsSound _ db s tt)

module _ (env : Env) where
  debit_run-IsSound :
      (account run_id : String) (u : Usage) (tokens : ℤ)
      → Keeps IsSound (debit_run env account run_id u tokens)
  unfolding debit_run
  debit_run-IsSound account run_id u tokens = search (keeps_rules, add_usage-IsSound)

  pub charge-IsSound :
      (account run_id : String) (u : Usage) → Keeps IsSound (charge env account run_id u)
  unfolding charge
  charge-IsSound account run_id u = search (keeps_rules, debit_run-IsSound)

  grant_period-IsSound :
      (account : String) (plan : Plan) (s : Subscription)
      → Keeps IsSound (grant_period env account plan s)
  unfolding grant_period
  grant_period-IsSound account plan s = search (keeps_rules, credit-IsSound)

  begin_on-IsSound :
      (account : String) (now : ℕ) (plan : Option Plan)
      → Keeps IsSound (begin_on env account now plan)
  unfolding begin_on
  begin_on-IsSound account now none = search keeps_rules
  begin_on-IsSound account now (some plan) =
      search (keeps_rules, put_subscription-IsSound, grant_period-IsSound)

  expire_grant-IsSound :
      (account : String) (s : Subscription) (now : ℕ)
      → Keeps IsSound (expire_grant env account s now)
  unfolding expire_grant balance balance_of
  expire_grant-IsSound account s now = record {
    at = λ w h.
        let b = balance_of account (all_entries account w.db) in
        elim (Bool-cases (leb_ℤ b.granted (pos 0))) [
          | inl nothing_left ↦ rw nothing_left h
          | inr left ↦ rw left (
              bind_at {P = IsSound}
                (execute (append (expiry_row env account s now b (env.entry_id w.readings))))
                (λ _. pure tt) (record w { readings = w.readings + 1 })
                (append-IsSound _ w.db h (
                  expiry-Fits account (replay no_pools (all_entries account w.db))
                    (granted_nonneg account w.db h)))
                (λ _. search keeps_rules))
        ];
  }

  mirror_live-IsSound :
      (account : String) (c : Option OnChainSubscription)
      → Keeps IsSound (mirror_live env account c)
  mirror_live-IsSound account none = unfold mirror_live in search keeps_rules
  mirror_live-IsSound account (some c) = unfold mirror_live in go (plan_of env.catalog c.plan)
    where
      go : (p : Option Plan) → Keeps IsSound (mirror_plan env account c p)
      go none = unfold mirror_plan in search keeps_rules
      go (some plan) =
          unfold mirror_plan in search (keeps_rules, put_subscription-IsSound, credit-IsSound)

  mirror_chain-IsSound : (account : String) (now : ℕ) → Keeps IsSound (mirror_chain env account now)
  unfolding mirror_chain
  mirror_chain-IsSound account now = search (keeps_rules, mirror_live-IsSound)

  next_period-IsSound :
      (account : String) (s : Subscription) (now : ℕ) (plan : Option Plan)
      → Keeps IsSound (next_period env account s now plan)
  unfolding next_period
  next_period-IsSound account s now none = search (keeps_rules, put_subscription-IsSound)
  next_period-IsSound account s now (some plan) =
      search (keeps_rules, put_subscription-IsSound, grant_period-IsSound)

  settle_row-IsSound :
      (account : String) (now : ℕ) (row : Option Subscription)
      → Keeps IsSound (settle_row env account now row)
  unfolding settle_row begin_free settle_due
  settle_row-IsSound account now none = begin_on-IsSound account now (first_free env.catalog.plans)
  settle_row-IsSound account now (some s) =
      search (keeps_rules, expire_grant-IsSound, next_period-IsSound)

  settle_mirrored-IsSound :
      (account : String) (now : ℕ) (mirrored : Option Subscription)
      → Keeps IsSound (settle_mirrored env account now mirrored)
  unfolding settle_mirrored
  settle_mirrored-IsSound account now none = search (keeps_rules, settle_row-IsSound)
  settle_mirrored-IsSound account now (some s) = search keeps_rules

  pub settle_period-IsSound : (account : String) → Keeps IsSound (settle_period env account)
  unfolding settle_period
  settle_period-IsSound account =
      search (keeps_rules, mirror_chain-IsSound, settle_mirrored-IsSound)

  pub authorize-IsSound :
      (account : String) (needed : ℤ) → Keeps IsSound (authorize env account needed)
  unfolding authorize balance
  authorize-IsSound account needed = search (keeps_rules, settle_period-IsSound)
